-- ===== src/SystemPaths.antt =====
-- src/common/system_paths.cpp: where the files are. The environment, `std::filesystem` and the system's
-- calls are the parameter `Files`.
use cec_control.Prelude.{
  ◌++◌, Bool, true, false, Option, none, some, [], ◌∷◌, ◌==◌, is_empty, if◌then◌else◌, Text, codes,
}
use cec_control.Adapter.{Outcome, returned}
use cec_control.Adapter

-- `variable` is `getenv`; `parent` is `parent_path` and `append` is `operator/` of the library's paths,
-- which may throw.
pub record Files : Type 0 where
  pub variable : Text → Option Text
  pub parent : Text → Outcome Text
  pub append : Text → Text → Outcome Text
  pub exists : Text → Outcome Bool
  pub create_directories : Text → Outcome Bool

abbrev pub app_name : Text
app_name = codes "cec-control"

-- A variable that is set to something.
abbrev pub set_value : Option Text → Option Text
set_value none = none
set_value (some value) = if is_empty value then none else some value

abbrev ends_with_slash : Text → Bool
ends_with_slash [] = false
ends_with_slash (c ∷ []) = c == b'/'
ends_with_slash (c ∷ d ∷ cs) = ends_with_slash (d ∷ cs)

-- What stands before the last slash, if there is one.
unfoldable pub before_last_slash : Text → Option Text
before_last_slash [] = none
before_last_slash (c ∷ cs) = elim (before_last_slash cs) [
  | some rest ↦ some (c ∷ rest)
  | none ↦ if c == b'/' then some [] else none
]

module _ (os : Files) where
  unfoldable pub get_parent_dir : Text → Text
  unfolding before_last_slash
  get_parent_dir path = if is_empty path then [] else elim (os.parent path) [
    | returned p ↦ p
    | Adapter.threw ↦ elim (before_last_slash path) [ none ↦ [] | some p ↦ p ]
  ]

  unfoldable pub join_path : Text → Text → Text
  join_path base component = if is_empty base then component else elim (os.append base component) [
    | returned p ↦ p
    | Adapter.threw ↦
        if ends_with_slash base then base ++ component else base ++ codes "/" ++ component
  ]

  abbrev run_directory : Text → Text
  unfolding join_path
  run_directory [] = join_path (codes "/run") app_name
  run_directory (c ∷ cs) = if c == b'/' then c ∷ cs else join_path (codes "/run") (c ∷ cs)

  unfoldable pub get_system_runtime_dir : Text
  unfolding join_path
  get_system_runtime_dir = elim (os.variable (codes "RUNTIME_DIRECTORY")) [
    | none ↦ run_directory []
    | some value ↦ run_directory value
  ]

  unfoldable pub get_socket_path : Text
  unfolding get_system_runtime_dir join_path
  get_socket_path = elim (set_value (os.variable (codes "CEC_CONTROL_SOCKET"))) [
    | some path ↦ path
    | none ↦ join_path get_system_runtime_dir (codes "socket")
  ]

  unfoldable pub get_config_path : Text
  unfolding join_path
  get_config_path = elim (set_value (os.variable (codes "CEC_CONTROL_CONFIG"))) [
    | some path ↦ path
    | none ↦ join_path (join_path (codes "/etc") app_name) (codes "config.conf")
  ]

  unfoldable pub get_log_path : Text
  unfolding join_path
  get_log_path = elim (set_value (os.variable (codes "CEC_CONTROL_LOG"))) [
    | some path ↦ path
    | none ↦ join_path (join_path (codes "/var/log") app_name) (codes "daemon.log")
  ]

  -- A failure to set the permissions is only logged.
  unfoldable pub create_directories : Text → Bool
  create_directories path = if is_empty path then false else elim (os.exists path) [
    | Adapter.threw ↦ false
    | returned true ↦ true
    | returned false ↦ elim (os.create_directories path) [
      | returned made ↦ made
      | Adapter.threw ↦ false
    ]
  ]

  unfoldable pub ensure_parent_dir_exists : Text → Bool
  unfolding get_parent_dir create_directories
  ensure_parent_dir_exists path =
      let parent = get_parent_dir path in
      if is_empty parent then true else create_directories parent
