-- ===== src/Arguments.antt =====
-- src/common/argument_parser.h and argument_parser.cpp: the command line as an action. `argv` has
-- the program's name first. Error texts are values that hold what the text is made of.
pub mod Daemon
pub mod Client
use cec_control.Prelude.{
  Bool, true, false, Option, none, some, List, [], ◌∷◌, ◌++◌, ◌==◌, ◌||◌, is_empty, if◌then◌else◌,
  Text, codes, ◌=ₜ◌,
}
use cec_control.Message.{Message}
use cec_control.Registry
use cec_control.Registry.{Error, CommandSpec, find_by_name}

pub data HelpTarget : Type 0 where
  general client daemon : HelpTarget

pub data ParseError : Type 0 where
  path_missing unknown_daemon_option daemon_positional : Text → ParseError
  log_path_empty config_path_empty socket_path_empty socket_path_repeated : ParseError
  unexpected_after unknown_command : Text → Text → ParseError
  command_failed : Error → ParseError

pub record RunClient : Type 0 where
  pub command : Message
  pub socket_path_override : Text

pub record RunDaemon : Type 0 where
  pub verbose : Bool
  pub log_file : Text
  pub config_file : Text

pub data Action : Type 0 where
  parse_error : ParseError → Action
  show_help : HelpTarget → Action
  run_client : RunClient → Action
  run_daemon : RunDaemon → Action

abbrev pub default_daemon : RunDaemon
default_daemon = record { verbose = false; log_file = []; config_file = [] }

-- `kSocketPathPrefix`.
abbrev pub socket_path_prefix : Text
socket_path_prefix = codes "--socket-path="

abbrev pub is_help_flag : Text → Bool
is_help_flag arg = arg =ₜ codes "--help" || arg =ₜ codes "-h"

unfoldable pub help_target_from_token : Text → HelpTarget
help_target_from_token token =
    if token =ₜ codes "client" then client else if token =ₜ codes "daemon" then daemon else general

abbrev begins_with_dash : Text → Bool
begins_with_dash [] = false
begins_with_dash (c ∷ cs) = c == b'-'

-- The loop of `parseDaemonOptions`, with the options so far.
unfoldable pub daemon_options : List Text → RunDaemon → Action
daemon_options [] out = run_daemon out
daemon_options (arg ∷ []) out =
    if arg =ₜ codes "--verbose" || arg =ₜ codes "-v"
    then run_daemon (record out { verbose = true })
    else if arg =ₜ codes "--log" || arg =ₜ codes "-l"
    then parse_error (path_missing arg)
    else if arg =ₜ codes "--config" || arg =ₜ codes "-c"
    then parse_error (path_missing arg)
    else if is_help_flag arg
    then show_help daemon
    else if begins_with_dash arg
    then parse_error (unknown_daemon_option arg)
    else parse_error (daemon_positional arg)
daemon_options (arg ∷ value ∷ rest) out =
    let after_verbose = daemon_options (value ∷ rest) (record out { verbose = true }) in
    let after_log = daemon_options rest (record out { log_file = value }) in
    let after_config = daemon_options rest (record out { config_file = value }) in
    if arg =ₜ codes "--verbose" || arg =ₜ codes "-v"
    then after_verbose
    else if arg =ₜ codes "--log" || arg =ₜ codes "-l"
    then (if is_empty value then parse_error log_path_empty else after_log)
    else if arg =ₜ codes "--config" || arg =ₜ codes "-c"
    then (if is_empty value then parse_error config_path_empty else after_config)
    else if is_help_flag arg
    then show_help daemon
    else if begins_with_dash arg
    then parse_error (unknown_daemon_option arg)
    else parse_error (daemon_positional arg)

unfoldable pub parse_daemon_options : List Text → Action
unfolding daemon_options
parse_daemon_options args = daemon_options args default_daemon

-- The text behind a prefix, if the text has it.
unfoldable pub behind : Text → Text → Option Text
behind [] s = some s
behind (p ∷ ps) [] = none
behind (p ∷ ps) (c ∷ cs) = let rest = behind ps cs in if p == c then rest else none

-- The arguments that are left with the path of the socket, or the error.
pub data Extracted : Type 0 where
  extracted : List Text → Text → Extracted
  refused : ParseError → Extracted

-- The loop of `extractClientFlags`, with what it has found so far.
unfoldable pub extract : List Text → List Text → Text → Extracted
unfolding behind
extract [] positional path = extracted positional path
extract (arg ∷ args) positional path =
    let kept = extract args (positional ++ arg ∷ []) path in
    elim (behind socket_path_prefix arg) [
      | none ↦ kept
      | some value ↦
          (let rest = extract args positional value in
            if is_empty value
            then refused socket_path_empty
            else if is_empty path
            then rest
            else refused socket_path_repeated)
    ]

unfoldable pub extract_client_flags : List Text → Extracted
unfolding extract
extract_client_flags args = extract args [] []

run_command : CommandSpec → Extracted → Action
run_command spec (refused e) = parse_error e
run_command spec (extracted args path) = elim (spec.parse args) [
  | Registry.ok m ↦ run_client (record { command = m; socket_path_override = path })
  | Registry.err e ↦ parse_error (command_failed e)
]

unfoldable pub parse_client_command : CommandSpec → List Text → Action
unfolding run_command extract_client_flags
parse_client_command spec args = run_command spec (extract_client_flags args)

abbrev help_after : List Text → HelpTarget
unfolding help_target_from_token
help_after [] = general
help_after (token ∷ rest) = help_target_from_token token

abbrev help_alone : Text → List Text → Action
help_alone first [] = show_help general
help_alone first (arg ∷ rest) = parse_error (unexpected_after first arg)

-- `parse` on the arguments behind the program's name.
unfoldable pub parse_args : Text → List Text → Action
unfolding parse_daemon_options parse_client_command find_by_name help_after
parse_args program [] = show_help general
parse_args program (first ∷ args) =
    if first =ₜ codes "help"
    then show_help (help_after args)
    else if first =ₜ codes "daemon"
    then parse_daemon_options args
    else if is_help_flag first
    then help_alone first args
    else elim (find_by_name first) [
      | none ↦ parse_error (unknown_command first program)
      | some spec ↦ parse_client_command spec args
    ]

unfoldable pub parse : List Text → Action
unfolding parse_args
parse [] = show_help general
parse (program ∷ args) = parse_args program args
