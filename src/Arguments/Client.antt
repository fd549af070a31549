-- ===== src/Arguments/Client.antt =====
-- src/common/argument_parser.cpp: the client's flag and its commands.
use cec_control.Prelude.{
  ◌≡◌, refl, true, false, none, some, List, [], ◌∷◌, ◌++◌, All, append_assoc, append-nil, is_empty,
  if◌then◌else◌, Text, ap, ◌∙◌, sym, Bool-cases, Option-cases, inl, inr,
}
use cec_control.Registry.{CommandSpec, commands, find_by_name}
use cec_control.Arguments.{
  Extracted, extracted, refused, socket_path_empty, socket_path_repeated, socket_path_prefix,
  behind, extract, extract_client_flags, parse_client_command, parse, parse_args,
}

-- The values of the socket path's flags, and the other arguments, each in order.
abbrev pub flag_values : List Text → List Text
unfolding behind
flag_values [] = []
flag_values (arg ∷ args) =
    let rest = flag_values args in
    elim (behind socket_path_prefix arg) [ none ↦ rest | some value ↦ value ∷ rest ]

abbrev pub positionals : List Text → List Text
unfolding behind
positionals [] = []
positionals (arg ∷ args) =
    let rest = positionals args in
    elim (behind socket_path_prefix arg) [ none ↦ arg ∷ rest | some value ↦ rest ]

-- Specification: one value that is not empty is the path, none leaves the path empty, and any other
-- values are an error, that of the first two which matters first.
abbrev pub judge : List Text → List Text → Extracted
judge args [] = extracted args []
judge args (v ∷ []) = if is_empty v then refused socket_path_empty else extracted args v
judge args (v ∷ w ∷ vs) =
    if is_empty v
    then refused socket_path_empty
    else if is_empty w
    then refused socket_path_empty
    else refused socket_path_repeated

-- The loop once a path is known.
abbrev judge_more : List Text → Text → List Text → Extracted
judge_more args path [] = extracted args path
judge_more args path (w ∷ ws) =
    if is_empty w then refused socket_path_empty else refused socket_path_repeated

extract_more :
    (args done : List Text) (path : Text)
    → is_empty path ≡ false
    → extract args done path ≡ judge_more (done ++ positionals args) path (flag_values args)
unfolding extract
extract_more [] done path h = ap (λ ys. extracted ys path) (sym (append-nil done))
extract_more (arg ∷ args) done path h = elim (Option-cases (behind socket_path_prefix arg)) [
  | inl e ↦ rw e (
      extract_more args (done ++ arg ∷ []) path h
      ∙ ap (λ ys. judge_more ys path (flag_values args))
          (append_assoc done (arg ∷ []) (positionals args)))
  | inr (value, e) ↦ rw (e, h) refl
]

empty_first :
    (value : Text) (vs args : List Text)
    → is_empty value ≡ true
    → refused socket_path_empty ≡ judge args (value ∷ vs)
empty_first value [] args b = rw b refl
empty_first value (w ∷ vs) args b = rw b refl

more_judge :
    (value : Text) (vs args : List Text)
    → is_empty value ≡ false
    → judge_more args value vs ≡ judge args (value ∷ vs)
more_judge value [] args b = rw b refl
more_judge value (w ∷ vs) args b = rw b refl

-- The first flag.
first_value :
    (value : Text) (args done : List Text)
    → (if is_empty value then refused socket_path_empty else extract args done value)
      ≡ judge (done ++ positionals args) (value ∷ flag_values args)
first_value value args done = elim (Bool-cases (is_empty value)) [
  | inl b ↦ rw b (empty_first value (flag_values args) (done ++ positionals args) b)
  | inr b ↦ rw b (
      extract_more args done value b
      ∙ more_judge value (flag_values args) (done ++ positionals args) b)
]

extract_first :
    (args done : List Text)
    → extract args done [] ≡ judge (done ++ positionals args) (flag_values args)
unfolding extract
extract_first [] done = ap (λ ys. extracted ys []) (sym (append-nil done))
extract_first (arg ∷ args) done = elim (Option-cases (behind socket_path_prefix arg)) [
  | inl e ↦ rw e (
      extract_first args (done ++ arg ∷ [])
      ∙ ap (λ ys. judge ys (flag_values args)) (append_assoc done (arg ∷ []) (positionals args)))
  | inr (value, e) ↦ rw e (first_value value args done)
]

-- The flag of the socket path may stand anywhere among a command's arguments: the other arguments
-- keep their order, one flag gives the path, none gives the empty one, and an empty value or a
-- second flag is an error.
pub extract_client_flags-judge :
    (args : List Text) → extract_client_flags args ≡ judge (positionals args) (flag_values args)
unfolding extract_client_flags
extract_client_flags-judge args = extract_first args []

-- A command line that begins with the name of a registered command is parsed by that command.
pub parse-commands :
    All
      (λ (spec : CommandSpec).
        (program : Text) (args : List Text)
        → parse (program ∷ spec.name ∷ args) ≡ parse_client_command spec args)
      commands
unfolding parse parse_args find_by_name commands
parse-commands = (
  λ p a. refl,
  (
    λ p a. refl,
    (λ p a. refl, (λ p a. refl, (λ p a. refl, (λ p a. refl, (λ p a. refl, (λ p a. refl, tt)))))),
  ),
)
