-- ===== src/Bootstrap/Exchanged.antt =====
-- src/main.cpp: a command line, from its words to the exit code.
use cec_control.Prelude.{◌≡◌, ◌↔◌, ◌≤◌, ◌∙◌, ap, List, ◌∷◌, some, length, Text, arith, ◌=ₜ◌}
use cec_control.Message.{Message, resp_success, serialize, deserialize, max_message_size}
use cec_control.Message.Codec.{deserialize-eq_some_iff}
use cec_control.Registry.{CommandSpec, find_by_name, commands, ok}
use cec_control.Registry.Parsing.{parse-arrives, find_if-All}
use cec_control.Arguments.{
  RunClient, extracted, run_client, extract_client_flags, parse_client_command, parse,
}
use cec_control.Arguments.Client.{parse-commands}
use cec_control.Client.{Outcome, success, new_client}
use cec_control.Client
use cec_control.Client.Served.{IsServed, execute-served}
use cec_control.Bootstrap.{Host, Occurrence, exchanged, perform, main}

-- A registered command is parsed by its own parser, behind any program's name.
parse-found :
    (program : Text) (args : List Text) (spec : CommandSpec)
    → find_by_name spec.name ≡ some spec
    → parse (program ∷ spec.name ∷ args) ≡ parse_client_command spec args
unfolding find_by_name
parse-found program args spec f =
    find_if-All
      (λ (c : CommandSpec).
        (program : Text) (args : List Text)
        → parse (program ∷ c.name ∷ args) ≡ parse_client_command c args)
      (λ c. c.name =ₜ spec.name) commands parse-commands f program args

accepted :
    (args rest : List Text) (path : Text) (spec : CommandSpec) (m : Message)
    → extract_client_flags args ≡ extracted rest path
    → spec.parse rest ≡ ok m
    → parse_client_command spec args
      ≡ run_client (record { command = m; socket_path_override = path })
unfolding parse_client_command
accepted args rest path spec m x p = rw x (ground (arith, p))

fits : (m : Message) → deserialize (serialize m) ≡ some m → length (serialize m) ≤ max_message_size
fits m h = ((deserialize-eq_some_iff (serialize m) m).0 h).1

module _ (host : Host) (respond : Message → Message) (served : IsServed host.system respond) where
  -- A command line of a registered command, with at most one flag for the socket's path, whose arguments
  -- the command accepts as a message, ends in an exchange, and the program exits with success exactly
  -- when the daemon's response to that message is a success: as long as the daemon can be reached,
  -- decodes what it receives and answers within the size limit.
  pub main-served :
      (program : Text) (args rest : List Text) (path : Text) (spec : CommandSpec) (m : Message)
      (happens : List Occurrence)
      → find_by_name spec.name ≡ some spec
      → extract_client_flags args ≡ extracted rest path
      → spec.parse rest ≡ ok m
      → length (serialize (respond m)) ≤ max_message_size
      → (o : Outcome) × (main host (program ∷ spec.name ∷ args) happens ≡ some (exchanged o))
        × ((o.code ≡ success) ↔ ((respond m).type ≡ resp_success))
  unfolding main perform Client.run
  main-served program args rest path spec m happens f x p k =
      let action : RunClient = record { command = m; socket_path_override = path } in
      let (t, d, b, e) = parse-arrives spec.name rest spec m f p in
      (
        Client.run host.system action,
        ap (λ a. perform host program a happens)
            (parse-found program args spec f ∙ accepted args rest path spec m x p),
        execute-served host.system respond m (new_client host.system path) served (fits m e) k,
      )
