-- ===== src/Help.antt =====
-- src/common/help_printer.cpp and src/common/key_codes.cpp's list of names: the help texts. The paths that
-- they show are arguments.
pub mod Columns
use cec_control.Prelude.{
  ℕ, zero, suc, ◌+◌, ◌-◌, max, List, [], ◌∷◌, ◌++◌, length, ltb, is_empty, if◌then◌else◌, Text,
  codes,
}
use cec_control.KeyCodes.{KeySpec, key_codes}
use cec_control.Registry.{CommandSpec, commands}
use cec_control.Arguments.{HelpTarget, general, client, daemon}
use cec_control.SystemPaths.{Files, get_socket_path, get_log_path, get_config_path}

abbrev pub spaces : ℕ → Text
spaces zero = []
spaces (suc n) = 0x20 ∷ spaces n

-- The command with its arguments, indented.
abbrev pub left_of : CommandSpec → Text
left_of spec =
    codes "  "
    ++ spec.name
    ++ (if is_empty spec.arg_syntax then [] else codes " " ++ spec.arg_syntax)

unfoldable pub render_command_line : CommandSpec → ℕ → Text
render_command_line spec column =
    let printed = length (left_of spec) in
    let pad = if ltb printed column then column - printed else 1 in
    left_of spec ++ spaces pad ++ spec.help

abbrev pub width : CommandSpec → ℕ
width spec = length spec.name + (if is_empty spec.arg_syntax then 0 else 1 + length spec.arg_syntax)

-- The loop over the commands, with the greatest width so far.
unfoldable pub widest : List CommandSpec → ℕ → ℕ
widest [] so_far = so_far
widest (spec ∷ specs) so_far = widest specs (max so_far (width spec))

unfoldable pub compute_description_column : List CommandSpec → ℕ
unfolding widest
compute_description_column specs = 2 + widest specs 0 + 4

abbrev pub line : Text → Text
line s = s ++ (10 ∷ [])

unfoldable pub lines_at : ℕ → List CommandSpec → Text
unfolding render_command_line
lines_at column [] = []
lines_at column (spec ∷ specs) = line (render_command_line spec column) ++ lines_at column specs

unfoldable pub print_registry_commands : Text
unfolding lines_at compute_description_column commands
print_registry_commands = lines_at (compute_description_column commands) commands

unfoldable pub format_key_names_list : Text → List KeySpec → Text
format_key_names_list separator [] = []
format_key_names_list separator (k ∷ []) = k.name
format_key_names_list separator (k ∷ l ∷ ks) =
    k.name ++ separator ++ format_key_names_list separator (l ∷ ks)

module _ (os : Files) where
  unfoldable pub general_help : Text → Text
  unfolding print_registry_commands
  general_help program =
      line (codes "CEC Control - HDMI-CEC device management")
      ++ line []
      ++ line (codes "USAGE:")
      ++ line (codes "  " ++ program ++ codes " COMMAND [ARGS...] [OPTIONS]    # Client mode")
      ++ line (codes "  " ++ program ++ codes " daemon [OPTIONS]               # Daemon mode")
      ++ line []
      ++ line (codes "CLIENT COMMANDS:")
      ++ print_registry_commands
      ++ line []
      ++ line (codes "DAEMON OPTIONS:")
      ++ line (codes "  -v, --verbose                            Enable verbose logging")
      ++ line (codes "  -l, --log FILE                           Set log file path")
      ++ line (codes "  -c, --config FILE                        Set configuration file")
      ++ line []
      ++ line (codes "DETAILED HELP:")
      ++ line (codes "  " ++ program ++ codes " help client        Show client command reference")
      ++ line
          (codes "  " ++ program ++ codes " help daemon        Show daemon configuration reference")
      ++ line []
      ++ line (codes "EXAMPLES:")
      ++ line (codes "  " ++ program ++ codes " power on 0         Turn on TV")
      ++ line (codes "  " ++ program ++ codes " daemon             Run daemon")
      ++ line []

  unfoldable pub client_help : Text → Text
  unfolding print_registry_commands get_socket_path format_key_names_list
  client_help program =
      line (codes "CEC Client - Control CEC devices")
      ++ line []
      ++ line (codes "USAGE:")
      ++ line (codes "  " ++ program ++ codes " COMMAND [ARGS...] [OPTIONS]")
      ++ line []
      ++ line (codes "COMMANDS:")
      ++ print_registry_commands
      ++ line []
      ++ line (codes "OPTIONS:")
      ++ line (codes "  --socket-path=PATH                       Set daemon socket path")
      ++ line (
          codes "                                           (default: "
          ++ get_socket_path os
          ++ codes ")")
      ++ line []
      ++ line (codes "ENVIRONMENT:")
      ++ line (
          codes
            "  CEC_CONTROL_SOCKET                       Override socket path for system service")
      ++ line (codes "                                           (use /run/cec-control/socket)")
      ++ line []
      ++ line (codes "EXAMPLES:")
      ++ line (codes "  " ++ program ++ codes " volume up 5        Increase volume on device 5")
      ++ line (codes "  " ++ program ++ codes " power on 0         Turn on TV (device 0)")
      ++ line (codes "  " ++ program ++ codes " source 0 4         Switch TV to HDMI 3")
      ++ line
          (codes "  " ++ program ++ codes " key blue           Press the blue colour key on the TV")
      ++ line (codes "  " ++ program ++ codes " suspend            Prepare for system sleep")
      ++ line []
      ++ line (codes "DEVICE IDs (CEC logical addresses):")
      ++ line (codes "  0  - TV                                  5  - Audio System")
      ++ line (codes "  1  - Recording Device 1                  4  - Playback Device 1")
      ++ line []
      ++ line (codes "SOURCE IDs (input sources):")
      ++ line (codes "  0  - General AV input                    3  - HDMI 2")
      ++ line (codes "  1  - Audio input                         4  - HDMI 3")
      ++ line (codes "  2  - HDMI 1                              5  - HDMI 4")
      ++ line []
      ++ line (codes "KEY NAMES (for `key`):")
      ++ line (codes "  " ++ format_key_names_list (codes ", ") key_codes)
      ++ line []

  unfoldable pub daemon_help : Text → Text
  unfolding print_registry_commands get_log_path get_config_path
  daemon_help program =
      line (codes "CEC Daemon - Background service for CEC device management")
      ++ line []
      ++ line (codes "USAGE:")
      ++ line (codes "  " ++ program ++ codes " daemon [OPTIONS]")
      ++ line []
      ++ line (codes "OPTIONS:")
      ++ line (codes "  -v, --verbose                            Enable verbose logging")
      ++ line (codes "  -l, --log FILE                           Set log file path")
      ++ line (
          codes "                                           (default: "
          ++ get_log_path os
          ++ codes ")")
      ++ line (codes "  -c, --config FILE                        Set configuration file path")
      ++ line (
          codes "                                           (default: "
          ++ get_config_path os
          ++ codes ")")
      ++ line (codes "  -h, --help                               Show this help message")
      ++ line []
      ++ line (codes "EXAMPLES:")
      ++ line (
          codes "  "
          ++ program
          ++ codes " daemon                            Run daemon in the foreground")
      ++ line (
          codes "  "
          ++ program
          ++ codes " daemon --verbose                  Run with verbose logging")
      ++ line (
          codes "  "
          ++ program
          ++ codes " daemon -c /path/to/config.conf    Run with custom configuration")
      ++ line []

  unfoldable pub print_help : HelpTarget → Text → Text
  unfolding general_help client_help daemon_help
  print_help client program = client_help program
  print_help daemon program = daemon_help program
  print_help general program = general_help program
