-- ===== src/Logger.antt =====
-- src/common/logger.h and logger.cpp: where a line goes. Whether the log file can be opened is an
-- argument, and so is the time in a line.
pub mod Routes
use cec_control.Prelude.{
  ℕ, ◌≤◌, Bool, true, false, not, ◌&&◌, ◌||◌, List, [], ◌∷◌, ◌++◌, leb, ltb, is_empty,
  if◌then◌else◌, Text, codes,
}

pub data LogLevel : Type 0 where
  debug traffic info warning error fatal : LogLevel

abbrev pub rank : LogLevel → ℕ
rank debug = 0
rank traffic = 1
rank info = 2
rank warning = 3
rank error = 4
rank fatal = 5

pub data LogSink : Type 0 where
  discard to_stdout to_stderr : LogSink

pub record LogConfig : Type 0 where
  pub low_level_sink : LogSink
  pub high_level_sink : LogSink
  pub file_path : Text
  pub min_level : LogLevel

-- The logger, and what it has written, the newest line first.
pub record Logger : Type 0 where
  pub low_sink : LogSink
  pub high_sink : LogSink
  pub min_level : LogLevel
  pub file_open : Bool
  pub out : List Text
  pub err : List Text
  pub file : List Text

abbrev pub silent : Logger
silent = record {
  low_sink = discard;
  high_sink = discard;
  min_level = info;
  file_open = false;
  out = [];
  err = [];
  file = [];
}

-- `opens` tells whether the file can be opened.
unfoldable pub configure : Bool → LogConfig → Logger → Logger
configure opens c l =
    let set = record l {
      low_sink = c.low_level_sink;
      high_sink = c.high_level_sink;
      min_level = c.min_level;
      file_open = not (is_empty c.file_path) && opens;
    } in
    if is_empty c.file_path || opens
    then set
    else record set { err = (codes "logger: failed to open log file: " ++ c.file_path) ∷ l.err }

abbrev pub print_to : LogSink → Text → Logger → Logger
print_to discard line l = l
print_to to_stdout line l = record l { out = line ∷ l.out }
print_to to_stderr line l = record l { err = line ∷ l.err }

unfoldable pub emit : LogLevel → Text → Logger → Logger
emit level line l =
    let console = if leb (rank warning) (rank level) then l.high_sink else l.low_sink in
    let printed = print_to console line l in
    if l.file_open then record printed { file = line ∷ l.file } else printed

abbrev level_string : LogLevel → Text
level_string debug = codes "DEBUG"
level_string traffic = codes "TRAFFIC"
level_string info = codes "INFO"
level_string warning = codes "WARNING"
level_string error = codes "ERROR"
level_string fatal = codes "FATAL"

-- A call of one of the macros, with the time at which it is made.
pub record Entry : Type 0 where
  pub time : Text
  pub level : LogLevel
  pub message : Text

unfoldable pub line_of : Entry → Text
line_of e = e.time ++ codes " [" ++ level_string e.level ++ codes "] " ++ e.message

-- `log`: below the threshold no line is made.
unfoldable pub log : Entry → Logger → Logger
unfolding emit line_of
log e l = if ltb (rank e.level) (rank l.min_level) then l else emit e.level (line_of e) l

unfoldable pub log_all : List Entry → Logger → Logger
unfolding log
log_all [] l = l
log_all (e ∷ es) l = log_all es (log e l)
