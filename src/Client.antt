-- ===== src/Client.antt =====
-- src/client/socket_client.h, socket_client.cpp, cec_client.cpp and client_runner.cpp: one exchange
-- with the daemon, and what the process prints and exits with. The system's calls are the parameter
-- `System`. `errnoCode` is an option, with none for the source's 0.
pub mod Exchange
pub mod Success
pub mod Served
use cec_control.Prelude.{
  ℕ, Bool, true, false, Option, none, some, List, [], ◌∷◌, ◌++◌, length, ltb, ◌==◌, ◌||◌, not,
  is_empty, if◌then◌else◌, Text, codes, to_text,
}
use cec_control.Message.{
  Message, MessageType, resp_success, max_message_size, same_type, serialize, deserialize,
}
use cec_control.Arguments.{RunClient}

pub data Errno : Type 0 where
  enoent econnrefused etimedout eagain ewouldblock : Errno
  another : ℕ → Errno

pub data ClientErrorKind : Type 0 where
  daemon_unavailable connect_timeout connect_failed not_connected send_failed : ClientErrorKind
  peer_closed response_timeout receive_failed oversized_response : ClientErrorKind
  malformed_response : ClientErrorKind

pub record ClientError : Type 0 where
  pub kind : ClientErrorKind
  pub errno_code : Option Errno
  pub detail : Text

-- What `send` and `recv` answer. A datagram is whole, also one that the buffer does not hold.
pub data Sent : Type 0 where
  sent : ℕ → Sent
  send_error : Errno → Sent

pub data Received : Type 0 where
  datagram : List ℕ → Received
  recv_error : Errno → Received

-- The system: the default path, the error of connecting to a path and of setting the time-outs, what
-- sending answers, what is received after the bytes that were sent, and the texts of errors.
pub record System : Type 0 where
  pub default_path : Text
  pub connect_error : Text → Option Errno
  pub timeout_error : Option Errno
  pub send : List ℕ → Sent
  pub recv : List ℕ → Received
  pub strerror : Errno → Text

pub record SocketClient : Type 0 where
  pub socket_path : Text
  pub is_connected : Bool

unfoldable pub classify_connect_errno : Errno → ClientErrorKind
classify_connect_errno enoent = daemon_unavailable
classify_connect_errno econnrefused = daemon_unavailable
classify_connect_errno etimedout = connect_timeout
classify_connect_errno eagain = connect_failed
classify_connect_errno ewouldblock = connect_failed
classify_connect_errno (another n) = connect_failed

unfoldable pub new_client : System → Text → SocketClient
new_client os path = record {
  socket_path = if is_empty path then os.default_path else path;
  is_connected = false;
}

unfoldable pub set_io_timeout : System → SocketClient → Option ClientError × SocketClient
set_io_timeout os c = elim os.timeout_error [
  | none ↦ (none, record c { is_connected = true })
  | some e ↦ (
    some (record {
      kind = connect_failed;
      errno_code = some e;
      detail = codes "could not set I/O timeout on socket";
    }),
    record c { is_connected = false },
  )
]

unfoldable pub connect : System → SocketClient → Option ClientError × SocketClient
unfolding classify_connect_errno set_io_timeout
connect os c = elim (os.connect_error c.socket_path) [
  | none ↦ set_io_timeout os c
  | some e ↦ (
    some (record { kind = classify_connect_errno e; errno_code = some e; detail = c.socket_path }),
    record c { is_connected = false },
  )
]

pub data SendResult : Type 0 where
  response : Message → SendResult
  failed : ClientError → SendResult

-- An error that no call of the system made.
abbrev pub plain : ClientErrorKind → Text → SendResult
plain kind detail = failed (record { kind = kind; errno_code = none; detail = detail })

abbrev receive_kind : Errno → ClientErrorKind
receive_kind eagain = response_timeout
receive_kind ewouldblock = response_timeout
receive_kind _ = receive_failed

unfoldable pub take_response : Received → SendResult
take_response (recv_error e) =
    failed (record { kind = receive_kind e; errno_code = some e; detail = [] })
take_response (datagram bytes) =
    if is_empty bytes
    then plain peer_closed []
    else if ltb max_message_size (length bytes)
    then plain oversized_response (to_text (length bytes) ++ codes " bytes")
    else elim (deserialize bytes) [ none ↦ plain malformed_response [] | some m ↦ response m ]

unfoldable pub exchange : System → List ℕ → Sent → SendResult
unfolding take_response
exchange os bytes (send_error e) =
    failed (record { kind = send_failed; errno_code = some e; detail = [] })
exchange os bytes (sent n) =
    if not (n == length bytes)
    then plain send_failed
        (codes "short send (" ++ to_text n ++ codes "/" ++ to_text (length bytes) ++ codes ")")
    else take_response (os.recv bytes)

unfoldable pub send_command : System → Message → SocketClient → SendResult
unfolding exchange
send_command os command c =
    if not c.is_connected
    then plain not_connected c.socket_path
    else exchange os (serialize command) (os.send (serialize command))

pub data Exit : Type 0 where
  success failure : Exit

-- The exit code, and what was written on the standard output and the standard error.
pub record Outcome : Type 0 where
  pub code : Exit
  pub out : Text
  pub err : Text

abbrev pub newline : Text
newline = 10 ∷ []

unfoldable pub strerror_or : System → Option Errno → Text
strerror_or os none = codes "operation failed"
strerror_or os (some e) = os.strerror e

abbrev in_brackets : Text → Text
in_brackets detail = if is_empty detail then [] else codes " (" ++ detail ++ codes ")"

unfoldable pub render_connect_error : System → ClientError → Text
unfolding strerror_or
render_connect_error os e = elim e.kind [
  | daemon_unavailable ↦
      codes "Error: cec-control daemon is not running (socket: " ++ e.detail ++ codes ")" ++ newline
  | connect_timeout ↦
      codes "Error: timed out connecting to daemon (socket: " ++ e.detail ++ codes ")" ++ newline
  | connect_failed ↦
      codes "Error: failed to connect to daemon: "
      ++ strerror_or os e.errno_code
      ++ in_brackets e.detail
      ++ newline
  | _ ↦ codes "Error: connect failed with unrecognised condition" ++ newline
]

unfoldable pub render_transport_error : System → ClientError → Text
unfolding strerror_or
render_transport_error os e = elim e.kind [
  | not_connected ↦ codes "Error: not connected to daemon" ++ newline
  | send_failed ↦
      codes "Error: failed to send command: "
      ++ strerror_or os e.errno_code
      ++ in_brackets e.detail
      ++ newline
  | peer_closed ↦ codes "Error: daemon closed the connection" ++ newline
  | response_timeout ↦ codes "Error: timed out waiting for daemon response" ++ newline
  | receive_failed ↦
      codes "Error: failed to receive response: " ++ strerror_or os e.errno_code ++ newline
  | oversized_response ↦
      codes "Error: daemon returned oversized response (" ++ e.detail ++ codes ")" ++ newline
  | malformed_response ↦ codes "Error: daemon returned a malformed response" ++ newline
  | _ ↦ codes "Error: unrecognised transport failure" ++ newline
]

unfoldable pub render_response : Message → Outcome
unfolding same_type
render_response m =
    if same_type m.type resp_success
    then record { code = success; out = codes "Command executed successfully" ++ newline; err = [] }
    else record { code = failure; out = []; err = codes "Error: command failed" ++ newline }

-- A failure that wrote this on the standard error.
abbrev pub failing : Text → Outcome
failing text = record { code = failure; out = []; err = text }

unfoldable pub rendered : System → SendResult → Outcome
unfolding render_transport_error render_response
rendered os (failed e) = failing (render_transport_error os e)
rendered os (response m) = render_response m

-- What remains to do with what connecting gave.
unfoldable pub finish : System → Message → Option ClientError × SocketClient → Outcome
unfolding render_connect_error rendered send_command
finish os command (some e, c) = failing (render_connect_error os e)
finish os command (none, c) = rendered os (send_command os command c)

unfoldable pub execute : System → Message → SocketClient → Outcome
unfolding connect finish
execute os command c = finish os command (connect os c)

-- `ClientRunner::run`, where nothing throws.
unfoldable pub run : System → RunClient → Outcome
unfolding execute new_client
run os action = execute os action.command (new_client os action.socket_path_override)
