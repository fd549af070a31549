-- ===== src/Client/Exchange.antt =====
-- src/client/: what the client tells of each outcome of one exchange, by what the system did.
use cec_control.Prelude.{
  ℕ, ◌≡◌, ◌≢◌, ◌<◌, none, some, List, [], ◌++◌, length, is_empty, true, false, codes, to_text,
  if◌then◌else◌,
}
use cec_control.Message.{Message, same_type, resp_success, serialize, deserialize, max_message_size}
use cec_control.Client.{
  Errno, enoent, econnrefused, etimedout, eagain, ewouldblock, another, System, Outcome, success,
  failing, newline, recv_error, datagram, sent, send_error, SocketClient,
}

-- The errors of connecting and of receiving that have a text of their own.
pub data IsAbsent : Errno → Type 0 where
  no_file : IsAbsent enoent
  no_listener : IsAbsent econnrefused

pub data IsElsewise : Errno → Type 0 where
  again : IsElsewise eagain
  blocked : IsElsewise ewouldblock
  numbered : (n : ℕ) → IsElsewise (another n)

pub data IsLate : Errno → Type 0 where
  late_again : IsLate eagain
  late_blocked : IsLate ewouldblock

pub data IsBroken : Errno → Type 0 where
  broken_file : IsBroken enoent
  broken_peer : IsBroken econnrefused
  broken_time : IsBroken etimedout
  broken_other : (n : ℕ) → IsBroken (another n)

module _ (os : System) (command : Message) (c : SocketClient) where
  -- How far an exchange has come.
  abbrev pub IsConnected : Type 0
  IsConnected = (os.connect_error c.socket_path ≡ none) × (os.timeout_error ≡ none)

  abbrev pub HasSent : Type 0
  HasSent = IsConnected × (os.send (serialize command) ≡ sent (length (serialize command)))

  abbrev pub HasReceived : List ℕ → Type 0
  HasReceived bytes = HasSent × (os.recv (serialize command) ≡ datagram bytes)

  -- Specification: what was written, and the exit code, by the first thing that went wrong.
  pub data Tells : Outcome → Type 0 where
    daemon_absent :
        (e : Errno)
        → os.connect_error c.socket_path ≡ some e
        → IsAbsent e
        → Tells (
            failing (
              codes "Error: cec-control daemon is not running (socket: "
              ++ c.socket_path
              ++ codes ")"
              ++ newline))
    connect_late :
        os.connect_error c.socket_path ≡ some etimedout
        → Tells (
            failing (
              codes "Error: timed out connecting to daemon (socket: "
              ++ c.socket_path
              ++ codes ")"
              ++ newline))
    connect_refused :
        (e : Errno)
        → os.connect_error c.socket_path ≡ some e
        → IsElsewise e
        → Tells (
            failing (
              codes "Error: failed to connect to daemon: "
              ++ os.strerror e
              ++ (if is_empty c.socket_path then [] else codes " (" ++ c.socket_path ++ codes ")")
              ++ newline))
    unlimited :
        (e : Errno)
        → os.connect_error c.socket_path ≡ none
        → os.timeout_error ≡ some e
        → Tells (
            failing (
              codes "Error: failed to connect to daemon: "
              ++ os.strerror e
              ++ codes " (could not set I/O timeout on socket)"
              ++ newline))
    unsent :
        (e : Errno)
        → IsConnected
        → os.send (serialize command) ≡ send_error e
        → Tells (failing (codes "Error: failed to send command: " ++ os.strerror e ++ newline))
    cut_short :
        (n : ℕ)
        → IsConnected
        → os.send (serialize command) ≡ sent n
        → n ≢ length (serialize command)
        → Tells (
            failing (
              codes "Error: failed to send command: operation failed"
              ++ (codes " ("
                  ++ (codes "short send ("
                      ++ to_text n
                      ++ codes "/"
                      ++ to_text (length (serialize command))
                      ++ codes ")")
                  ++ codes ")")
              ++ newline))
    peer_gone :
        HasReceived [] → Tells (failing (codes "Error: daemon closed the connection" ++ newline))
    response_late :
        (e : Errno)
        → HasSent
        → os.recv (serialize command) ≡ recv_error e
        → IsLate e
        → Tells (failing (codes "Error: timed out waiting for daemon response" ++ newline))
    unreceived :
        (e : Errno)
        → HasSent
        → os.recv (serialize command) ≡ recv_error e
        → IsBroken e
        → Tells (failing (codes "Error: failed to receive response: " ++ os.strerror e ++ newline))
    oversized :
        (bytes : List ℕ)
        → HasReceived bytes
        → max_message_size < length bytes
        → Tells (
            failing (
              codes "Error: daemon returned oversized response ("
              ++ (to_text (length bytes) ++ codes " bytes")
              ++ codes ")"
              ++ newline))
    malformed :
        (bytes : List ℕ)
        → HasReceived bytes
        → bytes ≢ []
        → deserialize bytes ≡ none
        → Tells (failing (codes "Error: daemon returned a malformed response" ++ newline))
    refused :
        (bytes : List ℕ) (m : Message)
        → HasReceived bytes
        → deserialize bytes ≡ some m
        → same_type m.type resp_success ≡ false
        → Tells (failing (codes "Error: command failed" ++ newline))
    succeeded :
        (bytes : List ℕ) (m : Message)
        → HasReceived bytes
        → deserialize bytes ≡ some m
        → same_type m.type resp_success ≡ true
        → Tells (record {
          code = success;
          out = codes "Command executed successfully" ++ newline;
          err = [];
        })
