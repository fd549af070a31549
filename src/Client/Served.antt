-- ===== src/Client/Served.antt =====
-- src/client/: the exchange with a daemon that decodes the command and sends the encoding of its
-- response, and closes the connection on what it cannot decode.
use cec_control.Prelude.{◌≡◌, ◌↔◌, refl, sym, ◌∙◌, ap, none, some, [], length, ◌≤◌, List, ℕ, Text}
use cec_control.Message.{Message, resp_success, serialize, deserialize, max_message_size}
use cec_control.Message.Codec.{deserialize-eq_some_iff}
use cec_control.Client.{System, SocketClient, Received, datagram, sent, success, execute}
use cec_control.Client.Success.{execute-success}

abbrev pub served : (Message → Message) → List ℕ → Received
served respond bytes = elim (deserialize bytes) [
  | none ↦ datagram []
  | some m ↦ datagram (serialize (respond m))
]

-- The daemon can be reached and answers so.
pub record IsServed (os : System) (respond : Message → Message) : Type 0 where
  pub connects : (path : Text) → os.connect_error path ≡ none
  pub limits : os.timeout_error ≡ none
  pub sends : (bytes : List ℕ) → os.send bytes ≡ sent (length bytes)
  pub receives : (bytes : List ℕ) → os.recv bytes ≡ served respond bytes

-- An encoding within the limit is that of one message.
serialize-injective :
    (m n : Message)
    → length (serialize m) ≤ max_message_size
    → length (serialize n) ≤ max_message_size
    → serialize m ≡ serialize n
    → m ≡ n
serialize-injective m n h k e =
    let p = (deserialize-eq_some_iff (serialize m) m).1 (refl, h) in
    let q = (deserialize-eq_some_iff (serialize m) n).1 (sym e, h) in cc

datagram-injective : {xs ys : List ℕ} → datagram xs ≡ datagram ys → xs ≡ ys
datagram-injective e = cc

served-serialize :
    (respond : Message → Message) (m : Message)
    → length (serialize m) ≤ max_message_size
    → served respond (serialize m) ≡ datagram (serialize (respond m))
served-serialize respond m h =
    rw (served, (deserialize-eq_some_iff (serialize m) m).1 (refl, h)) refl

-- Against a daemon that can be reached, that decodes what it receives and sends the encoding of its
-- response, the client exits with success exactly when the response to the command is a success, as
-- long as the command and the response are within the size limit.
pub execute-served :
    (os : System) (respond : Message → Message) (command : Message) (c : SocketClient)
    → IsServed os respond
    → length (serialize command) ≤ max_message_size
    → length (serialize (respond command)) ≤ max_message_size
    → ((execute os command c).code ≡ success) ↔ ((respond command).type ≡ resp_success)
execute-served os respond command c s h k =
    let r = s.receives (serialize command) ∙ served-serialize respond command h in
    (
      λ e.
          let a = (execute-success os command c).0 e in
          ap (λ m. m.type)
            (serialize-injective (respond command) a.reply k a.fits
              (datagram-injective (sym r ∙ a.receives)))
          ∙ a.acknowledges,
      λ t. (execute-success os command c).1 (record {
        connects = s.connects c.socket_path;
        limits = s.limits;
        sends = s.sends (serialize command);
        reply = respond command;
        receives = r;
        fits = k;
        acknowledges = t;
      }),
    )
