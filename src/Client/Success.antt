-- ===== src/Client/Success.antt =====
-- src/client/: when the client exits with success.
use cec_control.Prelude.{
  ◌≡◌, ◌↔◌, refl, ap, subst, sym, ◌∙◌, true, none, some, length, is_empty, ltb, not, ◌==◌,
  Bool-cases, if_ind, Option_ind, inl, inr, Text, arith, ◌≤◌, List, ℕ,
}
use cec_control.Message.{
  Message, MessageType, same_type, to_raw, resp_success, serialize, deserialize, max_message_size,
}
use cec_control.Message.Codec.{deserialize-eq_some_iff}
use cec_control.Client.{
  System, SocketClient, success, failed, response, sent, send_error, recv_error, datagram, Sent,
  Received, render_response, rendered, take_response, exchange, finish, connect, set_io_timeout,
  send_command, execute, ClientError,
}

-- The daemon acknowledged the command: every call succeeded, the whole datagram was sent, and what
-- came back is the encoding of a success within the size limit.
pub record Acknowledged (os : System) (path : Text) (command : Message) : Type 0 where
  pub connects : os.connect_error path ≡ none
  pub limits : os.timeout_error ≡ none
  pub sends : os.send (serialize command) ≡ sent (length (serialize command))
  pub reply : Message
  pub receives : os.recv (serialize command) ≡ datagram (serialize reply)
  pub fits : length (serialize reply) ≤ max_message_size
  pub acknowledges : reply.type ≡ resp_success

same_type-resp_success : (t : MessageType) → same_type t resp_success ≡ true → t ≡ resp_success
unfolding same_type to_raw
same_type-resp_success resp_success h = refl
same_type-resp_success _ h = ground arith

render_response-success : (m : Message) → (render_response m).code ≡ success → m.type ≡ resp_success
unfolding render_response
render_response-success m h = elim (Bool-cases (same_type m.type resp_success)) [
  | inl e ↦ same_type-resp_success m.type e
  | inr e ↦ ground (arith, e, h)
]

-- What was received is a success.
abbrev IsSuccess : Received → Type 0
IsSuccess r =
    (m : Message) × (r ≡ datagram (serialize m))
    × (length (serialize m) ≤ max_message_size)
    × (m.type ≡ resp_success)

-- An error is no success.
failed-success :
    (os : System) (e : ClientError) {A : Type 0} → (rendered os (failed e)).code ≡ success → A
unfolding rendered
failed-success os e h = ground arith

decoded-success :
    (os : System) (bytes : List ℕ) (m : Message)
    → deserialize bytes ≡ some m
    → (rendered os (response m)).code ≡ success
    → IsSuccess (datagram bytes)
unfolding rendered
decoded-success os bytes m e h =
    let (p, k) = (deserialize-eq_some_iff bytes m).0 e in
    (
      m,
      ap datagram (sym p),
      subst (λ b. length b ≤ max_message_size) (sym p) k,
      render_response-success m h,
    )

take_response-success :
    (os : System) (r : Received) → (rendered os (take_response r)).code ≡ success → IsSuccess r
unfolding take_response
take_response-success os (recv_error e) h = failed-success os _ h
take_response-success os (datagram bytes) h =
    if_ind (λ r. (rendered os r).code ≡ success → IsSuccess (datagram bytes)) (is_empty bytes)
      (λ e h. failed-success os _ h)
      (λ e.
        if_ind (λ r. (rendered os r).code ≡ success → IsSuccess (datagram bytes))
          (ltb max_message_size (length bytes)) (λ k h. failed-success os _ h)
          (λ k.
            Option_ind (λ r. (rendered os r).code ≡ success → IsSuccess (datagram bytes))
              (deserialize bytes) (λ d h. failed-success os _ h)
              (λ m d. decoded-success os bytes m d)))
      h

exchange-success :
    (os : System) (bytes : List ℕ) (s : Sent)
    → (rendered os (exchange os bytes s)).code ≡ success
    → (s ≡ sent (length bytes)) × IsSuccess (os.recv bytes)
unfolding exchange
exchange-success os bytes (send_error e) h = failed-success os _ h
exchange-success os bytes (sent n) h =
    if_ind
      (λ r.
        (rendered os r).code ≡ success → (sent n ≡ sent (length bytes)) × IsSuccess (os.recv bytes))
      (not (n == length bytes)) (λ e h. failed-success os _ h)
      (λ e h. (ap sent (ground (arith, e)), take_response-success os (os.recv bytes) h)) h

execute-Acknowledged :
    (os : System) (command : Message) (c : SocketClient)
    → (execute os command c).code ≡ success
    → Acknowledged os c.socket_path command
unfolding execute connect set_io_timeout finish send_command
execute-Acknowledged os command c =
    Option_ind (λ r. (finish os command r).code ≡ success → Acknowledged os c.socket_path command)
      (os.connect_error c.socket_path)
      (λ e.
        Option_ind
          (λ r. (finish os command r).code ≡ success → Acknowledged os c.socket_path command)
          os.timeout_error
          (λ k h.
            let (p, (m, q, l, t)) =
              exchange-success os (serialize command) (os.send (serialize command)) h in
            record {
              connects = e;
              limits = k;
              sends = p;
              reply = m;
              receives = q;
              fits = l;
              acknowledges = t;
            })
          (λ a k h. ground (arith, h)))
      (λ a e h. ground (arith, h))

response_accepted :
    (os : System) (m : Message)
    → length (serialize m) ≤ max_message_size
    → take_response (datagram (serialize m)) ≡ response m
unfolding take_response serialize
response_accepted os m h = ground (arith, (deserialize-eq_some_iff (serialize m) m).1 (refl, h), h)

rendered-acknowledged :
    (os : System) (m : Message) → m.type ≡ resp_success → (rendered os (response m)).code ≡ success
unfolding rendered render_response same_type to_raw
rendered-acknowledged os m h = rw h refl

exchange-sent :
    (os : System) (bytes : List ℕ)
    → exchange os bytes (sent (length bytes)) ≡ take_response (os.recv bytes)
unfolding exchange
exchange-sent os bytes = ground arith

connect-opens :
    (os : System) (c : SocketClient)
    → os.connect_error c.socket_path ≡ none
    → os.timeout_error ≡ none
    → connect os c ≡ (none, record c { is_connected = true })
unfolding connect set_io_timeout
connect-opens os c h k = rw (h, connect, k, set_io_timeout) refl

send_command-response :
    (os : System) (command : Message) (c : SocketClient) (a : Acknowledged os c.socket_path command)
    → send_command os command (record c { is_connected = true }) ≡ response a.reply
unfolding send_command
send_command-response os command c a =
    ap (exchange os (serialize command)) a.sends
    ∙ exchange-sent os (serialize command)
    ∙ ap take_response a.receives
    ∙ response_accepted os a.reply a.fits

Acknowledged-success :
    (os : System) (command : Message) (c : SocketClient)
    → Acknowledged os c.socket_path command
    → (execute os command c).code ≡ success
unfolding execute finish
Acknowledged-success os command c a =
    ap (λ r. (finish os command r).code) (connect-opens os c a.connects a.limits)
    ∙ ap (λ r. (rendered os r).code) (send_command-response os command c a)
    ∙ rendered-acknowledged os a.reply a.acknowledges

-- The client exits with success exactly when the daemon acknowledged the command: the socket was
-- connected and got its time-outs, the whole encoding of the command was sent, and the datagram that
-- came back is the encoding, within the size limit, of a success response.
pub execute-success :
    (os : System) (command : Message) (c : SocketClient)
    → ((execute os command c).code ≡ success) ↔ Acknowledged os c.socket_path command
execute-success os command c =
    (execute-Acknowledged os command c, Acknowledged-success os command c)
