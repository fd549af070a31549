-- ===== src/Message/Codec.antt =====
-- messages.cpp: encoding and decoding against each other.
use cec_control.Prelude.{
  ℕ, ◌+◌, ◌≤◌, ◌≡◌, refl, subst, sym, ◌↔◌, some, List, [], ◌∷◌, length, All, arith,
}
use cec_control.Message.{
  Message, MessageType, to_raw, of_raw, serialize, deserialize, decode, IsByte, IsWire,
  max_message_size,
}

-- `static_cast` there and back.
pub of_raw-to_raw : (t : MessageType) → of_raw (to_raw t) ≡ some t
unfolding of_raw to_raw
of_raw-to_raw MessageType.cmd_volume_up = refl
of_raw-to_raw _ = refl

to_raw-of_raw : (raw : ℕ) (t : MessageType) → of_raw raw ≡ some t → to_raw t ≡ raw
unfolding of_raw to_raw
to_raw-of_raw raw t h = ground arith

-- A message whose payload leaves room for the two header bytes survives the wire.
pub deserialize-serialize :
    (m : Message) → length m.payload + 2 ≤ max_message_size → deserialize (serialize m) ≡ some m
unfolding deserialize serialize decode
deserialize-serialize m h = ground (arith, of_raw-to_raw m.type)

decode-eq_some : (bytes : List ℕ) (m : Message) → decode bytes ≡ some m → serialize m ≡ bytes
unfolding decode serialize
decode-eq_some [] m h = ground arith
decode-eq_some (raw ∷ []) m h = ground arith
decode-eq_some (raw ∷ id ∷ rest) m h = ground (arith, to_raw-of_raw raw m.type)

deserialize-encoded :
    (m : Message) → length (serialize m) ≤ max_message_size → deserialize (serialize m) ≡ some m
unfolding serialize
deserialize-encoded m h = deserialize-serialize m (omega arith)

-- Bytes decode to a message exactly when they are the encoding of that message and their number is
-- within the limit, so no two frames decode to one message.
pub deserialize-eq_some_iff :
    (bytes : List ℕ) (m : Message)
    → (deserialize bytes ≡ some m) ↔ ((serialize m ≡ bytes) × (length bytes ≤ max_message_size))
deserialize-eq_some_iff bytes m = (
  unfold deserialize in λ h. (decode-eq_some bytes m (ground arith), ground arith),
  λ (e, h).
      subst (λ b. deserialize b ≡ some m) e
        (deserialize-encoded m (subst (λ b. length b ≤ max_message_size) (sym e) h)),
)

to_raw-IsByte : (t : MessageType) → IsByte (to_raw t)
unfolding to_raw
to_raw-IsByte MessageType.cmd_volume_up = omega arith
to_raw-IsByte _ = omega arith

-- What goes on the wire is bytes, two more than the payload has.
pub serialize-IsByte :
    (m : Message)
    → IsWire m
    → All IsByte (serialize m) × (length (serialize m) ≡ length m.payload + 2)
unfolding serialize
serialize-IsByte m w = ((to_raw-IsByte m.type, (w.device, w.bytes)), omega arith)
