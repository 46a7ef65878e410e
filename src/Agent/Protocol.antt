-- ===== src/Agent/Protocol.antt =====
-- internal/runtime/qemu/agentproto/protocol.go: the envelope's validation, and the framing of messages
-- on a stream of bytes. encoding/json is a parameter. What a failed read has consumed is not modelled.
use or3_sandbox.Base.{
  ℕ, ◌+◌, ◌-◌, ◌*◌, ◌/◌, ◌%◌, ◌^◌, Bool, false, not, ◌&&◌, ◌||◌, ◌⊎◌, inl, inr, Text, List, [], ◌∷◌,
  ◌++◌, Option, none, some, codes, eq_text, is_empty, trim_space, length, ltb, ◌==◌, if◌then◌else◌,
}

pub record Message : Type 0 where
  pub id : Text
  pub op : Text
  pub ok : Bool
  pub error : Text
  pub result : Text

pub data AgentError : Type 0 where
  op_required id_too_long request_id_required request_ok response_id_required : AgentError
  id_mismatch op_mismatch empty_message message_too_large short_read invalid_json : AgentError
  unencodable : AgentError

-- json.Marshal and json.Unmarshal at the type Message
pub record Json : Type 0 where
  pub marshal : Message → Option Text
  pub unmarshal : Text → Option Message

abbrev pub max_message_size : ℕ
max_message_size = 16 * 1024 * 1024

abbrev pub max_request_id_length : ℕ
max_request_id_length = 128

-- func ValidateEnvelope
unfoldable pub validate_envelope : Message → Option AgentError
unfolding trim_space
validate_envelope m =
    if is_empty (trim_space m.op)
    then some op_required
    else if ltb max_request_id_length (length (trim_space m.id))
    then some id_too_long
    else none

abbrev is_in : Text → List Text → Bool
is_in op [] = false
is_in op (o ∷ os) = eq_text op o || is_in op os

-- func RequiresRequestID
unfoldable pub requires_request_id : Text → Bool
unfolding eq_text
requires_request_id op = not (
    is_in op (
      codes "exec_event"
      ∷ codes "file_data"
      ∷ codes "pty_data"
      ∷ codes "pty_resize"
      ∷ codes "pty_close"
      ∷ codes "tcp_bridge_data"
      ∷ codes "archive_stream"
      ∷ []))

abbrev or_check : Option AgentError → Option AgentError → Option AgentError
or_check (some e) next = some e
or_check none next = next

-- func ValidateRequest
unfoldable pub validate_request : Message → Option AgentError
unfolding validate_envelope requires_request_id trim_space
validate_request m = or_check (validate_envelope m) (
    if requires_request_id m.op && is_empty (trim_space m.id)
    then some request_id_required
    else if m.ok
    then some request_ok
    else none)

-- func ValidateResponse
unfoldable pub validate_response : Message → Text → Text → Option AgentError
unfolding validate_envelope trim_space eq_text
validate_response m expected_op expected_id = or_check (validate_envelope m) (
    if is_empty (trim_space m.id)
    then some response_id_required
    else if not (is_empty expected_id) && not (eq_text m.id expected_id)
    then some id_mismatch
    else if not (is_empty expected_op) && not (eq_text m.op expected_op)
    then some op_mismatch
    else none)

-- binary.BigEndian.PutUint32 of a length
abbrev pub put_uint32 : ℕ → Text
put_uint32 n = n / 2 ^ 24 % 256 ∷ n / 2 ^ 16 % 256 ∷ n / 2 ^ 8 % 256 ∷ n % 256 ∷ []

-- binary.BigEndian.Uint32
abbrev pub uint32 : ℕ → ℕ → ℕ → ℕ → ℕ
uint32 a b c d = a * 2 ^ 24 + b * 2 ^ 16 + c * 2 ^ 8 + d

abbrev prepend : ℕ → Option (Text × Text) → Option (Text × Text)
prepend c none = none
prepend c (some r) = some (c ∷ r.0, r.1)

-- io.ReadFull: `n` bytes and what is left of the stream, or not enough
unfoldable pub read_full : ℕ → Text → Option (Text × Text)
read_full n [] = if n == 0 then some ([], []) else none
read_full n (c ∷ s) =
    let rest = read_full (n - 1) s in if n == 0 then some ([], c ∷ s) else prepend c rest

module _ (json : Json) where
  abbrev framed : Option Text → AgentError ⊎ Text
  framed none = inl unencodable
  framed (some payload) =
      if ltb max_message_size (length payload)
      then inl message_too_large
      else inr (put_uint32 (length payload) ++ payload)

  abbrev pub sent : Option AgentError → Message → AgentError ⊎ Text
  sent (some e) m = inl e
  sent none m = framed (json.marshal m)

  -- func WriteMessage: the bytes that it writes, where the writer does not fail
  unfoldable pub write_message : Message → AgentError ⊎ Text
  unfolding validate_envelope
  write_message m = sent (validate_envelope m) m

  abbrev checked : Option AgentError → Message → Text → AgentError ⊎ (Message × Text)
  checked (some e) m rest = inl e
  checked none m rest = inr (m, rest)

  unfoldable pub decoded : Option Message → Text → AgentError ⊎ (Message × Text)
  unfolding validate_envelope
  decoded none rest = inl invalid_json
  decoded (some m) rest = checked (validate_envelope m) m rest

  unfoldable pub payload_of : Option (Text × Text) → AgentError ⊎ (Message × Text)
  unfolding decoded
  payload_of none = inl short_read
  payload_of (some r) = decoded (json.unmarshal r.0) r.1

  unfoldable pub read_body : ℕ → Text → AgentError ⊎ (Message × Text)
  unfolding payload_of read_full
  read_body size s =
      if size == 0
      then inl empty_message
      else if ltb max_message_size size
      then inl message_too_large
      else payload_of (read_full size s)

  -- func ReadMessage: the message and what is left of the stream
  unfoldable pub read_message : Text → AgentError ⊎ (Message × Text)
  unfolding read_body
  read_message (a ∷ b ∷ c ∷ d ∷ s) = read_body (uint32 a b c d) s
  read_message _ = inl short_read
