-- ===== src/Agent/Frames.antt =====
-- What WriteMessage has written, ReadMessage reads.
use mathlib.Core.Path.{subst}
use or3_sandbox.Base.{
  ℕ, suc, ◌-◌, ◌/◌, ◌%◌, ◌^◌, ◌≤◌, ◌<◌, false, ◌≡◌, refl, ◌⊎◌, inl, inr, Text, [], ◌∷◌, ◌++◌,
  Option, none, some, length, ltb, ◌==◌, arith, Bool-cases,
}
use or3_sandbox.Agent.Protocol.{
  Message, AgentError, Json, max_message_size, validate_envelope, put_uint32, uint32, read_full,
  write_message, read_message, read_body, payload_of, decoded, sent,
}

uint32-put_uint32 :
    (n : ℕ)
    → n < 2 ^ 32
    → uint32 (n / 2 ^ 24 % 256) (n / 2 ^ 16 % 256) (n / 2 ^ 8 % 256) (n % 256) ≡ n
uint32-put_uint32 n h = omega arith

read_full-append : (s rest : Text) → read_full (length s) (s ++ rest) ≡ some (s, rest)
unfolding read_full
read_full-append [] [] = refl
read_full-append [] (c ∷ rest) = refl
read_full-append (c ∷ s) rest =
    let e : suc (length s) - 1 ≡ length s = omega arith in
    let pos : (suc (length s) == 0) ≡ false = ground arith in
    rw (pos, e, read_full-append s rest) refl

module _ (json : Json) (m : Message) (payload rest : Text) (back : json.unmarshal payload ≡ some m)
    (valid : validate_envelope m ≡ none) where
  -- The body of a message that is neither empty nor too long.
  read_body-payload :
      0 < length payload
      → length payload ≤ max_message_size
      → read_body json (length payload) (payload ++ rest) ≡ inr (m, rest)
  unfolding read_body payload_of decoded
  read_body-payload some_bytes fits =
      let there : (length payload == 0) ≡ false = ground arith in
      let small : ltb max_message_size (length payload) ≡ false = ground arith in
      rw (there, small, read_full-append payload rest, back, valid) refl

  read_message-framed :
      0 < length payload
      → length payload ≤ max_message_size
      → read_message json ((put_uint32 (length payload) ++ payload) ++ rest) ≡ inr (m, rest)
  unfolding read_message
  read_message-framed some_bytes fits =
      rw (uint32-put_uint32 (length payload) (omega arith)) (read_body-payload some_bytes fits)

inr-injective {ℓ} : {A B : Type ℓ} {a b : B} → ◌≡◌ {A = A ⊎ B} (inr a) (inr b) → a ≡ b
inr-injective e = cc

-- Where WriteMessage has accepted a message and written bytes, ReadMessage reads that message from the
-- bytes and leaves what follows them: if encoding/json reads back what it has encoded, and that is not
-- empty.
pub read_message-write_message :
    (json : Json) (m : Message) (payload bytes rest : Text)
    → json.marshal m ≡ some payload
    → json.unmarshal payload ≡ some m
    → 0 < length payload
    → write_message json m ≡ inr bytes
    → read_message json (bytes ++ rest) ≡ inr (m, rest)
unfolding write_message
read_message-write_message json m payload bytes rest marshalled back some_bytes written =
    go (validate_envelope m) refl written
  where
    go :
        (o : Option AgentError)
        → validate_envelope m ≡ o
        → sent json o m ≡ inr bytes
        → read_message json (bytes ++ rest) ≡ inr (m, rest)
    go (some e) valid h = cc
    go none valid h = elim (Bool-cases (ltb max_message_size (length payload))) [
      | inl over ↦ let bad = rw (marshalled, over) at h in cc
      | inr fits ↦
          let same : put_uint32 (length payload) ++ payload ≡ bytes =
            inr-injective (rw (marshalled, fits) at h) in
          subst (λ b. read_message json (b ++ rest) ≡ inr (m, rest)) same
            (read_message-framed json m payload rest back valid some_bytes (ground arith))
    ]
