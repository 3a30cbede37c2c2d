-- ===== src/Geese/Signing.antt =====
-- What src/geese/urlsign.rs and src/geese/feedticket.rs use of other crates: HMAC-SHA256 (hmac,
-- sha2), hex and MessagePack (rmp_serde). A signed text is a payload in hex with its tag in hex.
pub mod Examples
use template_worker.Prelude.{
  ℕ, ◌^◌, String, ◌≡◌, ◌≢◌, ◌↔◌, inl, inr, Bool, true, Option, some, Option-cases, Result, ok, err,
  ◌>>=◌, ◌>>◌, guard, or_else, List, arith,
}

abbrev pub u64_mod : ℕ
u64_mod = 2 ^ 64

-- Decoding inverts encoding, and a tag is accepted exactly when it is the tag of the message.
pub record Crypto : Type 0 where
  pub hex_encode : List ℕ → String
  pub hex_decode : String → Option (List ℕ)
  pub hmac : String → List ℕ → List ℕ
  pub verify_slice : List ℕ → List ℕ → Bool
  pub decode-encode : (b : List ℕ) → hex_decode (hex_encode b) ≡ some b
  pub verify_slice_iff : (tag given : List ℕ) → (verify_slice tag given ≡ true) ↔ (given ≡ tag)

-- A serialized payload is read back as it was; serializing may fail.
pub record Codec (P : Type 0) : Type 0 where
  pub to_vec : P → Result String (List ℕ)
  pub from_slice : List ℕ → Option P
  pub from_slice-to_vec : (p : P) (b : List ℕ) → to_vec p ≡ ok b → from_slice b ≡ some p

-- `CONFIG` of src/config.rs, as far as these files read it.
pub record Config : Type 0 where
  pub blob_token : String
  pub api : String

-- `VerifyError` of both files
pub data VerifyError : Type 0 where
  expired : VerifyError
  invalid_signature : VerifyError

module _ (c : Crypto) where
  -- `hex::encode(mac.finalize())` over `hex::encode(payload)`: the payload and its tag, in hex.
  unfoldable pub sign : String → List ℕ → String × String
  sign token payload = (c.hex_encode payload, c.hex_encode (c.hmac token payload))

  -- The first half of both `verify` functions: the payload's bytes, if the tag is theirs.
  unfoldable pub check_signature : String → String → String → Result VerifyError (List ℕ)
  check_signature token provided_payload provided_signature = do
    payload ← or_else (c.hex_decode provided_payload) invalid_signature
    signature ← or_else (c.hex_decode provided_signature) invalid_signature
    guard (c.verify_slice (c.hmac token payload) signature) invalid_signature
    ok payload

  pub check_signature-sign :
      (token : String) (payload : List ℕ)
      → check_signature token (sign token payload).0 (sign token payload).1 ≡ ok payload
  unfolding check_signature sign
  check_signature-sign token payload = ground (
    arith,
    c.decode-encode payload,
    c.decode-encode (c.hmac token payload),
    c.verify_slice_iff (c.hmac token payload) (c.hmac token payload),
  )

  -- What is accepted carries the tag of its own bytes.
  pub check_signature-eq-ok :
      (token p s : String) (payload : List ℕ)
      → check_signature token p s ≡ ok payload
      → (c.hex_decode p ≡ some payload) × (c.hex_decode s ≡ some (c.hmac token payload))
  unfolding check_signature
  check_signature-eq-ok token p s payload h = elim (Option-cases (c.hex_decode p)) [
    | inl e ↦ absurd (ground arith)
    | inr (b, e) ↦ elim (Option-cases (c.hex_decode s)) [
      | inl e' ↦ absurd (ground arith)
      | inr (t, e') ↦ ground (arith, c.verify_slice_iff (c.hmac token b) t)
    ]
  ]

  -- A refusal is always `invalid_signature`.
  pub check_signature-ne-expired : (token p s : String) → check_signature token p s ≢ err expired
  unfolding check_signature
  check_signature-ne-expired token p s h = ground arith
