-- ===== src/Geese/Urlsign/Examples.antt =====
-- Presigned URLs with a concrete cipher, and a codec that knows one payload.
use template_worker.Prelude.{
  ℕ, ◌≡◌, ◌≤◌, ◌<◌, refl, String, Bool, ◌&&◌, Option, none, some, Result, ok, err, List, [], ◌∷◌,
  arith, nat_beq, str_beq, eq_iff, if◌then◌else◌,
}
use template_worker.Worker.Tenant.{guild, from_parts, tenant_type, tenant_id}
use template_worker.Worker.Tenant.Examples.{unary}
use template_worker.Geese.Signing.{Codec, expired, sign, check_signature}
use template_worker.Geese.Signing.Examples.{plain, sample_config, encode, decode, tag, same_bytes}
use template_worker.Geese.Urlsign.{Payload, VerifiedUrl, signed_payload, verify_url}
use template_worker.Geese.Urlsign.Laws.{verify_url-signed_payload, verify_url-eq-ok}

abbrev pub sample : Payload
sample = record {
  tenant_type = "guild";
  tenant_id = "111";
  key = "k";
  scope = "s";
  expires_at = 400;
}

abbrev is_sample : Payload → Bool
is_sample p =
    str_beq p.tenant_type "guild"
    && str_beq p.tenant_id "111"
    && str_beq p.key "k"
    && str_beq p.scope "s"
    && nat_beq p.expires_at 400

abbrev encode_sample : Payload → Result String (List ℕ)
encode_sample p = if is_sample p then ok (7 ∷ []) else err "unsupported"

abbrev decode_sample : List ℕ → Option Payload
decode_sample [] = none
decode_sample (n ∷ []) = if nat_beq n 7 then some sample else none
decode_sample _ = none

pub decode_sample-encode_sample :
    (p : Payload) (b : List ℕ) → encode_sample p ≡ ok b → decode_sample b ≡ some p
decode_sample-encode_sample p b h = ground (
  arith,
  eq_iff p.tenant_type "guild",
  eq_iff p.tenant_id "111",
  eq_iff p.key "k",
  eq_iff p.scope "s",
)

abbrev pub sample_codec : Codec Payload
sample_codec = record {
  to_vec = encode_sample;
  from_slice = decode_sample;
  from_slice-to_vec = decode_sample-encode_sample;
}

abbrev pub parts : String × String
parts = (encode (7 ∷ []), encode (tag "key" (7 ∷ [])))

abbrev opened : VerifiedUrl
opened = record { id = guild 3; key = "k"; scope = "s"; expires_at = 400 }

pub signed :
    signed_payload unary plain sample_codec sample_config 100 (guild 3) "k" "s" 300 ≡ ok parts
unfolding signed_payload tenant_type tenant_id sign
signed = refl

accepted : verify_url unary plain sample_codec sample_config 400 parts.0 parts.1 ≡ ok opened
unfolding verify_url check_signature decode encode tag same_bytes from_parts
accepted = refl

too_late : verify_url unary plain sample_codec sample_config 401 parts.0 parts.1 ≡ err expired
unfolding verify_url check_signature decode encode tag same_bytes from_parts
too_late = refl

verify_url-signed_payload_example :
    verify_url unary plain sample_codec sample_config 400 parts.0 parts.1 ≡ ok opened
verify_url-signed_payload_example =
    verify_url-signed_payload unary plain sample_codec sample_config 100 400 (guild 3) "k" "s" 300
      parts (omega arith) (omega arith) signed

abbrev Sound : ℕ → Type 0
Sound now =
    (bytes : List ℕ) × (payload : Payload) × (decode parts.0 ≡ some bytes)
    × (decode parts.1 ≡ some (tag "key" bytes))
    × (decode_sample bytes ≡ some payload)
    × (from_parts unary payload.tenant_type payload.tenant_id ≡ some opened.id)
    × (opened.key ≡ payload.key)
    × (opened.scope ≡ payload.scope)
    × (now ≤ payload.expires_at)

verify_url-eq-ok_example : Sound 400
verify_url-eq-ok_example =
    verify_url-eq-ok unary plain sample_codec sample_config 400 parts.0 parts.1 opened accepted

abbrev Expired : ℕ → Type 0
Expired now =
    (bytes : List ℕ) × (payload : Payload) × (decode parts.0 ≡ some bytes)
    × (decode parts.1 ≡ some (tag "key" bytes))
    × (decode_sample bytes ≡ some payload)
    × (payload.expires_at < now)
