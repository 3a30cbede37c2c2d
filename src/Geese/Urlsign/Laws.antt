-- ===== src/Geese/Urlsign/Laws.antt =====
-- What a presigned URL is accepted for, and when.
use template_worker.Prelude.{
  ℕ, ◌+◌, ◌%◌, ◌<◌, ◌≤◌, ◌≡◌, inl, inr, String, some, ok, err, ltb, List, arith, if◌then◌else◌,
  Option-cases, Result-cases,
}
use template_worker.Worker.Tenant.{
  TenantId, IsValid, Snowflakes, tenant_type, tenant_id, from_parts, from_parts-tenant_id,
}
use template_worker.Geese.Signing.{
  Crypto, Codec, Config, expired, u64_mod, check_signature, check_signature-sign,
  check_signature-eq-ok, check_signature-ne-expired,
}
use template_worker.Geese.Urlsign.{Payload, VerifiedUrl, signed_payload, verify_url}

module _ (sf : Snowflakes) (c : Crypto) (codec : Codec Payload) (cfg : Config) where
  abbrev pub payload_of : TenantId → String → String → ℕ → Payload
  payload_of tid key scope expires_at = record {
    tenant_type = tenant_type tid;
    tenant_id = tenant_id sf tid;
    key = key;
    scope = scope;
    expires_at = expires_at;
  }

  -- A URL made for a valid tenant's blob, with an expiry that fits a u64, is accepted, for that blob, up to and including its last second, and expired from then on.
  pub verify_url-signed_payload :
      (now later : ℕ) (tid : TenantId) (key scope : String) (ttl : ℕ) (parts : String × String)
      → IsValid tid
      → now + ttl < u64_mod
      → signed_payload sf c codec cfg now tid key scope ttl ≡ ok parts
      → verify_url sf c codec cfg later parts.0 parts.1 ≡ (
          if ltb (now + ttl) later
          then err expired
          else ok (record { id = tid; key = key; scope = scope; expires_at = now + ttl }))
  unfolding signed_payload verify_url
  verify_url-signed_payload now later tid key scope ttl parts v fits h =
      let e : ℕ = (now + ttl) % u64_mod in
      let unwrapped : (now + ttl) % u64_mod ≡ now + ttl = omega arith in
      elim (Result-cases (codec.to_vec (payload_of tid key scope e))) [
        | inl (b, q) ↦ ground (
          arith,
          unwrapped,
          q,
          check_signature-sign c cfg.blob_token b,
          codec.from_slice-to_vec (payload_of tid key scope e) b,
          from_parts-tenant_id sf tid v,
        )
        | inr (m, q) ↦ absurd (ground (arith, q))
      ]

  -- An accepted URL carries the HMAC of its payload, is not expired, and names the tenant, key and scope of the payload.
  pub verify_url-eq-ok :
      (now : ℕ) (p s : String) (u : VerifiedUrl)
      → verify_url sf c codec cfg now p s ≡ ok u
      → (bytes : List ℕ) × (payload : Payload) × (c.hex_decode p ≡ some bytes)
        × (c.hex_decode s ≡ some (c.hmac cfg.blob_token bytes))
        × (codec.from_slice bytes ≡ some payload)
        × (from_parts sf payload.tenant_type payload.tenant_id ≡ some u.id)
        × (u.key ≡ payload.key)
        × (u.scope ≡ payload.scope)
        × (now ≤ payload.expires_at)
  unfolding verify_url
  verify_url-eq-ok now p s u h = elim (Result-cases (check_signature c cfg.blob_token p s)) [
    | inr (e, q) ↦ absurd (ground (arith, q))
    | inl (b, q) ↦ elim (Option-cases (codec.from_slice b)) [
      | inl q' ↦ absurd (ground (arith, q, q'))
      | inr (payload, q') ↦ (
        b,
        payload,
        (check_signature-eq-ok c cfg.blob_token p s b q).0,
        (check_signature-eq-ok c cfg.blob_token p s b q).1,
        q',
        ground (arith, q, q'),
        ground (arith, q, q'),
        ground (arith, q, q'),
        ground (arith, q, q'),
      )
    ]
  ]

  -- Only a payload with the right tag is ever reported as expired.
  pub verify_url-eq-expired :
      (now : ℕ) (p s : String)
      → verify_url sf c codec cfg now p s ≡ err expired
      → (bytes : List ℕ) × (payload : Payload) × (c.hex_decode p ≡ some bytes)
        × (c.hex_decode s ≡ some (c.hmac cfg.blob_token bytes))
        × (codec.from_slice bytes ≡ some payload)
        × (payload.expires_at < now)
  unfolding verify_url
  verify_url-eq-expired now p s h = elim (Result-cases (check_signature c cfg.blob_token p s)) [
    | inr (e, q) ↦ absurd (ground (arith, q, check_signature-ne-expired c cfg.blob_token p s))
    | inl (b, q) ↦ elim (Option-cases (codec.from_slice b)) [
      | inl q' ↦ absurd (ground (arith, q, q'))
      | inr (payload, q') ↦ (
        b,
        payload,
        (check_signature-eq-ok c cfg.blob_token p s b q).0,
        (check_signature-eq-ok c cfg.blob_token p s b q).1,
        q',
        ground (arith, q, q'),
      )
    ]
  ]
