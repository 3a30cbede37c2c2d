-- ===== src/Geese/Feedticket/Laws.antt =====
-- What a feed ticket is accepted for, and for how long.
use template_worker.Prelude.{
  ℕ, ◌+◌, ◌%◌, ◌<◌, ◌≤◌, ◌≡◌, inl, inr, String, some, ok, err, ltb, List, arith, if◌then◌else◌,
  Option-cases, Result-cases,
}
use template_worker.Worker.Tenant.{
  TenantId, IsValid, Snowflakes, tenant_type, tenant_id, from_parts, from_parts-tenant_id,
}
use template_worker.Geese.Signing.{
  Crypto, Codec, Config, expired, u64_mod, check_signature, check_signature-sign,
  check_signature-eq-ok,
}
use template_worker.Geese.Feedticket.{
  Payload, FeedTicket, create_feedticket, verify_feedticket, ft_expiration_seconds,
}

module _ (sf : Snowflakes) (c : Crypto) (codec : Codec Payload) (cfg : Config) where
  abbrev payload_of : TenantId → ℕ → List String → ℕ → Payload
  payload_of tid user_id topics expires_at = record {
    tenant_type = tenant_type tid;
    tenant_id = tenant_id sf tid;
    user_id = user_id;
    expires_at = expires_at;
    subscribed_topics = topics;
  }

  -- A ticket that was created for a valid tenant, with an expiry that fits a u64, is accepted for 90 seconds, last second included, for its tenant, user and topics, and is expired from then on.
  pub verify_feedticket-create_feedticket :
      (now later : ℕ) (tid : TenantId) (user_id : ℕ) (topics : List String)
      (ticket : String × String)
      → IsValid tid
      → now + ft_expiration_seconds < u64_mod
      → create_feedticket sf c codec cfg now tid user_id topics ≡ ok ticket
      → verify_feedticket sf c codec cfg later ticket.0 ticket.1 ≡ (
          if ltb (now + ft_expiration_seconds) later
          then err expired
          else ok (record { id = tid; user_id = user_id; subscribed_topics = topics }))
  unfolding create_feedticket verify_feedticket
  verify_feedticket-create_feedticket now later tid user_id topics ticket v fits h =
      let e : ℕ = (now + ft_expiration_seconds) % u64_mod in
      let unwrapped : e ≡ now + ft_expiration_seconds = omega arith in
      elim (Result-cases (codec.to_vec (payload_of tid user_id topics e))) [
        | inl (b, q) ↦ ground (
          arith,
          unwrapped,
          q,
          check_signature-sign c cfg.blob_token b,
          codec.from_slice-to_vec (payload_of tid user_id topics e) b,
          from_parts-tenant_id sf tid v,
        )
        | inr (m, q) ↦ absurd (ground (arith, q))
      ]

  -- An accepted ticket carries the HMAC of its payload, is not expired, and names the payload's tenant, user and topics.
  pub verify_feedticket-eq-ok :
      (now : ℕ) (p s : String) (t : FeedTicket)
      → verify_feedticket sf c codec cfg now p s ≡ ok t
      → (bytes : List ℕ) × (payload : Payload) × (c.hex_decode p ≡ some bytes)
        × (c.hex_decode s ≡ some (c.hmac cfg.blob_token bytes))
        × (codec.from_slice bytes ≡ some payload)
        × (from_parts sf payload.tenant_type payload.tenant_id ≡ some t.id)
        × (t.user_id ≡ payload.user_id)
        × (t.subscribed_topics ≡ payload.subscribed_topics)
        × (now ≤ payload.expires_at)
  unfolding verify_feedticket
  verify_feedticket-eq-ok now p s t h = elim (Result-cases (check_signature c cfg.blob_token p s)) [
    | inr (e, q) ↦ absurd (ground (arith, q))
    | inl (b, q) ↦ elim (Option-cases (codec.from_slice b)) [
      | inl q' ↦ absurd (ground (arith, q, q'))
      | inr (payload, q') ↦ (
        b,
        payload,
        (check_signature-eq-ok c cfg.blob_token p s b q).0,
        (check_signature-eq-ok c cfg.blob_token p s b q).1,
        q',
        ground (arith, q, q'),
        ground (arith, q, q'),
        ground (arith, q, q'),
        ground (arith, q, q'),
      )
    ]
  ]
