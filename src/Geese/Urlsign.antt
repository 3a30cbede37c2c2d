-- ===== src/Geese/Urlsign.antt =====
-- src/geese/urlsign.rs: presigned URLs for the blobs of a tenant.
pub mod Laws
pub mod Examples
use Prim.Native.String.{◌++◌}
use template_worker.Prelude.{
  ℕ, ◌+◌, ◌%◌, String, none, some, Result, ok, err, ◌>>=◌, ◌>>◌, guard, or_else, map_err, ltb, not,
  List,
}
use template_worker.Worker.Tenant.{TenantId, Snowflakes, tenant_type, tenant_id, from_parts}
use template_worker.Geese.Signing.{
  Crypto, Codec, Config, VerifyError, expired, invalid_signature, u64_mod, sign, check_signature,
}

pub record Payload : Type 0 where
  pub tenant_type : String
  pub tenant_id : String
  pub key : String
  pub scope : String
  pub expires_at : ℕ

pub record VerifiedUrl : Type 0 where
  pub id : TenantId
  pub key : String
  pub scope : String
  pub expires_at : ℕ

-- `VerifyError::message`
unfoldable pub message : VerifyError → String
message expired = "URL has expired"
message invalid_signature = "Invalid URL signature"

module _ (sf : Snowflakes) (c : Crypto) (codec : Codec Payload) (cfg : Config) where
  unfoldable pub construct_payload : String → String → String → String → ℕ → Result String (List ℕ)
  construct_payload ttype tid key scope expires_at =
      map_err (λ e. "Failed to serialize payload: " ++ e)
        (codec.to_vec (record {
          tenant_type = ttype;
          tenant_id = tid;
          key = key;
          scope = scope;
          expires_at = expires_at;
        }))

  -- The payload and the tag that `create_url` puts into the URL. `now + expires_in_seconds` is a sum of `u64`s.
  unfoldable pub signed_payload :
      ℕ → TenantId → String → String → ℕ → Result String (String × String)
  unfolding construct_payload
  signed_payload now tid key scope expires_in_seconds = do
    let expires_at = (now + expires_in_seconds) % u64_mod
    payload ← construct_payload (tenant_type tid) (tenant_id sf tid) key scope expires_at
    ok (sign c cfg.blob_token payload)

  abbrev pub blob_url : String × String → String
  blob_url (payload, signature) = cfg.api ++ "/blob?p=" ++ payload ++ "&s=" ++ signature

  unfoldable pub create_url : ℕ → TenantId → String → String → ℕ → Result String String
  unfolding signed_payload
  create_url now tid key scope expires_in_seconds = do
    parts ← signed_payload now tid key scope expires_in_seconds
    ok (blob_url parts)

  unfoldable pub verify_url : ℕ → String → String → Result VerifyError VerifiedUrl
  verify_url now provided_payload provided_signature = do
    bytes ← check_signature c cfg.blob_token provided_payload provided_signature
    payload ← or_else (codec.from_slice bytes) invalid_signature
    guard (not (ltb payload.expires_at now)) expired
    id ← or_else (from_parts sf payload.tenant_type payload.tenant_id) invalid_signature
    ok (record {
      id = id;
      key = payload.key;
      scope = payload.scope;
      expires_at = payload.expires_at;
    })
