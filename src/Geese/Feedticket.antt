-- ===== src/Geese/Feedticket.antt =====
-- src/geese/feedticket.rs: tickets that let a user's websocket subscribe to topics of a tenant.
-- A user id is the number that `UserId` holds (crate dapi).
mod Laws
pub mod Examples
use Prim.Native.String.{◌++◌}
use template_worker.Prelude.{
  ℕ, ◌+◌, ◌%◌, String, Result, ok, ◌>>=◌, ◌>>◌, guard, or_else, map_err, ltb, not, List,
}
use template_worker.Worker.Tenant.{TenantId, Snowflakes, tenant_type, tenant_id, from_parts}
use template_worker.Geese.Signing.{
  Crypto, Codec, Config, VerifyError, expired, invalid_signature, u64_mod, sign, check_signature,
}

-- 90 seconds
abbrev pub ft_expiration_seconds : ℕ
ft_expiration_seconds = 90

pub record Payload : Type 0 where
  pub tenant_type : String
  pub tenant_id : String
  pub user_id : ℕ
  pub expires_at : ℕ
  pub subscribed_topics : List String

pub record FeedTicket : Type 0 where
  pub id : TenantId
  pub user_id : ℕ
  pub subscribed_topics : List String

-- `VerifyError::message`
unfoldable pub message : VerifyError → String
message expired = "Ticket has expired"
message invalid_signature = "Invalid ticket signature"

module _ (sf : Snowflakes) (c : Crypto) (codec : Codec Payload) (cfg : Config) where
  unfoldable pub construct_payload : String → String → ℕ → ℕ → List String → Result String (List ℕ)
  construct_payload ttype tid user_id expires_at topics =
      map_err (λ e. "Failed to serialize payload: " ++ e)
        (codec.to_vec (record {
          tenant_type = ttype;
          tenant_id = tid;
          user_id = user_id;
          expires_at = expires_at;
          subscribed_topics = topics;
        }))

  -- `now + FT_EXPIRATION_SECONDS` is a sum of `u64`s.
  unfoldable pub create_feedticket :
      ℕ → TenantId → ℕ → List String → Result String (String × String)
  unfolding construct_payload
  create_feedticket now tid user_id topics = do
    let expires_at = (now + ft_expiration_seconds) % u64_mod
    payload ← construct_payload (tenant_type tid) (tenant_id sf tid) user_id expires_at topics
    ok (sign c cfg.blob_token payload)

  unfoldable pub verify_feedticket : ℕ → String → String → Result VerifyError FeedTicket
  verify_feedticket now provided_payload provided_signature = do
    bytes ← check_signature c cfg.blob_token provided_payload provided_signature
    payload ← or_else (codec.from_slice bytes) invalid_signature
    guard (not (ltb payload.expires_at now)) expired
    id ← or_else (from_parts sf payload.tenant_type payload.tenant_id) invalid_signature
    ok (record {
      id = id;
      user_id = payload.user_id;
      subscribed_topics = payload.subscribed_topics;
    })
