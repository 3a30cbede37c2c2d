-- ===== src/Worker/Syscall/Discord.antt =====
-- `ArDiscordProvider` of src/worker/syscall/discord.rs: what a tenant's VM may read of Discord. The
-- answers come from src/geese/stratum.rs; `Json` is `serde_json::Value`.
use Prim.Native.String.{String}
use template_worker.Prelude.{
  ℕ, ◌≡◌, refl, Option, none, some, Result, ok, err, arith, inl, inr, ◌⊎◌, str_beq, eq_iff, ◌>>=◌,
  if◌then◌else◌, Option-cases, Result-cases,
}
use template_worker.Worker.Tenant.{TenantId, guild, user, Snowflakes}

-- `get_string v k` is the field `k` of `v` where that is a string.
pub record Stratum (Json : Type 0) : Type 0 where
  pub guild : ℕ → Result String (Option Json)
  pub guild_member : ℕ → ℕ → Result String (Option Json)
  pub guild_channels : ℕ → Result String (Option Json)
  pub guild_roles : ℕ → Result String (Option Json)
  pub channel : ℕ → Result String (Option Json)
  pub null : Json
  pub get_string : Json → String → Option String

unfoldable pub guild_id : TenantId → Result String ℕ
guild_id (guild g) = ok g
guild_id (user u) = err "Current context is not a guild"

module _ {Json : Type 0} (sf : Snowflakes) (st : Stratum Json) where
  abbrev or_null : Option Json → Json
  or_null none = st.null
  or_null (some v) = v

  unfoldable pub get_guild : TenantId → Result String Json
  unfolding guild_id
  get_guild id = do g ← guild_id id; obj ← st.guild g; ok (or_null obj)

  unfoldable pub get_guild_member : TenantId → ℕ → Result String Json
  unfolding guild_id
  get_guild_member id user_id = do
    g ← guild_id id
    obj ← st.guild_member g user_id
    ok (or_null obj)

  unfoldable pub get_guild_channels : TenantId → Result String Json
  unfolding guild_id
  get_guild_channels id = do g ← guild_id id; obj ← st.guild_channels g; ok (or_null obj)

  unfoldable pub get_guild_roles : TenantId → Result String Json
  unfolding guild_id
  get_guild_roles id = do g ← guild_id id; obj ← st.guild_roles g; ok (or_null obj)

  abbrev pub same_guild : ℕ → Json → Option String → Result String Json
  same_guild g v none = err "Channel does not belong to a guild"
  same_guild g v (some channel_guild_id) =
      if str_beq channel_guild_id (sf.show g)
      then ok v
      else err "Channel does not belong to the guild"

  abbrev own_channel : ℕ → Option Json → Result String Json
  own_channel g none = ok st.null
  own_channel g (some v) = same_guild g v (st.get_string v "guild_id")

  unfoldable pub get_channel : TenantId → ℕ → Result String Json
  unfolding guild_id
  get_channel id channel_id = do
    g ← guild_id id
    channel ← st.channel channel_id
    own_channel g channel

  -- A channel that a tenant is shown is a channel of the guild that the tenant is; where there is none, null is shown.
  pub get_channel-eq-ok :
      (id : TenantId) (channel_id : ℕ) (v : Json)
      → get_channel id channel_id ≡ ok v
      → (g : ℕ) × (id ≡ guild g)
        × (((st.channel channel_id ≡ ok none) × (v ≡ st.null))
            ⊎ ((st.channel channel_id ≡ ok (some v))
                × (st.get_string v "guild_id" ≡ some (sf.show g))))
  unfolding get_channel
  get_channel-eq-ok (user u) channel_id v h = absurd (ground arith)
  get_channel-eq-ok (guild g) channel_id v h = elim (Result-cases (st.channel channel_id)) [
    | inr (e, q) ↦ absurd (ground (arith, q))
    | inl (c, q) ↦ elim (Option-cases c) [
      | inl n ↦ (g, refl, inl (ground (arith, q, n), ground (arith, q, n)))
      | inr (w, n) ↦ elim (Option-cases (st.get_string w "guild_id")) [
        | inl m ↦ absurd (ground (arith, q, n, m))
        | inr (t, m) ↦
            let same : w ≡ v = ground (arith, q, n, m) in
            (
              g,
              refl,
              inr (ground (arith, q, n, same), ground (arith, q, n, m, same, eq_iff t (sf.show g))),
            )
      ]
    ]
  ]
