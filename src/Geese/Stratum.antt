-- ===== src/Geese/Stratum.antt =====
-- src/geese/stratum.rs: Discord's objects from the cache of the service stratum, and from Discord
-- itself when they are not there; and Discord's events on their way to a worker.
use Prim.Native.String.{◌++◌}
use template_worker.Prelude.{
  ℕ, ◌≡◌, Bool, ◌&&◌, not, String, Option, none, some, Result, ok, err, List, nat_beq,
  if◌then◌else◌, ◌>>=◌, arith, Result-cases, Option-cases, inl, inr, ◌⊎◌,
}
use template_worker.Worker.Tenant.{TenantId, guild, user}
use template_worker.Worker.SimpleEvent.{SimpleEvent, new_json_string}
use template_worker.Worker.Syscall.Discord.{Stratum}

-- What is asked for; the first number of a member is its guild.
pub data Resource : Type 0 where
  guild_resource guild_roles_resource guild_channels_resource channel_resource : ℕ → Resource
  member_resource : ℕ → ℕ → Resource

-- `HttpError` (crate dapi): an answer with its status, or another failure, with their debug texts
pub data HttpError : Type 0 where
  unsuccessful : ℕ → String → HttpError
  other : String → HttpError

-- `StratumClient` and the client of Discord. `Json` is `serde_json::Value`.
pub record StratumClient (Json : Type 0) : Type 0 where
  pub get_resource_from_cache : Resource → Result String (Option Json)
  pub call_json : Resource → Result HttpError Json
  pub guild_in_cache : ℕ → Result String Bool
  pub guilds_in_cache : List ℕ → Result String (List Bool)

-- `extract_from_discord`
unfoldable pub extract_from_discord :
    {Json : Type 0} → Result HttpError Json → Result String (Option Json)
extract_from_discord (ok v) = ok (some v)
extract_from_discord (err (unsuccessful status t)) =
    if nat_beq status 404 then ok none else err ("Failed to fetch (http, non-404): " ++ t)
extract_from_discord (err (other t)) = err ("Failed to fetch (http): " ++ t)

module _ {Json : Type 0} (c : StratumClient Json) where
  abbrev or_http : Resource → Option Json → Result String (Option Json)
  or_http r (some v) = ok (some v)
  or_http r none = extract_from_discord (c.call_json r)

  -- The body of `guild`, `guild_member`, `guild_roles`, `guild_channels` and `channel`
  unfoldable pub fetch : Resource → Result String (Option Json)
  unfolding extract_from_discord
  fetch r = do cached ← c.get_resource_from_cache r; or_http r cached

  unfoldable pub has_guild : ℕ → Result String Bool
  has_guild g = c.guild_in_cache g

  unfoldable pub has_guilds : List ℕ → Result String (List Bool)
  has_guilds gs = c.guilds_in_cache gs

  -- What the provider of a worker's VMs is given
  abbrev pub provider : Json → (Json → String → Option String) → Stratum Json
  provider null get_string = record {
    guild = λ g. fetch (guild_resource g);
    guild_member = λ g u. fetch (member_resource g u);
    guild_channels = λ g. fetch (guild_channels_resource g);
    guild_roles = λ g. fetch (guild_roles_resource g);
    channel = λ ch. fetch (channel_resource ch);
    null = null;
    get_string = get_string;
  }

  from_http :
      (r : Resource) (o : Option Json)
      → extract_from_discord (c.call_json r) ≡ ok o
      → ((v : Json) × (o ≡ some v) × (c.call_json r ≡ ok v))
        ⊎ ((t : String) × (o ≡ none) × (c.call_json r ≡ err (unsuccessful 404 t)))
  unfolding extract_from_discord
  from_http r o h = elim (Result-cases (c.call_json r)) [
    | inl (v, q) ↦ inl (v, ground arith, q)
    | inr (unsuccessful status t, q) ↦ inr (t, ground arith, ground arith)
    | inr (other t, q) ↦ absurd (ground arith)
  ]

  -- An object is missing only where the cache does not have it and Discord answers 404; an object that
  -- the cache has is given without asking Discord.
  pub fetch-eq-ok :
      (r : Resource) (o : Option Json)
      → fetch r ≡ ok o
      → ((v : Json) × (o ≡ some v) × (c.get_resource_from_cache r ≡ ok (some v)))
        ⊎ ((c.get_resource_from_cache r ≡ ok none)
            × (((v : Json) × (o ≡ some v) × (c.call_json r ≡ ok v))
                ⊎ ((t : String) × (o ≡ none) × (c.call_json r ≡ err (unsuccessful 404 t)))))
  unfolding fetch
  fetch-eq-ok r o h = elim (Result-cases (c.get_resource_from_cache r)) [
    | inr (e, q) ↦ absurd (ground arith)
    | inl (found, q) ↦ elim (Option-cases found) [
      | inr (v, p) ↦ inl (v, ground arith, ground arith)
      | inl p ↦ inr (ground arith, from_http r o (ground arith))
    ]
  ]

-- `pb::DiscordEvent`
pub record DiscordEvent : Type 0 where
  pub event_name : String
  pub guild_id : ℕ
  pub target_user : ℕ
  pub msg_author : ℕ
  pub payload : String

abbrev pub u64_max : ℕ
u64_max = 18446744073709551615

-- The tenant of an event, if it names one
unfoldable pub route : DiscordEvent → Option TenantId
route evt =
    if not (nat_beq evt.guild_id 0) && not (nat_beq evt.guild_id u64_max)
    then some (guild evt.guild_id)
    else if not (nat_beq evt.target_user 0)
    then some (user evt.target_user)
    else none

-- `discord_event_dispatch`: what the thread of the worker is sent, without waiting for an answer
unfoldable pub discord_event_dispatch :
    {V : Type 0} → ℕ → DiscordEvent → Option (TenantId × SimpleEvent V)
unfolding route
discord_event_dispatch bot_id evt = elim (route evt) [
  | none ↦ none
  | some id ↦
      if not (nat_beq evt.msg_author 0) && nat_beq evt.msg_author bot_id
      then none
      else some (id, new_json_string evt.event_name none evt.payload)
]
