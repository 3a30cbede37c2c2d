-- ===== src/Master/Handler.antt =====
-- `MSyscallHandler` of src/master/syscall/mod.rs as the calls on the bot see it: what it asks of
-- other services, the caches before them, and the limits.
use template_worker.Prelude.{
  ℕ, Bool, String, Result, ok, err, List, [], ◌∷◌, map_err, nat_beq, if◌then◌else◌,
}
use template_worker.Prelude.Rows.{length}
use template_worker.Prelude.Actions.{Action, pure, lift, ◌>>=◌}
use template_worker.Worker.Tenant.{TenantId}
use template_worker.Worker.SimpleEvent.{SimpleEvent}
use template_worker.Geese.Ratelimit.{Governor, Ratelimiter}
use template_worker.Geese.TenantState.{TenantState}
use template_worker.Geese.State.Tables.{Db}
use template_worker.Master.Cache.{Cache, try_get_with}
use template_worker.Master.Context.{MSyscallError, generic}

-- What `WorkerPool` offers to the calls; `Fleet` is the state of the workers. A worker that is asked
-- runs the code of a tenant, which writes to the database of the master before the answer is there.
pub record WorkerPool (V J : Type 0) : Type 1 where
  pub Fleet : Type 0
  pub dispatch_event : TenantId → SimpleEvent V → Action (Fleet × Db J) String V
  pub drop_tenant : TenantId → Action (Fleet × Db J) String (Unit {0})
  pub update_tenant_state : TenantId → TenantState → Action (Fleet × Db J) String Bool

-- What `Stratum` answers during one call; `get_status` gives the shards with state and latency, and
-- the numbers of guilds and users.
pub record RawStatus : Type 0 where
  pub shards : List (ℕ × String × ℕ)
  pub guild_count : ℕ
  pub user_count : ℕ

pub record Stratum : Type 0 where
  pub has_guild : ℕ → Result String Bool
  pub has_guilds : List ℕ → Result String (List Bool)
  pub get_status : Result String RawStatus

pub record ShardConn : Type 0 where
  pub status : String
  pub latency : ℕ

pub record BotStatus : Type 0 where
  pub shard_conns : List (ℕ × ShardConn)
  pub total_guilds : ℕ
  pub total_users : ℕ
  pub uptime : ℕ

-- The kinds of the parts of the handler
pub record Kinds (V J : Type 0) : Type 1 where
  pub governor : Governor ℕ
  pub guild_cache : Cache ℕ Bool
  pub status_cache : Cache (Unit {0}) BotStatus
  pub pool : WorkerPool V J

module _ {V J : Type 0} (k : Kinds V J) where
  pub record Handler : Type 0 where
    pub user_rl : Ratelimiter k.governor
    pub bot_has_guild_cache : k.guild_cache.Store
    pub statuses : k.status_cache.Store
    pub fleet : k.pool.Fleet
    pub db : Db J

abbrev pub generic_err : {A : Type 0} → Result String A → Result MSyscallError A
generic_err r = map_err generic r

-- The bulk look-up, for any other number of guilds than one
abbrev same_length : List ℕ → Result String (List Bool) → Result MSyscallError (List Bool)
same_length guilds (err e) = err (generic e)
same_length guilds (ok bs) =
    if nat_beq (length bs) (length guilds)
    then ok bs
    else err (generic "internal error: guild_exists is empty when it shouldnt be")

module _ {V J : Type 0} (k : Kinds V J) where
  abbrev pub on_fleet :
      {A : Type 0} → Action (k.pool.Fleet × Db J) String A → Action (Handler k) MSyscallError A
  on_fleet m h =
      let (s, r) = m (h.fleet, h.db) in (record h { fleet = s.0; db = s.1 }, generic_err r)

  abbrev pub on_limits :
      {A : Type 0}
      → Action (Ratelimiter k.governor) MSyscallError A
      → Action (Handler k) MSyscallError A
  on_limits m h = let (rl, r) = m h.user_rl in (record h { user_rl = rl }, r)

  abbrev pub on_db :
      {A : Type 0} → Action (Db J) MSyscallError A → Action (Handler k) MSyscallError A
  on_db m h = let (db, r) = m h.db in (record h { db = db }, r)

  unfoldable pub has_bot_single : Stratum → ℕ → ℕ → Action (Handler k) MSyscallError Bool
  has_bot_single st now guild h =
      let (s, r) =
        try_get_with k.guild_cache guild now (st.has_guild guild) h.bot_has_guild_cache in
      (record h { bot_has_guild_cache = s }, generic_err r)

  unfoldable pub has_bot : Stratum → ℕ → List ℕ → Action (Handler k) MSyscallError (List Bool)
  unfolding has_bot_single
  has_bot st now (g ∷ []) = do hb ← has_bot_single st now g; pure (hb ∷ [])
  has_bot st now guilds = lift (same_length guilds (st.has_guilds guilds))
