-- ===== src/Master/Examples.antt =====
-- A small master: a clock of numbers, caches as lists with the time of each entry, one guild with the
-- bot, and workers that keep a log of what they are told.
use template_worker.Prelude.{
  ℕ, zero, suc, ◌+◌, ◌≤◌, ◌<◌, ◌≡◌, ◌≢◌, ◌↔◌, refl, sym, true, ◌&&◌, Option, none, some, ok, List,
  [], ◌∷◌, arith, ltb, nat_beq, if◌then◌else◌, Eq, ◌==◌, nat_eq, string_eq, ==_refl, eq-false-of-ne,
}
use template_worker.Prelude.Int.{pos}
use template_worker.Worker.Tenant.{TenantId}
use template_worker.Worker.Tenant.Examples.{ones, count_chars}
use template_worker.Geese.Ratelimit.Examples.{counting}
use template_worker.Geese.State.Examples.{small_db}
use template_worker.Master.Cache.{Cache, TimeToLive}
use template_worker.Master.Handler.{Kinds, Handler, WorkerPool, Stratum}
use template_worker.Master.Sessions.{Uuids, WebDb, Surroundings}

pub unit_iff : (s t : Unit {0}) → (true ≡ true) ↔ (s ≡ t)
unit_iff s t = (λ h. refl, λ h. refl)

instance abbrev pub unit_eq : Eq (Unit {0})
unit_eq = record { beq = λ s t. true; beq_iff = unit_iff }

-- The newest entry of a key that is not too old
module _ {K V : Type 0} ⦃e : Eq K⦄ (ttl : ℕ) where
  unfoldable pub find : K → ℕ → List (K × V × ℕ) → Option V
  find k now [] = none
  find k now ((j, v, t) ∷ s) =
      let rest = find k now s in if (j == k) && ltb now (t + ttl) then some v else rest

  abbrev pub timed : Cache K V
  timed = record {
    Store = List (K × V × ℕ);
    get = λ k now s. (s, find k now s);
    insert = λ k v now s. (k, v, now) ∷ s;
  }

  pub found_new :
      (k : K) (v : V) (t now : ℕ) (s : List (K × V × ℕ))
      → t ≤ now
      → now < t + ttl
      → find k now ((k, v, t) ∷ s) ≡ some v
  unfolding find
  found_new k v t now s le lt = ground (arith, ==_refl k)

  pub found_other :
      (j k : K) (v : V) (t now : ℕ) (s : List (K × V × ℕ))
      → j ≢ k
      → find j now ((k, v, t) ∷ s) ≡ find j now s
  unfolding find
  found_other j k v t now s ne = ground (arith, eq-false-of-ne k j (λ q. ne (sym q)))

  abbrev pub timed_lives : TimeToLive timed ttl
  timed_lives = record {
    get-insert = found_new;
    get-insert_other = found_other;
    get_twice = λ j k t now s. refl;
  }

-- A log of the tenants that the workers were told about. An event runs code that empties the table of
-- the tenants' key-values.
abbrev pub logging : WorkerPool ℕ ℕ
logging = record {
  Fleet = List TenantId;
  dispatch_event = λ id ev s. ((id ∷ s.0, record s.1 { tenant_kv = [] }), ok 0);
  drop_tenant = λ id s. ((id ∷ s.0, s.1), ok tt);
  update_tenant_state = λ id ts s. ((id ∷ s.0, s.1), ok true);
}

abbrev pub small_kinds : Kinds ℕ ℕ
small_kinds = record {
  governor = counting;
  guild_cache = timed 60;
  status_cache = timed 100;
  pool = logging;
}

abbrev pub small_handler : Handler small_kinds
small_handler = record {
  user_rl = record { global = 5 ∷ []; per_bucket = [] };
  bot_has_guild_cache = [];
  statuses = [];
  fleet = [];
  db = small_db;
}

-- The bot is in the guild 3.
abbrev pub small_stratum : Stratum
small_stratum = record {
  has_guild = λ g. ok (nat_beq g 3);
  has_guilds = λ gs. ok [];
  get_status = ok (record { shards = []; guild_count = 1; user_count = 2 });
}

pub unary_uuid : (u : ℕ) → some (count_chars (ones u)) ≡ some u
unary_uuid zero = refl
unary_uuid (suc n) = ground (arith, unary_uuid n)

abbrev pub small_uuids : Uuids
small_uuids = record {
  show_uuid = ones;
  parse_str = λ s. some (count_chars s);
  parse_str-show_uuid = unary_uuid;
}

-- The user 2 is known, and has one session.
abbrev pub small_web : WebDb
small_web = record {
  web_api_tokens =
      record {
        id = 1;
        user_id = "11";
        typ = "login";
        token = "abc";
        expiry = 500;
        name = none;
        created_at = 1;
      }
      ∷ [];
  users = record { user_id = "11"; state = "normal"; guilds_cache = none } ∷ [];
  user_oauths =
      record {
        user_id = "11";
        access_token = "old";
        refresh_token = "r";
        access_token_expiry = pos 0;
        access_token_last_set = 1;
        scope = "identify";
      }
      ∷ [];
}

-- A call at a time, without errors of the driver
abbrev pub calm : ℕ → Surroundings
calm now = record {
  now = now;
  new_id = 4;
  sample = "new";
  default_state = "normal";
  max_utc = 8210266876799999999;
  faults = λ n. none;
}
