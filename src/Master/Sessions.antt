-- ===== src/Master/Sessions.antt =====
-- src/master/syscall/internal/auth.rs: the web sessions of users, over the tables
-- `web_api_tokens` and `users`. Times are numbers of microseconds.
pub mod Tokens
pub mod Laws
pub mod Examples
use template_worker.Prelude.{
  ℕ, ◌+◌, ◌*◌, ◌≡◌, Bool, ◌&&◌, not, String, Option, none, some, Result, ok, err, or_else, List, [],
  ◌∷◌, ◌++◌, map, ltb, nat_beq, str_beq, if◌then◌else◌,
}
use template_worker.Prelude.Int.{ℤ}
use template_worker.Prelude.Actions.{Action, pure, throw, gets, lift, modify, ensure, ◌>>=◌, ◌>>◌}
use template_worker.Prelude.Rows.{select, first, any, delete, insert_new}
use template_worker.Worker.Tenant.{Snowflakes}

-- Session ids are uuids (crate uuid).
pub record Uuids : Type 0 where
  pub show_uuid : ℕ → String
  pub parse_str : String → Option ℕ
  pub parse_str-show_uuid : (u : ℕ) → parse_str (show_uuid u) ≡ some u

-- A row of `web_api_tokens`
pub record SessionRow : Type 0 where
  pub id : ℕ
  pub user_id : String
  pub typ : String
  pub token : String
  pub expiry : ℕ
  pub name : Option String
  pub created_at : ℕ

-- A row of `users`; JSON is kept as its text.
pub record UserRow : Type 0 where
  pub user_id : String
  pub state : String
  pub guilds_cache : Option String

-- A row of `user_oauths`; `access_token_expiry` is in seconds.
pub record OauthRow : Type 0 where
  pub user_id : String
  pub access_token : String
  pub refresh_token : String
  pub access_token_expiry : ℤ
  pub access_token_last_set : ℕ
  pub scope : String

pub record WebDb : Type 0 where
  pub web_api_tokens : List SessionRow
  pub users : List UserRow
  pub user_oauths : List OauthRow

-- What a call meets: the time, the id and the token that are drawn, the default of the column
-- `state`, the last date of chrono (`DateTime::<Utc>::MAX_UTC`), and the driver's error at each
-- statement, if any.
pub record Surroundings : Type 0 where
  pub now : ℕ
  pub new_id : ℕ
  pub sample : String
  pub default_state : String
  pub max_utc : ℕ
  pub faults : ℕ → Option String

abbrev pub ran : Option String → Result String (Unit {0})
ran none = ok tt
ran (some e) = err e

-- Statements that write, and that read
abbrev pub execute : {S : Type 0} → Option String → (S → S) → Action S String (Unit {0})
execute fault f = lift (ran fault) >> modify f

abbrev pub fetch : {S A : Type 0} → Option String → (S → A) → Action S String A
fetch fault f = lift (ran fault) >> gets f

pub record UserSession : Type 0 where
  pub id : String
  pub name : Option String
  pub user_id : String
  pub created_at : ℕ
  pub typ : String
  pub expiry : ℕ

pub data AuthResponse : Type 0 where
  -- the user, the session, the state of the user, the type of the session
  success : ℕ → String → String → String → AuthResponse
  api_banned : ℕ → String → String → AuthResponse
  invalid_token : AuthResponse

pub record CreatedWebSession : Type 0 where
  pub session_id : String
  pub token : String
  pub expires_at : ℕ

pub data SessionType : Type 0 where
  login app_login : SessionType
  api : ℕ → SessionType

abbrev pub seconds : ℕ → ℕ
seconds n = n * 1000000

abbrev pub login_expiry_time : ℕ
login_expiry_time = seconds 3600

abbrev pub app_login_expiry_time : ℕ
app_login_expiry_time = seconds (14 * 86400)

-- `r.expiry < NOW()`
abbrev pub is_expired : ℕ → SessionRow → Bool
is_expired now r = ltb r.expiry now

abbrev pub has_token : String → SessionRow → Bool
has_token token r = str_beq r.token token

abbrev pub own_session : String → ℕ → SessionRow → Bool
own_session user_id id r = str_beq r.user_id user_id && nat_beq r.id id

-- The type that is stored, and the expiry
unfoldable pub type_and_expiry : SessionType → ℕ → String × ℕ
type_and_expiry login now = ("login", now + login_expiry_time)
type_and_expiry app_login now = ("app_login", now + app_login_expiry_time)
type_and_expiry (api expires_at) now = ("api", expires_at)

-- INSERT .. ON CONFLICT (user_id) DO NOTHING
unfoldable pub create_web_user_from_oauth2 :
    Surroundings → ℕ → String → Action WebDb String (Unit {0})
unfolding insert_new
create_web_user_from_oauth2 x n user_id = execute (x.faults n) (λ db. record db {
  users =
      insert_new (λ u. str_beq u.user_id user_id)
        (record { user_id = user_id; state = x.default_state; guilds_cache = none }) db.users;
})

abbrev pub new_session_row : Surroundings → String → Option String → String × ℕ → SessionRow
new_session_row x user_id name (typ, expiry) = record {
  id = x.new_id;
  user_id = user_id;
  typ = typ;
  token = x.sample;
  expiry = expiry;
  name = name;
  created_at = x.now;
}

module _ (uu : Uuids) where
  abbrev pub session_of : SessionRow → UserSession
  session_of r = record {
    id = uu.show_uuid r.id;
    name = r.name;
    user_id = r.user_id;
    created_at = r.created_at;
    typ = r.typ;
    expiry = r.expiry;
  }

  -- Run as statement `n` of its caller
  unfoldable pub create_web_session :
      Surroundings
      → ℕ
      → String
      → Option String
      → SessionType
      → Action WebDb String CreatedWebSession
  unfolding type_and_expiry
  create_web_session x n user_id name session_type =
      let row = new_session_row x user_id name (type_and_expiry session_type x.now) in
      execute (x.faults n) (λ db. record db { web_api_tokens = db.web_api_tokens ++ row ∷ [] })
      >> pure (record {
        session_id = uu.show_uuid x.new_id;
        token = x.sample;
        expires_at = (type_and_expiry session_type x.now).1;
      })

  unfoldable pub get_user_sessions : Surroundings → String → Action WebDb String (List UserSession)
  get_user_sessions x user_id =
      fetch (x.faults 0)
        (λ db. map session_of (select (λ r. str_beq r.user_id user_id) db.web_api_tokens))

  unfoldable pub delete_user_session :
      Surroundings → String → String → Action WebDb String (Unit {0})
  unfolding any delete
  delete_user_session x user_id session_id = do
    session_id_uuid ← lift (or_else (uu.parse_str session_id) "Invalid session ID format")
    affected ← gets (λ db. any (own_session user_id session_id_uuid) db.web_api_tokens)
    execute (x.faults 0) (λ db. record db {
      web_api_tokens = delete (own_session user_id session_id_uuid) db.web_api_tokens;
    })
    ensure affected "No session found to delete"

  -- `user_id.parse()?` fails with the text `bad_id`; `fetch_one` fails without a row.
  module _ (sf : Snowflakes) (bad_id : String) where
    abbrev judge : SessionRow → String → ℕ → AuthResponse
    judge auth state user_id =
        if str_beq state "banned"
        then api_banned user_id (uu.show_uuid auth.id) auth.typ
        else success user_id (uu.show_uuid auth.id) state auth.typ

    abbrev check_user : Surroundings → Option SessionRow → Action WebDb String AuthResponse
    check_user x none = pure invalid_token
    check_user x (some auth) = do
      row ← fetch (x.faults 2) (λ db. first (λ u. str_beq u.user_id auth.user_id) db.users)
      user ←
          lift (or_else row "no rows returned by a query that expected to return at least one row")
      user_id ← lift (or_else (sf.parse auth.user_id) bad_id)
      pure (judge auth user.state user_id)

    unfoldable pub check_web_auth : Surroundings → String → Action WebDb String AuthResponse
    unfolding first delete
    check_web_auth x token = do
      execute (x.faults 0)
          (λ db. record db { web_api_tokens = delete (is_expired x.now) db.web_api_tokens })
      user_auth ← fetch (x.faults 1) (λ db. first (has_token token) db.web_api_tokens)
      check_user x user_auth
