-- ===== src/Master/Auth.antt =====
-- src/master/syscall/auth.rs: login by OAuth, sessions for the API, and their administration by
-- their user. Requests to Discord are arguments.
pub mod Laws
pub mod Tables
pub mod Examples
use Prim.Native.Char.{Char, code}
use Prim.Native.String.{◌++◌}
use template_worker.Prelude.{
  ℕ, ◌+◌, ◌*◌, ◌/◌, ◌^◌, ◌-◌, Bool, true, false, ◌&&◌, ◌||◌, not, String, len, Option, none, some,
  Result, ok, err, List, [], ◌∷◌, ltb, leb, nat_beq, str_beq, is_some, map_err, if◌then◌else◌,
}
use template_worker.Prelude.Int.{ℤ, pos, negsuc}
use template_worker.Prelude.Actions.{
  Action, pure, throw, gets, lift, modify, ensure, transaction, ◌>>=◌, ◌>>◌,
}
use template_worker.Prelude.Rows.{any}
use template_worker.Worker.Tenant.{Snowflakes}
use template_worker.Master.Cache.{Cache}
use template_worker.Master.Context.{
  MSyscallContext, MSyscallError, Stop, returned, panicked, returning, generic, auth_error,
  into_user_id, invalid_redirect_uri, code_too_short, code_reuse_detected, needed_scopes_not_found,
  expiry_time_out_of_range,
}
use template_worker.Master.Sessions.{
  Uuids, WebDb, Surroundings, UserSession, CreatedWebSession, SessionType, login, app_login, api,
  ran, seconds, create_web_user_from_oauth2, create_web_session, get_user_sessions,
  delete_user_session,
}
use template_worker.Master.Sessions.Tokens.{
  OauthTokenResponse, Response, read_response, generically, save,
}

pub data MAuthSyscall : Type 0 where
  -- the code, the redirect URI, the code verifier
  create_login_session : String → String → Option String → MAuthSyscall
  -- the name, the expiry in seconds
  create_api_session : String → ℤ → MAuthSyscall
  get_user_sessions_call : MAuthSyscall
  delete_session : String → MAuthSyscall

pub record PartialUser : Type 0 where
  pub id : String
  pub username : String
  pub global_name : Option String
  pub avatar : Option String

pub data MAuthSyscallRet : Type 0 where
  created_session : UserSession → String → Option PartialUser → MAuthSyscallRet
  user_sessions : List UserSession → MAuthSyscallRet
  ack : MAuthSyscallRet

abbrev pub app_oauth2_redirect_uri : String
app_oauth2_redirect_uri = "antiraid://oauth-callback"

-- `replace("%20", " ")`
unfoldable pub decode_spaces : String → String
decode_spaces String.[] = String.[]
decode_spaces (String.◌∷◌ c String.[]) = String.◌∷◌ c String.[]
decode_spaces (String.◌∷◌ c (String.◌∷◌ d String.[])) = String.◌∷◌ c (String.◌∷◌ d String.[])
decode_spaces (String.◌∷◌ c (String.◌∷◌ d (String.◌∷◌ e s))) =
    let rest = decode_spaces (String.◌∷◌ d (String.◌∷◌ e s)) in
    let after = decode_spaces s in
    if nat_beq (code c) b'%' && nat_beq (code d) b'2' && nat_beq (code e) b'0'
    then " " ++ after
    else String.◌∷◌ c rest

-- `split(' ')`
abbrev pub put_front : Char → List String → List String
put_front c [] = String.◌∷◌ c String.[] ∷ []
put_front c (w ∷ ws) = String.◌∷◌ c w ∷ ws

unfoldable pub split_spaces : String → List String
split_spaces String.[] = "" ∷ []
split_spaces (String.◌∷◌ c s) =
    let rest = split_spaces s in if nat_beq (code c) b' ' then "" ∷ rest else put_front c rest

abbrev pub contains : String → List String → Bool
contains s ss = any (str_beq s) ss

unfoldable pub has_scopes : String → Bool
unfolding any decode_spaces split_spaces
has_scopes scope =
    let scopes = split_spaces (decode_spaces scope) in
    contains "identify" scopes && contains "guilds" scopes

-- What Discord answers to the request for a token, with the code, the URI and the verifier, and to
-- the request for the user of a token.
pub record Discord : Type 0 where
  pub oauth2_token : String → String → Option String → Response OauthTokenResponse
  pub users_me : String → Response PartialUser

-- `e`'s text after a text of the program
abbrev pub prefixed : {S A : Type 0} → String → Action S String A → Action S MSyscallError A
prefixed text m s = let (s', r) = m s in (s', map_err (λ e. generic (text ++ e)) r)

-- `i64::MAX / 1_000`
abbrev pub max_expiry : ℕ
max_expiry = (2 ^ 63 - 1) / 1000

unfoldable pub api_expiry : ℤ → Result MSyscallError ℕ
api_expiry (pos n) =
    if nat_beq n 0 || leb max_expiry n then err (auth_error expiry_time_out_of_range) else ok n
api_expiry (negsuc n) = err (auth_error expiry_time_out_of_range)

abbrev pub answer_of :
    String → Option PartialUser → String → CreatedWebSession → ℕ → MAuthSyscallRet
answer_of user_id user typ c now =
    created_session
      (record {
        id = c.session_id;
        name = none;
        user_id = user_id;
        created_at = now;
        typ = typ;
        expiry = c.expires_at;
      })
      c.token user

abbrev pub token_answer :
    Discord → String → String → Option String → Result MSyscallError OauthTokenResponse
token_answer d code redirect_uri code_verifier =
    read_response "Failed to get access token: " "Failed to get access token: "
      (d.oauth2_token code redirect_uri code_verifier)

abbrev pub user_answer : Discord → OauthTokenResponse → Result MSyscallError PartialUser
user_answer d token =
    read_response "Failed to get user info from discord: " "Failed to get user info: "
      (d.users_me token.access_token)

-- `app_login`
abbrev pub login_type : String → Option String → SessionType
login_type redirect_uri code_verifier =
    if str_beq redirect_uri app_oauth2_redirect_uri && is_some code_verifier
    then app_login
    else login

-- One time stands for all the readings of the clock in a call; a login ends long before chrono's last
-- date.
module _ (codes : Cache String (Unit {0})) where
  -- The part of `MSyscallHandler` that these calls use: `oauth2_code_cache` and the tables
  pub record AuthState : Type 0 where
    pub oauth2_code_cache : codes.Store
    pub web : WebDb

  abbrev pub on_web : {E A : Type 0} → Action WebDb E A → Action AuthState E A
  on_web m s = let (web', r) = m s.web in (record s { web = web' }, r)

module _ (uu : Uuids) where
  -- The transaction of a login
  unfoldable pub store_login :
      Surroundings
      → PartialUser
      → OauthTokenResponse
      → SessionType
      → Action WebDb MSyscallError CreatedWebSession
  unfolding create_web_user_from_oauth2 save create_web_session
  store_login x user token ty = transaction (do
    generically (lift (ran (x.faults 0)))
    prefixed "Failed to create user: " (create_web_user_from_oauth2 x 1 user.id)
    save x 2 token user.id
    session ← prefixed "Failed to create session: " (create_web_session uu x 3 user.id none ty)
    generically (lift (ran (x.faults 4)))
    pure session)

  -- What follows once the code is marked as used
  unfoldable pub redeem :
      Discord
      → Surroundings
      → String
      → String
      → Option String
      → Action WebDb MSyscallError MAuthSyscallRet
  unfolding has_scopes store_login
  redeem d x code redirect_uri code_verifier = do
    token ← lift (token_answer d code redirect_uri code_verifier)
    ensure (has_scopes token.scope) (auth_error needed_scopes_not_found)
    user ← lift (user_answer d token)
    session ← store_login x user token (login_type redirect_uri code_verifier)
    pure (answer_of user.id (some user) "login" session x.now)

module _ (sf : Snowflakes) (uu : Uuids) where
  -- `Utc::now() + Duration::seconds(secs)`, which panics past the last date
  unfoldable pub from_now : Surroundings → ℕ → Result Stop ℕ
  from_now x secs =
      if leb (x.now + seconds secs) x.max_utc then ok (x.now + seconds secs) else err panicked

  unfoldable pub api_session_call :
      Surroundings → MSyscallContext → String → ℤ → Action WebDb Stop MAuthSyscallRet
  unfolding into_user_id api_expiry from_now create_web_session
  api_session_call x ctx name expiry = do
    user_id ← lift (map_err returned (into_user_id ctx))
    secs ← lift (map_err returned (api_expiry expiry))
    expires_at ← lift (from_now x secs)
    session ←
        returning
          (generically (create_web_session uu x 0 (sf.show user_id) (some name) (api expires_at)))
    pure (answer_of (sf.show user_id) none "api" session x.now)

module _ (sf : Snowflakes) (uu : Uuids) (codes : Cache String (Unit {0}))
    (allowed_redirects : List String) where
  unfoldable pub login_call :
      Discord
      → Surroundings
      → String
      → String
      → Option String
      → Action (AuthState codes) MSyscallError MAuthSyscallRet
  unfolding redeem
  login_call d x code redirect_uri code_verifier = do
    ensure (contains redirect_uri allowed_redirects) (auth_error invalid_redirect_uri)
    ensure (not (ltb (len code) 3)) (auth_error code_too_short)
    used ← gets (λ s. is_some (codes.get code x.now s.oauth2_code_cache).1)
    ensure (not used) (auth_error code_reuse_detected)
    modify (λ s. record s { oauth2_code_cache = codes.insert code tt x.now s.oauth2_code_cache })
    on_web codes (redeem uu d x code redirect_uri code_verifier)

  -- `MAuthSyscall::exec`
  unfoldable pub exec :
      Discord
      → Surroundings
      → MSyscallContext
      → MAuthSyscall
      → Action (AuthState codes) Stop MAuthSyscallRet
  unfolding login_call api_session_call into_user_id get_user_sessions delete_user_session
  exec d x ctx (create_login_session login_code redirect_uri code_verifier) =
      returning (login_call d x login_code redirect_uri code_verifier)
  exec d x ctx (create_api_session name expiry) =
      on_web codes (api_session_call sf uu x ctx name expiry)
  exec d x ctx get_user_sessions_call = returning (
      on_web codes (do
        user_id ← lift (into_user_id ctx)
        sessions ← generically (get_user_sessions uu x (sf.show user_id))
        pure (user_sessions sessions)))
  exec d x ctx (delete_session session_id) = returning (
      on_web codes (do
        user_id ← lift (into_user_id ctx)
        generically (delete_user_session uu x (sf.show user_id) session_id)
        pure ack))
