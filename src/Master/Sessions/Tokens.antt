-- ===== src/Master/Sessions/Tokens.antt =====
-- src/master/syscall/internal/auth.rs: the OAuth tokens of users, in the table `user_oauths`.
pub mod Laws
use Prim.Native.String.{◌++◌}
use template_worker.Prelude.{
  ℕ, suc, ◌+◌, ◌≡◌, ◌≢◌, refl, true, false, Bool, String, Option, none, some, Result, ok, err,
  map_err, or_else, inl, inr, List, ltb, str_beq, arith, if◌then◌else◌, Option-cases, Bool-cases,
  Result-cases, string_eq, ==_refl, ==_sound,
}
use template_worker.Prelude.Int.{ℤ, pos, negsuc}
use template_worker.Prelude.Actions.{Action, pure, throw, gets, lift, ◌>>=◌, ◌>>◌}
use template_worker.Prelude.Rows.{first, upsert}
use template_worker.Master.Context.{MSyscallError, generic, user_oauth2_needed}
use template_worker.Master.Sessions.{OauthRow, WebDb, Surroundings, ran, execute, fetch, seconds}

pub record OauthTokenResponse : Type 0 where
  pub access_token : String
  pub refresh_token : String
  pub expires_in : ℤ
  pub scope : String

-- What a request to Discord comes to (crate reqwest): it is not sent, it is answered by another
-- status than 200 with a text, or it is answered with a body that is read as JSON.
pub data Response (A : Type 0) : Type 0 where
  not_sent : String → Response A
  other_status : Result String String → Response A
  body : Result String A → Response A

-- The three ways to fail, with the texts of the error and of the status
abbrev pub read_response : {A : Type 0} → String → String → Response A → Result MSyscallError A
read_response failed refused (not_sent e) = err (generic (failed ++ e))
read_response failed refused (other_status (ok t)) = err (generic (refused ++ t))
read_response failed refused (other_status (err e)) = err (generic e)
read_response failed refused (body r) = map_err generic r

-- Errors of the database become generic ones.
abbrev pub generically : {S A : Type 0} → Action S String A → Action S MSyscallError A
generically m s = let (s', r) = m s in (s', map_err generic r)

-- A transaction whose body says whether it was committed: one that is dropped before that, or that
-- an error ends, leaves no trace.
abbrev pub begun : {S E A : Type 0} → Action S E (A × Bool) → Action S E A
begun m s =
    let (s', r) = m s in
    elim r [ ok (a, committed) ↦ ((if committed then s' else s), ok a) | err e ↦ (s, err e) ]

abbrev pub of_user : String → OauthRow → Bool
of_user user_id r = str_beq r.user_id user_id

-- `now > last_set + Duration::seconds(expires_in)`
abbrev pub is_past : ℤ → ℕ → ℕ → Bool
is_past (pos n) last_set now = ltb (last_set + seconds n) now
is_past (negsuc n) last_set now = ltb last_set (now + seconds (suc n))

abbrev pub token_row : String → OauthTokenResponse → ℕ → OauthRow
token_row user_id t now = record {
  user_id = user_id;
  access_token = t.access_token;
  refresh_token = t.refresh_token;
  access_token_expiry = t.expires_in;
  access_token_last_set = now;
  scope = t.scope;
}

abbrev pub from_row : OauthRow → OauthTokenResponse × ℕ
from_row r = (
  record {
    access_token = r.access_token;
    refresh_token = r.refresh_token;
    expires_in = r.access_token_expiry;
    scope = r.scope;
  },
  r.access_token_last_set,
)

module _ (x : Surroundings) where
  -- `OauthTokenResponse::get`, as statement `n`
  unfoldable pub get : ℕ → String → Action WebDb MSyscallError (OauthTokenResponse × ℕ)
  unfolding first
  get n user_id = do
    row ← generically (fetch (x.faults n) (λ db. first (of_user user_id) db.user_oauths))
    found ← lift (or_else row user_oauth2_needed)
    pure (from_row found)

  -- `OauthTokenResponse::save`, as statement `n`
  unfoldable pub save : ℕ → OauthTokenResponse → String → Action WebDb MSyscallError (Unit {0})
  unfolding upsert
  save n t user_id = generically (
      execute (x.faults n) (λ db. record db {
        user_oauths =
            upsert (of_user user_id)
              (λ r. record (token_row user_id t x.now) { user_id = r.user_id })
              (token_row user_id t x.now) db.user_oauths;
      }))

  -- `post` is the request with a refresh token.
  unfoldable pub refresh :
      (String → Response OauthTokenResponse)
      → OauthTokenResponse
      → String
      → Action WebDb MSyscallError (String × Bool)
  unfolding save
  refresh post stored user_id = do
    token_response ← lift (
        read_response "Failed to get new access token: " "Failed to get new access token: "
          (post stored.refresh_token))
    save 2 token_response user_id
    pure (token_response.access_token, false)

  -- After a refresh the call returns before `tx.commit()`.
  unfoldable pub get_user_access_token :
      (String → Response OauthTokenResponse) → String → Action WebDb MSyscallError String
  unfolding get refresh
  get_user_access_token post user_id = begun (do
    generically (lift (ran (x.faults 0)))
    (stored, last_set) ← get 1 user_id
    if is_past stored.expires_in last_set x.now
        then refresh post stored user_id
        else (do generically (lift (ran (x.faults 2))); pure (stored.access_token, true)))
