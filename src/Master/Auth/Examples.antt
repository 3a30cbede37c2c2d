-- ===== src/Master/Auth/Examples.antt =====
-- The calls of src/master/syscall/auth.rs at concrete requests.
use template_worker.Prelude.{
  ◌≡◌, refl, true, false, String, none, ok, err, [], ◌∷◌, arith, string_eq, str_beq,
}
use template_worker.Prelude.Int.{pos}
use template_worker.Prelude.Rows.{first, any}
use template_worker.Worker.Tenant.Examples.{unary}
use template_worker.Master.Examples.{timed, timed_lives, small_uuids, small_web, calm, find}
use template_worker.Master.Context.{
  api_token, auth_error, code_reuse_detected, into_user_id, generic, returned, panicked,
}
use template_worker.Master.Sessions.{check_web_auth, success}
use template_worker.Master.Sessions.Tokens.{not_sent}
use template_worker.Master.Auth.{
  AuthState, Discord, create_api_session, create_login_session, exec, login_call, api_expiry,
  api_session_call, from_now, decode_spaces, split_spaces, has_scopes,
}
use template_worker.Master.Auth.Laws.{exec_all, AreWithin, login_call-login_call}
use template_worker.Master.Auth.Tables.{exec-err, check_web_auth-create_api_session}

abbrev site : String
site = "https://x"

abbrev silent : Discord
silent = record { oauth2_token = λ c u v. not_sent "down"; users_me = λ t. not_sent "down" }

abbrev state : AuthState (timed 600)
state = record { oauth2_code_cache = []; web = small_web }

abbrev code_calls : AuthState (timed 600) → AuthState (timed 600)
code_calls s =
    exec_all unary small_uuids (timed 600) (site ∷ []) silent
      ((calm 20, api_token 2, create_login_session "other" site none) ∷ [])
      (login_call unary small_uuids (timed 600) (site ∷ []) silent (calm 10) "code" site none s).0

escaped_scopes : has_scopes "guilds%20identify" ≡ true
unfolding has_scopes decode_spaces split_spaces any
escaped_scopes = refl

one_scope : has_scopes "guilds identifyx" ≡ false
unfolding has_scopes decode_spaces split_spaces any
one_scope = refl

within :
    AreWithin unary small_uuids
      (timed 600)
      (site ∷ [])
      10
      610
      ((calm 20, api_token 2, create_login_session "other" site none) ∷ [])
unfolding AreWithin
within = (omega arith, omega arith, tt)

allowed : any (λ s. str_beq site s) (site ∷ []) ≡ true
unfolding any
allowed = refl

login_call-login_call_example :
    login_call unary small_uuids
      (timed 600)
      (site ∷ [])
      silent
      (calm 600)
      "code"
      site
      none
      (code_calls state)
    ≡ (code_calls state, err (auth_error code_reuse_detected))
unfolding find
login_call-login_call_example =
    login_call-login_call unary small_uuids (timed 600) (site ∷ []) (timed_lives 600) silent silent
      (calm 10) (calm 600) "code" site site none none
      ((calm 20, api_token 2, create_login_session "other" site none) ∷ []) state allowed allowed
      refl refl within (omega arith) (omega arith)

refused_login :
    (exec unary small_uuids
      (timed 600)
      (site ∷ [])
      silent
      (calm 10)
      (api_token 2)
      (create_login_session "code" site none)
      state).1
    ≡ err (returned (generic "Failed to get access token: down"))
unfolding exec login_call any find
refused_login = refl

exec-err_example :
    (exec unary small_uuids
      (timed 600)
      (site ∷ [])
      silent
      (calm 10)
      (api_token 2)
      (create_login_session "code" site none)
      state).0.web
    ≡ small_web
exec-err_example =
    exec-err unary small_uuids (timed 600) (site ∷ []) silent (calm 10) (api_token 2)
      (create_login_session "code" site none) state
      (returned (generic "Failed to get access token: down")) refused_login

in_range : api_expiry (pos 60) ≡ ok 60
unfolding api_expiry
in_range = refl

user_there : into_user_id (api_token 2) ≡ ok 2
unfolding into_user_id
user_there = refl

-- The check of the range lets a date through that chrono does not have.
too_late :
    (exec unary small_uuids
      (timed 600)
      (site ∷ [])
      silent
      (calm 10)
      (api_token 2)
      (create_api_session "mine" (pos 9000000000000000))
      state).1
    ≡ err panicked
unfolding exec api_session_call api_expiry from_now into_user_id
too_late = refl

check_web_auth-create_api_session_example :
    (check_web_auth small_uuids unary "bad"
      (calm 50000000)
      "new"
      (exec unary small_uuids
        (timed 600)
        (site ∷ [])
        silent
        (calm 10)
        (api_token 2)
        (create_api_session "mine" (pos 60))
        state).0.web).1
    ≡ ok (success 2 "1111" "normal" "api")
unfolding any first
check_web_auth-create_api_session_example =
    check_web_auth-create_api_session unary small_uuids (timed 600) (site ∷ []) "bad" silent
      (calm 10) (calm 50000000) (api_token 2) "mine" 60 2
      (record { user_id = "11"; state = "normal"; guilds_cache = none }) state (λ n. refl)
      (λ n. refl) user_there (omega arith) in_range (omega arith) refl refl refl
