-- ===== src/Master/Sessions/Examples.antt =====
-- The sessions and tokens of src/master/syscall/internal/auth.rs at concrete rows.
use template_worker.Prelude.{◌≡◌, ◌≢◌, ◌≤◌, ◌&&◌, not, refl, String, some, ok, str_beq}
use template_worker.Prelude.Int.{pos}
use template_worker.Prelude.Rows.{first, any, delete, upsert, update}
use template_worker.Worker.Tenant.Examples.{unary}
use template_worker.Master.Examples.{small_uuids, small_web, calm}
use template_worker.Master.Sessions.{
  SessionRow, UserRow, OauthRow, check_web_auth, success, invalid_token, has_token, is_expired,
}
use template_worker.Master.Sessions.Laws.{check_web_auth-eq-success}
use template_worker.Master.Sessions.Tokens.{
  Response, OauthTokenResponse, body, of_user, get_user_access_token, get, refresh, save,
}
use template_worker.Master.Sessions.Tokens.Laws.{IsToken, get_user_access_token-eq-ok}

accepted :
    (check_web_auth small_uuids unary "bad" (calm 400) "abc" small_web).1
    ≡ ok (success 2 "1" "normal" "login")
unfolding check_web_auth first delete
accepted = refl

-- One microsecond after its expiry
refused : (check_web_auth small_uuids unary "bad" (calm 501) "abc" small_web).1 ≡ ok invalid_token
unfolding check_web_auth first delete
refused = refl

check_web_auth-eq-success_example :
    (r : SessionRow) × (u : UserRow) × (first
        (λ v. has_token "abc" v && not (is_expired 400 v))
        small_web.web_api_tokens
      ≡ some r)
    × (first (λ v. str_beq v.user_id r.user_id) small_web.users ≡ some u)
    × (r.token ≡ "abc")
    × (400 ≤ r.expiry)
    × (small_uuids.show_uuid r.id ≡ "1")
    × (r.typ ≡ "login")
    × (unary.parse r.user_id ≡ some 2)
    × (u.state ≡ "normal")
    × (◌≢◌ {A = String} "normal" "banned")
check_web_auth-eq-success_example =
    check_web_auth-eq-success small_uuids unary "bad" (calm 400) "abc" small_web 2 "1" "normal"
      "login" accepted

abbrev renewing : String → Response OauthTokenResponse
renewing t = body (
    ok (record {
      access_token = "new";
      refresh_token = "r2";
      expires_in = pos 600;
      scope = "identify";
    }))

-- The token of the table is past its time, the answer is the new one, and the table keeps the old one.
renewed : (get_user_access_token (calm 400) renewing "11" small_web).1 ≡ ok "new"
unfolding get_user_access_token get refresh save first upsert any update
renewed = refl

get_user_access_token-eq-ok_example :
    ((r : OauthRow) × (first (of_user "11") small_web.user_oauths ≡ some r)
      × IsToken (calm 400) renewing r "new")
    × ((get_user_access_token (calm 400) renewing "11" small_web).0 ≡ small_web)
get_user_access_token-eq-ok_example =
    get_user_access_token-eq-ok (calm 400) renewing "11" "new" small_web renewed
