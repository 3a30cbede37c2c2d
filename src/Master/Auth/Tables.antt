-- ===== src/Master/Auth/Tables.antt =====
-- What the calls of src/master/syscall/auth.rs leave in the tables.
use template_worker.Prelude.{
  ℕ, ◌+◌, ◌<◌, ◌≤◌, ◌≡◌, map_err, refl, sym, subst, false, String, Option, some, ok, err, List,
  arith, ltb, str_beq, if◌then◌else◌, Option-cases, Bool-cases, Result-cases, inl, inr, string_eq,
}
use template_worker.Prelude.Int.{ℤ, pos}
use template_worker.Prelude.Actions.{Action, lift, ensure}
use template_worker.Prelude.Clean.{IsClean, bind-IsClean, bind_pure-IsClean, transaction-IsClean}
use template_worker.Master.Sessions.Tokens.{generically}
use template_worker.Prelude.Rows.{first, any, delete_none}
use template_worker.Worker.Tenant.{Snowflakes, max_id}
use template_worker.Master.Cache.{Cache}
use template_worker.Master.Context.{
  MSyscallContext, MSyscallError, Stop, returned, returning, into_user_id, auth_error,
  needed_scopes_not_found,
}
use template_worker.Master.Sessions.{
  Uuids, UserRow, WebDb, Surroundings, delete_user_session, create_web_session, own_session,
  get_user_sessions, check_web_auth, invalid_token, success, api_banned, seconds, api, has_token,
  type_and_expiry, SessionType,
}
use template_worker.Master.Sessions.Laws.{Undisturbed, check_web_auth-create_web_session}
use template_worker.Master.Auth.{
  MAuthSyscall, create_login_session, create_api_session, get_user_sessions_call, delete_session,
  Discord, AuthState, exec, login_call, api_session_call, api_expiry, from_now, redeem, store_login,
  has_scopes, token_answer, user_answer, login_type, answer_of,
}

generically-IsClean : {S A : Type 0} (m : Action S String A) → IsClean m → IsClean (generically m)
generically-IsClean m k s e h = elim (Result-cases (m s).1) [
  | inl (a, q) ↦ absurd (ground arith)
  | inr (t, q) ↦ k s t q
]

returning-IsClean :
    {S A : Type 0} (m : Action S MSyscallError A) → IsClean m → IsClean (returning m)
returning-IsClean m k s e h = elim (Result-cases (m s).1) [
  | inl (a, q) ↦ absurd (ground arith)
  | inr (t, q) ↦ k s t q
]

module _ (uu : Uuids) where
  create_web_session-err :
      (x : Surroundings) (n : ℕ) (user_id : String) (name : Option String) (ty : SessionType)
      (db : WebDb) (e : String)
      → (create_web_session uu x n user_id name ty db).1 ≡ err e
      → (create_web_session uu x n user_id name ty db).0 ≡ db
  unfolding create_web_session
  create_web_session-err x n user_id name ty db e h = elim (Option-cases (x.faults n)) [
    | inl q ↦ ground arith
    | inr (t, q) ↦ rw q refl
  ]

  delete_user_session-err :
      (x : Surroundings) (user_id session_id : String) (db : WebDb) (e : String)
      → (delete_user_session uu x user_id session_id db).1 ≡ err e
      → (delete_user_session uu x user_id session_id db).0 ≡ db
  unfolding delete_user_session
  delete_user_session-err x user_id session_id db e h =
      elim (Option-cases (uu.parse_str session_id)) [
        | inl q ↦ rw q refl
        | inr (id, q) ↦ elim (Option-cases (x.faults 0)) [
          | inl f ↦ elim (Bool-cases (any (own_session user_id id) db.web_api_tokens)) [
            | inl a ↦ absurd (ground arith)
            | inr a ↦ rw (q, f, delete_none (own_session user_id id) db.web_api_tokens a) refl
          ]
          | inr (t, f) ↦ rw (q, f) refl
        ]
      ]

  redeem-IsClean :
      (d : Discord) (x : Surroundings) (code uri : String) (verifier : Option String)
      → IsClean (redeem uu d x code uri verifier)
  unfolding redeem store_login
  redeem-IsClean d x code uri verifier =
      bind-IsClean (lift (token_answer d code uri verifier)) _ (λ s. refl)
        (λ token.
          bind-IsClean (ensure (has_scopes token.scope) (auth_error needed_scopes_not_found)) _
            (λ s. refl)
            (λ u.
              bind-IsClean (lift (user_answer d token)) _ (λ s. refl)
                (λ user.
                  bind_pure-IsClean (store_login uu x user token (login_type uri verifier))
                    (λ session. answer_of user.id (some user) "login" session x.now)
                    (transaction-IsClean _))))

module _ (sf : Snowflakes) (uu : Uuids) where
  api_session_call-IsClean :
      (x : Surroundings) (ctx : MSyscallContext) (name : String) (expiry : ℤ)
      → IsClean (api_session_call sf uu x ctx name expiry)
  unfolding api_session_call
  api_session_call-IsClean x ctx name expiry =
      bind-IsClean (lift (map_err returned (into_user_id ctx))) _ (λ s. refl)
        (λ user_id.
          bind-IsClean (lift (map_err returned (api_expiry expiry))) _ (λ s. refl)
            (λ secs.
              bind-IsClean (lift (from_now sf uu x secs)) _ (λ s. refl)
                (λ expires_at.
                  bind_pure-IsClean
                    (returning (
                      generically
                        (create_web_session uu x 0 (sf.show user_id) (some name) (api expires_at))))
                    _
                    (returning-IsClean
                      (generically
                        (create_web_session uu x 0 (sf.show user_id) (some name) (api expires_at)))
                      (generically-IsClean
                        (create_web_session uu x 0 (sf.show user_id) (some name) (api expires_at))
                        (create_web_session-err uu x 0 (sf.show user_id) (some name)
                          (api expires_at)))))))

module _ (sf : Snowflakes) (uu : Uuids) (codes : Cache String (Unit {0}))
    (allowed_redirects : List String) where
  -- A call that ends with an error, or panics, leaves the sessions, the users and their OAuth tokens as they were.
  pub exec-err :
      (d : Discord) (x : Surroundings) (ctx : MSyscallContext) (call : MAuthSyscall)
      (s : AuthState codes) (e : Stop)
      → (exec sf uu codes allowed_redirects d x ctx call s).1 ≡ err e
      → (exec sf uu codes allowed_redirects d x ctx call s).0.web ≡ s.web
  unfolding exec login_call get_user_sessions
  exec-err d x ctx (create_login_session code uri v) s e h =
      elim (Result-cases (login_call sf uu codes allowed_redirects d x code uri v s).1) [
        | inl (r, q) ↦ absurd (ground arith)
        | inr (t, q) ↦ ground (arith, redeem-IsClean uu d x code uri v s.web t)
      ]
  exec-err d x ctx (create_api_session name expiry) s e h =
      api_session_call-IsClean sf uu x ctx name expiry s.web e h
  exec-err d x ctx get_user_sessions_call s e h = ground arith
  exec-err d x ctx (delete_session session_id) s e h =
      returning-IsClean _
        (bind-IsClean (lift (into_user_id ctx)) _ (λ s. refl)
          (λ user_id.
            bind_pure-IsClean (generically (delete_user_session uu x (sf.show user_id) session_id))
              _
              (generically-IsClean (delete_user_session uu x (sf.show user_id) session_id)
                (delete_user_session-err uu x (sf.show user_id) session_id))))
        s.web e h

  in_time :
      (x : Surroundings) (n : ℕ)
      → x.now + seconds n ≤ x.max_utc
      → from_now sf uu x n ≡ ok (x.now + seconds n)
  unfolding from_now
  in_time x n le = ground arith

  api_session_call-row :
      (x : Surroundings) (ctx : MSyscallContext) (name : String) (n u : ℕ) (db : WebDb)
      → Undisturbed x
      → into_user_id ctx ≡ ok u
      → api_expiry (pos n) ≡ ok n
      → x.now + seconds n ≤ x.max_utc
      → (api_session_call sf uu x ctx name (pos n) db).0
        ≡ (create_web_session uu x 0 (sf.show u) (some name) (api (x.now + seconds n)) db).0
  unfolding api_session_call create_web_session
  api_session_call-row x ctx name n u db hx c a le = rw (c, a, in_time x n le, hx 0) refl

  -- A session that a user of the table makes for the API, for a number of seconds in the range that is
  -- allowed and that end no later than chrono's last date, opens the API under that user's id until the
  -- seconds have passed, and not later; a banned user is told so. The id is valid, the token that is drawn
  -- is new, and the driver refuses nothing.
  pub check_web_auth-create_api_session :
      (bad_id : String) (d : Discord) (x y : Surroundings) (ctx : MSyscallContext) (name : String)
      (n u : ℕ) (user : UserRow) (s : AuthState codes)
      → Undisturbed x
      → Undisturbed y
      → into_user_id ctx ≡ ok u
      → u < max_id
      → api_expiry (pos n) ≡ ok n
      → x.now + seconds n ≤ x.max_utc
      → user.user_id ≡ sf.show u
      → any (has_token x.sample) s.web.web_api_tokens ≡ false
      → first (λ v. str_beq v.user_id (sf.show u)) s.web.users ≡ some user
      → (check_web_auth uu sf bad_id y x.sample
          (exec sf uu codes allowed_redirects d x ctx (create_api_session name (pos n)) s).0.web).1
        ≡ ok (
            if ltb (x.now + seconds n) y.now
            then invalid_token
            else if str_beq user.state "banned"
            then api_banned u (uu.show_uuid x.new_id) "api"
            else success u (uu.show_uuid x.new_id) user.state "api")
  unfolding exec type_and_expiry
  check_web_auth-create_api_session bad_id d x y ctx name n u user s hx hy c v a le same fresh
        found =
      rw (api_session_call-row x ctx name n u s.web hx c a le, sym same)
        (check_web_auth-create_web_session uu sf bad_id x y 0 user (some name)
          (api (x.now + seconds n)) s.web u hx hy fresh
          (subst (λ i. first (λ w. str_beq w.user_id i) s.web.users ≡ some user) (sym same) found)
          (rw same (sf.parse-show u v)))
