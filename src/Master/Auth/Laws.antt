-- ===== src/Master/Auth/Laws.antt =====
-- What the calls of src/master/syscall/auth.rs leave behind: codes are used once, and a call that
-- fails leaves the tables alone.
use template_worker.Prelude.{
  ℕ, ◌+◌, ◌≤◌, ◌<◌, ◌≡◌, ◌≢◌, refl, true, false, String, len, Option, none, err, List, [], ◌∷◌,
  arith, ltb, str_beq, is_some, Bool-cases, inl, inr, string_eq, ==_sound, ==_refl,
}
use template_worker.Worker.Tenant.{Snowflakes}
use template_worker.Master.Cache.{Cache, TimeToLive}
use template_worker.Master.Context.{MSyscallContext, auth_error, code_reuse_detected}
use template_worker.Master.Sessions.{Uuids, Surroundings}
use template_worker.Master.Auth.{
  MAuthSyscall, create_login_session, create_api_session, get_user_sessions_call, delete_session,
  Discord, AuthState, contains, exec, login_call,
}

ne-of-eq-false : (a b : String) → str_beq a b ≡ false → b ≢ a
ne-of-eq-false a b h e = ground (arith, ==_refl a)

module _ (sf : Snowflakes) (uu : Uuids) (codes : Cache String (Unit {0}))
    (allowed_redirects : List String) where
  -- The code is marked as used, from a time on, up to another.
  abbrev pub IsUsed : String → ℕ → ℕ → AuthState codes → Type 0
  IsUsed code since until s =
      (now : ℕ)
      → since ≤ now
      → now < until
      → is_some (codes.get code now s.oauth2_code_cache).1 ≡ true

  login_call-IsUsed :
      {ttl : ℕ} (h : TimeToLive codes ttl) (d : Discord) (x : Surroundings)
      (code other redirect_uri : String) (verifier : Option String) (since until : ℕ)
      (s : AuthState codes)
      → since ≤ x.now
      → x.now < until
      → IsUsed code since until s
      → IsUsed code since until
          (login_call sf uu codes allowed_redirects d x other redirect_uri verifier s).0
  unfolding login_call
  login_call-IsUsed h d x code other redirect_uri verifier since until s late early used now ge lt =
      elim (Bool-cases (str_beq other code)) [
        | inl e ↦ ground (arith, used now ge lt, used x.now late early, ==_sound other code e)
        | inr e ↦ grind (
          arith,
          used now ge lt,
          h.get-insert_other code other tt x.now now s.oauth2_code_cache
              (ne-of-eq-false other code e),
        )
      ]

  abbrev Calls : Type 0
  Calls = List (Surroundings × MSyscallContext × MAuthSyscall)

  exec-IsUsed :
      {ttl : ℕ} (h : TimeToLive codes ttl) (d : Discord) (x : Surroundings) (ctx : MSyscallContext)
      (call : MAuthSyscall) (code : String) (since until : ℕ) (s : AuthState codes)
      → since ≤ x.now
      → x.now < until
      → IsUsed code since until s
      → IsUsed code since until (exec sf uu codes allowed_redirects d x ctx call s).0
  unfolding exec
  exec-IsUsed h d x ctx (create_login_session other uri v) code since until s late early used =
      login_call-IsUsed h d x code other uri v since until s late early used
  exec-IsUsed h d x ctx (create_api_session name expiry) code since until s late early used = used
  exec-IsUsed h d x ctx get_user_sessions_call code since until s late early used = used
  exec-IsUsed h d x ctx (delete_session session_id) code since until s late early used = used

  -- Calls one after another, each with what it meets
  unfoldable pub exec_all : Discord → Calls → AuthState codes → AuthState codes
  unfolding exec
  exec_all d [] s = s
  exec_all d ((x, ctx, call) ∷ calls) s =
      exec_all d calls (exec sf uu codes allowed_redirects d x ctx call s).0

  unfoldable pub AreWithin : ℕ → ℕ → Calls → Type 0
  AreWithin since until [] = Unit {0}
  AreWithin since until ((x, ctx, call) ∷ calls) =
      (since ≤ x.now) × (x.now < until) × AreWithin since until calls

  exec_all-IsUsed :
      {ttl : ℕ} (h : TimeToLive codes ttl) (d : Discord) (calls : Calls) (code : String)
      (since until : ℕ) (s : AuthState codes)
      → AreWithin since until calls
      → IsUsed code since until s
      → IsUsed code since until (exec_all d calls s)
  unfolding exec_all AreWithin
  exec_all-IsUsed h d [] code since until s within used = used
  exec_all-IsUsed h d ((x, ctx, call) ∷ calls) code since until s within used =
      exec_all-IsUsed h d calls code since until
        (exec sf uu codes allowed_redirects d x ctx call s).0 within.2
        (exec-IsUsed h d x ctx call code since until s within.0 within.1 used)

  login_call_marks :
      (d : Discord) (x : Surroundings) (code uri : String) (verifier : Option String)
      (s : AuthState codes)
      → contains uri allowed_redirects ≡ true
      → ltb (len code) 3 ≡ false
      → (codes.get code x.now s.oauth2_code_cache).1 ≡ none
      → (login_call sf uu codes allowed_redirects d x code uri verifier s).0.oauth2_code_cache
        ≡ codes.insert code tt x.now s.oauth2_code_cache
  unfolding login_call
  login_call_marks d x code uri verifier s a l n = ground arith

  login_call_refused :
      (d : Discord) (x : Surroundings) (code uri : String) (verifier : Option String)
      (s : AuthState codes)
      → contains uri allowed_redirects ≡ true
      → ltb (len code) 3 ≡ false
      → is_some (codes.get code x.now s.oauth2_code_cache).1 ≡ true
      → login_call sf uu codes allowed_redirects d x code uri verifier s
        ≡ (s, err (auth_error code_reuse_detected))
  unfolding login_call
  login_call_refused d x code uri verifier s a l u = ground arith

  -- A code that a login has sent to Discord is refused for as long as the cache keeps it, whatever
  -- that login came to and whichever calls were made since: a second login with it, to an allowed
  -- redirect URI, changes nothing, and asks Discord nothing, as its answer is the same for every
  -- `d'`. The code has three bytes at least, and the cache keeps an entry for `ttl`.
  pub login_call-login_call :
      {ttl : ℕ} (h : TimeToLive codes ttl) (d d' : Discord) (x y : Surroundings)
      (code uri uri' : String) (verifier verifier' : Option String) (calls : Calls)
      (s : AuthState codes)
      → contains uri allowed_redirects ≡ true
      → contains uri' allowed_redirects ≡ true
      → ltb (len code) 3 ≡ false
      → (codes.get code x.now s.oauth2_code_cache).1 ≡ none
      → AreWithin x.now (x.now + ttl) calls
      → x.now ≤ y.now
      → y.now < x.now + ttl
      → let used =
          exec_all d calls (login_call sf uu codes allowed_redirects d x code uri verifier s).0 in
        login_call sf uu codes allowed_redirects d' y code uri' verifier' used
        ≡ (used, err (auth_error code_reuse_detected))
  login_call-login_call {ttl} h d d' x y code uri uri' verifier verifier' calls s a a' l n within ge
        lt =
      let after = (login_call sf uu codes allowed_redirects d x code uri verifier s).0 in
      login_call_refused d' y code uri' verifier' (exec_all d calls after) a' l (
        exec_all-IsUsed h d calls code x.now (x.now + ttl) after within
          (λ now le before.
            rw
              (
                login_call_marks d x code uri verifier s a l n,
                h.get-insert code tt x.now now s.oauth2_code_cache le before,
              )
              refl)
          y.now ge lt)
