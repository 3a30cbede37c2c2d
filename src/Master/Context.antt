-- ===== src/Master/Context.antt =====
-- src/master/syscall/mod.rs: who makes a call to the master, its errors, and the limits on users.
use template_worker.Prelude.{ℕ, String, Bool, true, false, Result, ok, err, map_err}
use template_worker.Prelude.Actions.{Action, pure}
use template_worker.Geese.Ratelimit.{Governor, Ratelimiter, RlExceeded, check, sub_check}

-- A user id is the number that `UserId` holds (crate dapi).
pub data MSyscallContext : Type 0 where
  api_anon api_anon_getter : MSyscallContext
  api_oauth api_token api_secure : ℕ → MSyscallContext
  shell_anon : MSyscallContext
  shell_with_user : ℕ → MSyscallContext

-- `AuthError` of src/master/syscall/auth.rs
pub data AuthError : Type 0 where
  invalid_redirect_uri code_too_short code_reuse_detected needed_scopes_not_found
        expiry_time_out_of_range :
      AuthError

pub data MSyscallError : Type 0 where
  generic : String → MSyscallError
  invalid_event : String → MSyscallError
  context_insecure context_requires_user context_requires_oauth bot_not_on_guild
        user_oauth2_needed :
      MSyscallError
  auth_error : AuthError → MSyscallError
  unauthorized entity_not_found : String → MSyscallError
  -- `retry_after`, `bucket`, `req_bucket`
  ratelimited : ℕ → String → String → MSyscallError

-- How a call ends before its end: an error is returned, or it panics, which gives no answer.
pub data Stop : Type 0 where
  returned : MSyscallError → Stop
  panicked : Stop

abbrev pub returning : {S A : Type 0} → Action S MSyscallError A → Action S Stop A
returning m s = let (s', r) = m s in (s', map_err returned r)

unfoldable pub is_secure : MSyscallContext → Bool
is_secure (api_secure u) = true
is_secure shell_anon = true
is_secure (shell_with_user u) = true
is_secure _ = false

unfoldable pub is_anon_getter : MSyscallContext → Bool
is_anon_getter api_anon_getter = true
is_anon_getter _ = false

unfoldable pub is_oauth : MSyscallContext → Bool
is_oauth (api_oauth u) = true
is_oauth _ = false

unfoldable pub is_shell : MSyscallContext → Bool
is_shell shell_anon = true
is_shell (shell_with_user u) = true
is_shell _ = false

unfoldable pub into_user_id : MSyscallContext → Result MSyscallError ℕ
into_user_id (api_oauth u) = ok u
into_user_id (api_token u) = ok u
into_user_id (api_secure u) = ok u
into_user_id (shell_with_user u) = ok u
into_user_id _ = err context_requires_user

-- `From<RlExceeded>`, written out at both limits; the wait is kept as the clock's number.
abbrev pub ratelimited_by : RlExceeded → MSyscallError
ratelimited_by e = ratelimited e.dur e.bucket e.req_bucket

module _ (g : Governor ℕ) where
  abbrev counted :
      Ratelimiter g × Result RlExceeded (Unit {0}) → Ratelimiter g × Result MSyscallError (Unit {0})
  counted (rl, r) = (rl, map_err ratelimited_by r)

  -- Only users of the API are counted.
  unfoldable pub limit :
      MSyscallContext → String → ℕ → Action (Ratelimiter g) MSyscallError (Unit {0})
  limit (api_oauth u) op now rl = counted (check g op u now rl)
  limit (api_token u) op now rl = counted (check g op u now rl)
  limit _ op now rl = pure tt rl

  unfoldable pub sub_limit :
      MSyscallContext → String → ℕ → Action (Ratelimiter g) MSyscallError (Unit {0})
  sub_limit (api_oauth u) op now rl = counted (sub_check g op u now rl)
  sub_limit _ op now rl = pure tt rl
