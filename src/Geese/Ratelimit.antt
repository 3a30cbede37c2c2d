-- ===== src/Geese/Ratelimit.antt =====
-- src/geese/ratelimit.rs. A single keyed limiter is the crate governor's: `Governor` is its
-- interface, where asking a limiter changes it. The clock is read once for each call.
mod Laws
pub mod Examples
use template_worker.Prelude.{
  ℕ, String, ◌≡◌, refl, Option, none, some, Result, ok, err, List, [], ◌∷◌, string_eq,
}
use template_worker.Prelude.Dict.{Dict, get, insert}

-- `check_key limiter key now` answers `none` where the request is admitted.
pub record Governor (K : Type 0) : Type 1 where
  pub Limiter : Type 0
  pub NotUntil : Type 0
  pub check_key : Limiter → K → ℕ → Limiter × Option NotUntil
  pub wait_time_from : NotUntil → ℕ → ℕ

pub record RlExceeded : Type 0 where
  pub dur : ℕ
  pub bucket : String
  pub req_bucket : String

module _ {K : Type 0} (g : Governor K) where
  open g use {Limiter, NotUntil, check_key, wait_time_from}

  pub record Ratelimiter : Type 0 where
    pub global : List Limiter
    pub per_bucket : Dict String (List Limiter)

  -- `for lim in limiters { match lim.check_key(&key) { .. } }`: the first refusal ends the loop, and
  -- the limiters that were asked are changed.
  unfoldable pub check_all : List Limiter → K → ℕ → List Limiter × Option NotUntil
  check_all [] key now = ([], none)
  check_all (l ∷ ls) key now =
      let (l', answer) = check_key l key now in
      let rest = check_all ls key now in
      elim answer [ none ↦ (l' ∷ rest.0, rest.1) | some wait ↦ (l' ∷ ls, some wait) ]

  abbrev pub exceeded : String → String → ℕ → Option NotUntil → Result RlExceeded (Unit {0})
  exceeded bucket req_bucket now none = ok tt
  exceeded bucket req_bucket now (some wait) =
      err (record { dur = wait_time_from wait now; bucket = bucket; req_bucket = req_bucket })

  -- The second loop of `check`, and the whole of `sub_check`.
  unfoldable pub sub_check :
      String → K → ℕ → Ratelimiter → Ratelimiter × Result RlExceeded (Unit {0})
  unfolding check_all
  sub_check bucket key now r = elim (get bucket r.per_bucket) [
    | none ↦ (r, ok tt)
    | some limiters ↦
        let (limiters', answer) = check_all limiters key now in
        (
          record r { per_bucket = insert bucket limiters' r.per_bucket },
          exceeded bucket bucket now answer,
        )
  ]

  abbrev pub after_global :
      String → K → ℕ → Ratelimiter → Option NotUntil → Ratelimiter × Result RlExceeded (Unit {0})
  after_global bucket key now r none = sub_check bucket key now r
  after_global bucket key now r (some wait) = (r, exceeded "global" bucket now (some wait))

  unfoldable pub check : String → K → ℕ → Ratelimiter → Ratelimiter × Result RlExceeded (Unit {0})
  unfolding check_all sub_check
  check bucket key now r =
      let (global', answer) = check_all r.global key now in
      after_global bucket key now (record r { global = global' }) answer
