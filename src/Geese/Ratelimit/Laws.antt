-- ===== src/Geese/Ratelimit/Laws.antt =====
-- When a request is admitted, and which limiters a request touches.
use template_worker.Prelude.{
  ℕ, String, ◌≡◌, ◌≢◌, ◌↔◌, inl, inr, refl, Option, none, some, ok, err, List, [], ◌∷◌, string_eq,
  arith, eq_iff, Option-cases,
}
use template_worker.Prelude.Dict.{get, get-insert}
use template_worker.Geese.Ratelimit.{Governor, Ratelimiter, check_all, sub_check, check}

module _ {K : Type 0} (g : Governor K) (key : K) (now : ℕ) where
  -- Every limiter of the list admits a request made now.
  abbrev pub AllAdmit : List g.Limiter → Type 0
  AllAdmit [] = Unit
  AllAdmit (l ∷ ls) = ((g.check_key l key now).1 ≡ none) × AllAdmit ls

  check_all-AllAdmit : (ls : List g.Limiter) → (check_all g ls key now).1 ≡ none → AllAdmit ls
  unfolding check_all
  check_all-AllAdmit [] h = tt
  check_all-AllAdmit (l ∷ ls) h = ground (arith, check_all-AllAdmit ls)

  AllAdmit-check_all : (ls : List g.Limiter) → AllAdmit ls → (check_all g ls key now).1 ≡ none
  unfolding check_all
  AllAdmit-check_all [] h = refl
  AllAdmit-check_all (l ∷ ls) h = ground (arith, AllAdmit-check_all ls h.1)

  abbrev bucket_limiters : Option (List g.Limiter) → List g.Limiter
  bucket_limiters none = []
  bucket_limiters (some ls) = ls

  module _ (bucket : String) (r : Ratelimiter g) where
    -- A request is admitted exactly when every global limiter and every limiter of its bucket admits it.
    pub check-ok_iff :
        ((check g bucket key now r).1 ≡ ok tt)
        ↔ (AllAdmit r.global × AllAdmit (bucket_limiters (get bucket r.per_bucket)))
    unfolding check sub_check
    check-ok_iff = elim (Option-cases (get bucket r.per_bucket)) [
      | inl e ↦ (
        λ h. (check_all-AllAdmit r.global (ground arith), rw e tt),
        λ h. ground (arith, AllAdmit-check_all r.global h.0),
      )
      | inr (ls, e) ↦ (
        λ h. (
          check_all-AllAdmit r.global (ground arith),
          rw e (check_all-AllAdmit ls (ground arith)),
        ),
        λ h. ground (arith, AllAdmit-check_all r.global h.0, AllAdmit-check_all ls (rw e at (h.1))),
      )
    ]

    -- A refusal by a global limiter leaves the limiters of every bucket alone, and says so.
    pub check_shields_buckets :
        (w : g.NotUntil)
        → (check_all g r.global key now).1 ≡ some w
        → ((check g bucket key now r).0.per_bucket ≡ r.per_bucket)
          × ((check g bucket key now r).1
              ≡ err
                  (record { dur = g.wait_time_from w now; bucket = "global"; req_bucket = bucket }))
    unfolding check
    check_shields_buckets w h = ground arith

    -- `sub_check` never asks a global limiter, and answers as `check` does where the global limiters admit the request.
    pub sub_check-check :
        AllAdmit r.global
        → ((sub_check g bucket key now r).0.global ≡ r.global)
          × ((sub_check g bucket key now r).1 ≡ (check g bucket key now r).1)
          × ((sub_check g bucket key now r).0.per_bucket ≡ (check g bucket key now r).0.per_bucket)
    unfolding check sub_check
    sub_check-check h = ground (arith, AllAdmit-check_all r.global h)

    -- A request in one bucket leaves the limiters of every other bucket alone.
    pub check_keeps_other_buckets :
        (j : String)
        → bucket ≢ j
        → get j (check g bucket key now r).0.per_bucket ≡ get j r.per_bucket
    unfolding check sub_check
    check_keeps_other_buckets j h =
        let asked = (check_all g r.global key now).0 in
        elim (Option-cases (get bucket r.per_bucket)) [
          | inl e ↦ ground arith
          | inr (ls, e) ↦
              ground (
                arith,
                get-insert bucket j (check_all g ls key now).0 r.per_bucket,
                eq_iff bucket j,
              )
        ]
