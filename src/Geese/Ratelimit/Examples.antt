-- ===== src/Geese/Ratelimit/Examples.antt =====
-- The limiters at concrete requests: a limiter is the number of requests that it still admits.
use template_worker.Prelude.{
  ℕ, zero, suc, ◌+◌, ◌-◌, ◌≡◌, refl, Option, none, some, ok, err, [], ◌∷◌, string_eq,
}
use template_worker.Prelude.Dict.{get, insert}
use template_worker.Geese.Ratelimit.{Governor, Ratelimiter, check_all, sub_check, check}
use template_worker.Geese.Ratelimit.Laws.{check-ok_iff, check_shields_buckets, sub_check-check}

abbrev pub take_one : ℕ → ℕ → ℕ → ℕ × Option ℕ
take_one zero key now = (0, some (now + 5))
take_one (suc n) key now = (n, none)

abbrev pub counting : Governor ℕ
counting = record {
  Limiter = ℕ;
  NotUntil = ℕ;
  check_key = take_one;
  wait_time_from = λ until now. until - now;
}

abbrev limits : Ratelimiter counting
limits = record { global = 1 ∷ 2 ∷ []; per_bucket = ("a", 1 ∷ []) ∷ ("b", 0 ∷ []) ∷ [] }

abbrev spent : Ratelimiter counting
spent = record limits { global = 1 ∷ 0 ∷ [] }

check_a : (check counting "a" 7 100 limits).0.per_bucket ≡ ("a", 0 ∷ []) ∷ ("b", 0 ∷ []) ∷ []
unfolding check insert get
check_a = refl

check-ok_iff_example : (check counting "a" 7 100 limits).1 ≡ ok tt
unfolding get
check-ok_iff_example = (check-ok_iff counting 7 100 "a" limits).1 ((refl, (refl, tt)), (refl, tt))

check_shields_buckets_example :
    ((check counting "a" 7 100 spent).0.per_bucket ≡ spent.per_bucket)
    × ((check counting "a" 7 100 spent).1
        ≡ err (record { dur = 5; bucket = "global"; req_bucket = "a" }))
unfolding check_all
check_shields_buckets_example = check_shields_buckets counting 7 100 "a" spent 105 refl

sub_check-check_example :
    ((sub_check counting "b" 7 100 limits).0.global ≡ limits.global)
    × ((sub_check counting "b" 7 100 limits).1 ≡ (check counting "b" 7 100 limits).1)
    × ((sub_check counting "b" 7 100 limits).0.per_bucket
        ≡ (check counting "b" 7 100 limits).0.per_bucket)
sub_check-check_example = sub_check-check counting 7 100 "b" limits (refl, (refl, tt))
