-- ===== src/Worker/Tenant/Examples.antt =====
-- A concrete `Snowflakes`, which writes an id as a row of ones.
use template_worker.Prelude.{ℕ, zero, suc, ◌/◌, ◌%◌, ◌^◌, ◌<◌, ◌≡◌, refl, ap, String, some}
use template_worker.Worker.Tenant.{max_id, Snowflakes}

abbrev pub ones : ℕ → String
ones zero = String.[]
ones (suc n) = String.◌∷◌ "1" (ones n)

abbrev pub count_chars : String → ℕ
count_chars String.[] = 0
count_chars (String.◌∷◌ c s) = suc (count_chars s)

count_chars-ones : (n : ℕ) → count_chars (ones n) ≡ n
count_chars-ones zero = refl
count_chars-ones (suc n) = ap suc (count_chars-ones n)

pub parse-show : (n : ℕ) → n < max_id → some (count_chars (ones n)) ≡ some n
parse-show n h = ap some (count_chars-ones n)

abbrev pub unary : Snowflakes
unary = record {
  show = ones;
  parse = λ s. some (count_chars s);
  worker_id_for_tenant = λ n num_workers. n / 2 ^ 22 % num_workers;
  parse-show = parse-show;
}
