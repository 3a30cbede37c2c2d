-- ===== src/Master/ProcessHandle/Laws.antt =====
-- The delays between the runs of a worker process.
use template_worker.Prelude.{
  ℕ, suc, ◌+◌, ◌≡◌, ◌≤◌, ◌∙◌, refl, ap, Bool, true, ◌&&◌, List, [], ◌∷◌, arith, leb, nat_beq,
  if◌then◌else◌,
}
use template_worker.Prelude.Rows.{length}
use template_worker.Master.ProcessHandle.{
  Life, not_spawned, ended, killed, WorkerProcessHandle, new, next_backoff, run, runs, max,
}

module _ {S : Type 0} where
  -- A run that is no sign of health: the process is not spawned, is killed, or ends by itself after 5
  -- seconds at most.
  unfoldable pub is_crash : Life S → Bool
  is_crash (not_spawned e) = true
  is_crash (killed r) = true
  is_crash (ended r ms) = leb ms 5000

  unfoldable pub are_crashes : List (Life S) → Bool
  unfolding is_crash
  are_crashes [] = true
  are_crashes (l ∷ ls) = is_crash l && are_crashes ls

-- The delay after a number of such runs
unfoldable pub schedule : ℕ → ℕ
schedule n =
    if nat_beq n 0
    then 0
    else if nat_beq n 1
    then 1000
    else if nat_beq n 2
    then 3000
    else if nat_beq n 3
    then 9000
    else 10000

module _ {S : Type 0} where
  run-schedule :
      (l : Life S) (h : WorkerProcessHandle S) (k : ℕ)
      → h.backoff ≡ schedule k
      → is_crash l ≡ true
      → (run l h).1.backoff ≡ schedule (suc k)
  unfolding run next_backoff schedule is_crash
  run-schedule (not_spawned e) h k q c = ground arith
  run-schedule (killed r) h k q c = ground arith
  run-schedule (ended r ms) h k q c = ground arith

  runs-schedule :
      (ls : List (Life S)) (h : WorkerProcessHandle S) (k : ℕ)
      → h.backoff ≡ schedule k
      → are_crashes ls ≡ true
      → (runs ls h).backoff ≡ schedule (k + length ls)
  unfolding runs are_crashes
  runs-schedule [] h k q c = q ∙ ap schedule (omega arith)
  runs-schedule (l ∷ ls) h k q c =
      runs-schedule ls (run l h).1 (suc k) (run-schedule l h k q (ground arith)) (ground arith)
      ∙ ap schedule (omega arith)

  runs-from_new :
      (ls : List (Life S))
      → are_crashes ls ≡ true
      → (runs ls new).backoff ≡ schedule (0 + length ls)
  unfolding schedule
  runs-from_new ls c = runs-schedule ls (new {S = S}) 0 refl c

  -- The delay before a run, after a number of runs in each of which the process was not spawned, was
  -- killed, or ended by itself after 5 seconds at most, is 0, 1, 3, 9 and then always 10 seconds.
  pub runs-crashes :
      (ls : List (Life S)) (next : Life S)
      → are_crashes ls ≡ true
      → (run next (runs ls new)).0 ≡ schedule (length ls)
  unfolding run next_backoff
  runs-crashes ls next c = runs-from_new ls c ∙ ap schedule (omega arith)

  run_bounded :
      (l : Life S) (h : WorkerProcessHandle S) → h.backoff ≤ max → (run l h).1.backoff ≤ max
  unfolding run next_backoff
  run_bounded (not_spawned e) h b = ground arith
  run_bounded (killed r) h b = ground arith
  run_bounded (ended r ms) h b = ground arith

  runs_bounded :
      (ls : List (Life S)) (h : WorkerProcessHandle S) → h.backoff ≤ max → (runs ls h).backoff ≤ max
  unfolding runs
  runs_bounded [] h b = b
  runs_bounded (l ∷ ls) h b = runs_bounded ls (run l h).1 (run_bounded l h b)

  -- Whatever the runs before were, no delay is longer than 10 seconds.
  pub delay_bounded : (ls : List (Life S)) (next : Life S) → (run next (runs ls new)).0 ≤ max
  unfolding run next_backoff
  delay_bounded ls next = runs_bounded ls (new {S = S}) (omega arith)
