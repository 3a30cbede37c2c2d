-- ===== src/Master/ProcessHandle/Examples.antt =====
-- A worker that crashes twice.
use template_worker.Prelude.{ℕ, ◌≡◌, refl, true, ok, List, [], ◌∷◌}
use template_worker.Master.ProcessHandle.{Life, not_spawned, ended, run, runs, new}
use template_worker.Master.ProcessHandle.Laws.{is_crash, are_crashes, schedule, runs-crashes}

abbrev crashes : List (Life ℕ)
crashes = not_spawned "no such file" ∷ ended (ok 1) 5000 ∷ []

all_crashes : are_crashes crashes ≡ true
unfolding are_crashes is_crash
all_crashes = refl

runs-crashes_example : (run (ended (ok 0) 9000) (runs crashes new)).0 ≡ schedule 2
runs-crashes_example = runs-crashes crashes (ended (ok 0) 9000) all_crashes
