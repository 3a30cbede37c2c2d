-- ===== src/Master/Pool/Examples.antt =====
-- A pool of two workers, of which one has died.
use template_worker.Prelude.{◌≡◌, ◌||◌, refl, true, false, arith, [], nat_beq}
use template_worker.Prelude.Rows.{any}
use template_worker.Master.Pool.{
  WorkerPool, new, exit, take, restart, shutdown_all, exits, takes, restarts, shuts_down, Reaches,
  here, further,
}
use template_worker.Master.Pool.Laws.{Reaches-covered, Reaches-running, is_restarting}

runs : (new 2).running 1 ≡ true
unfolding new
runs = refl

died : Reaches 2 (new 2) (exit 1 (new 2))
died = further (here (new 2)) (exits (new 2) 1 (omega arith) runs)

open_yet : (exit 1 (new 2)).is_shutting_down ≡ false
unfolding new
open_yet = refl

Reaches-covered_example :
    ((exit 1 (new 2)).running 1
      || any (nat_beq 1) (exit 1 (new 2)).dead
      || is_restarting 1 (exit 1 (new 2)).supervisor)
    ≡ true
Reaches-covered_example = Reaches-covered 1 (exit 1 (new 2)) (omega arith) died open_yet

Reaches-running_example : (q : WorkerPool) × Reaches 2 (exit 1 (new 2)) q × (q.running 1 ≡ true)
Reaches-running_example = Reaches-running 1 (exit 1 (new 2)) (omega arith) died open_yet

-- A shutdown between the look at the flag and the restart leaves a worker running, with a kill switch
-- that nothing takes any more.
abbrev missed : WorkerPool
missed = restart 1 (shutdown_all (take 1 [] (exit 1 (new 2))))

missed_reached : Reaches 2 (new 2) missed
unfolding new
missed_reached =
    further
      (further (further died (takes (exit 1 (new 2)) 1 [] refl refl))
        (shuts_down (take 1 [] (exit 1 (new 2)))))
      (restarts (shutdown_all (take 1 [] (exit 1 (new 2)))) 1 refl)

missed_runs : (missed.running 1 ≡ true) × (missed.is_shutting_down ≡ true)
missed_runs = (refl, refl)
