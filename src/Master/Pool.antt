-- ===== src/Master/Pool.antt =====
-- src/master/workerpool.rs: the supervisor of the worker processes, as steps. A worker process is the
-- task that runs it, `WorkerProcessHandle::run`; its death is a message to the supervisor. The flag for
-- the shutdown is read when a message is taken, and the worker is started again in a later step, so
-- that a shutdown may come in between.
pub mod Laws
pub mod Examples
use template_worker.Prelude.{
  ℕ, ◌<◌, ◌≡◌, Bool, true, false, List, [], ◌∷◌, ◌++◌, nat_beq, ltb, if◌then◌else◌,
}

-- Where the supervisor's loop is
pub data Supervisor : Type 0 where
  waiting : Supervisor
  restarting : ℕ → Supervisor
  stopped : Supervisor

-- `running id` is whether the task of a worker runs, `kill_switches id` whether its switch is there;
-- `dead` is the channel to the supervisor.
pub record WorkerPool : Type 0 where
  pub running : ℕ → Bool
  pub kill_switches : ℕ → Bool
  pub dead : List ℕ
  pub is_shutting_down : Bool
  pub supervisor : Supervisor

abbrev pub set : ℕ → Bool → (ℕ → Bool) → ℕ → Bool
set id b f j = if nat_beq j id then b else f j

-- `new`: the workers 0 to n - 1 are started.
unfoldable pub new : ℕ → WorkerPool
new n = record {
  running = λ id. ltb id n;
  kill_switches = λ id. ltb id n;
  dead = [];
  is_shutting_down = false;
  supervisor = waiting;
}

-- The task of a worker ends, killed or not, and says so.
abbrev pub exit : ℕ → WorkerPool → WorkerPool
exit id p = record p { running = set id false p.running; dead = p.dead ++ id ∷ [] }

-- The supervisor takes a message: it ends the loop, or goes on to start the worker again.
abbrev pub take : ℕ → List ℕ → WorkerPool → WorkerPool
take id rest p = record p {
  dead = rest;
  supervisor = if p.is_shutting_down then stopped else restarting id;
}

-- The new handle and kill switch, and the new task
abbrev pub restart : ℕ → WorkerPool → WorkerPool
restart id p = record p {
  running = set id true p.running;
  kill_switches = set id true p.kill_switches;
  supervisor = waiting;
}

-- `shutdown_all`: the flag, then every switch that is there is taken and sent on.
abbrev pub shutdown_all : WorkerPool → WorkerPool
shutdown_all p = record p { is_shutting_down = true; kill_switches = λ id. false }

-- The steps in a pool of `n` workers
pub data Step (n : ℕ) : WorkerPool → WorkerPool → Type 0 where
  exits : (p : WorkerPool) (id : ℕ) → id < n → p.running id ≡ true → Step n p (exit id p)
  takes :
      (p : WorkerPool) (id : ℕ) (rest : List ℕ)
      → p.supervisor ≡ waiting
      → p.dead ≡ id ∷ rest
      → Step n p (take id rest p)
  restarts : (p : WorkerPool) (id : ℕ) → p.supervisor ≡ restarting id → Step n p (restart id p)
  shuts_down : (p : WorkerPool) → Step n p (shutdown_all p)

pub data Reaches (n : ℕ) : WorkerPool → WorkerPool → Type 0 where
  here : (p : WorkerPool) → Reaches n p p
  further : {p q r : WorkerPool} → Reaches n p q → Step n q r → Reaches n p r
