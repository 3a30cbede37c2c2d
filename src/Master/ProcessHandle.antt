-- ===== src/Master/ProcessHandle.antt =====
-- src/master/workerprocesshandle.rs: one run of a worker process, and the delay before the next.
pub mod Laws
pub mod Examples
use template_worker.Prelude.{
  ℕ, ◌+◌, ◌*◌, ◌/◌, ◌%◌, ◌^◌, Bool, true, false, String, Option, none, some, Result, ok, err, List,
  [], ◌∷◌, nat_beq, ltb, if◌then◌else◌,
}

-- INITIAL, STEP and MAX of `ExpBackoff`, in milliseconds
abbrev pub initial : ℕ
initial = 0

abbrev pub step : ℕ
step = 1000

abbrev pub max : ℕ
max = 10000

-- The product is one of `u32`s.
unfoldable pub next_backoff : ℕ → ℕ × ℕ
next_backoff current =
    let tripled = current * 3 % 2 ^ 32 in
    (current, (if nat_beq current 0 then step else if ltb max tripled then max else tripled))

-- `S` is the exit status of a process; an error is its text.
pub data WorkerProcessStatus (S : Type 0) : Type 0 where
  starting ready : WorkerProcessStatus S
  errored : String → Bool → WorkerProcessStatus S
  exited : Option S → WorkerProcessStatus S

pub record WorkerProcessHandle (S : Type 0) : Type 0 where
  pub status : WorkerProcessStatus S
  pub backoff : ℕ

-- What happens to one process: it is not spawned, it ends by itself after some
-- milliseconds, or it is killed.
pub data Life (S : Type 0) : Type 0 where
  not_spawned : String → Life S
  ended : Result String S → ℕ → Life S
  killed : Result String (Unit {0}) → Life S

abbrev pub new : {S : Type 0} → WorkerProcessHandle S
new = record { status = starting; backoff = initial }

module _ {S : Type 0} where
  abbrev waited : Result String S → WorkerProcessStatus S
  waited (ok s) = exited (some s)
  waited (err e) = errored e false

  abbrev after_kill : Result String (Unit {0}) → WorkerProcessStatus S
  after_kill (ok u) = exited none
  after_kill (err e) = errored e false

  -- The status and the backoff when `run` returns, where it set the backoff `next` at first;
  -- `as_secs()` counts the full seconds.
  abbrev end : Life S → ℕ → WorkerProcessHandle S
  end (not_spawned e) next = record { status = errored e true; backoff = next }
  end (killed r) next = record { status = after_kill r; backoff = next }
  end (ended r ms) next = record {
    status = waited r;
    backoff = (if ltb 5 (ms / 1000) then initial else next);
  }

  -- The delay before the process is spawned, and the handle after the run
  unfoldable pub run : Life S → WorkerProcessHandle S → ℕ × WorkerProcessHandle S
  unfolding next_backoff
  run life h = let (delay_ms, next) = next_backoff h.backoff in (delay_ms, end life next)

  -- One run after another
  unfoldable pub runs : List (Life S) → WorkerProcessHandle S → WorkerProcessHandle S
  unfolding run
  runs [] h = h
  runs (l ∷ ls) h = runs ls (run l h).1
