-- ===== src/Master/Pool/Laws.antt =====
-- No worker of the pool is lost, and a dead one comes back.
use template_worker.Prelude.{
  ℕ, ◌<◌, ◌≡◌, refl, Bool, true, false, ◌||◌, List, [], ◌∷◌, nat_beq, arith, Bool-cases, inl, inr,
}
use template_worker.Prelude.Rows.{any, any-append}
use template_worker.Master.Pool.{
  WorkerPool, Supervisor, waiting, restarting, stopped, new, take, restart, Step, exits, takes,
  restarts, shuts_down, Reaches, here, further,
}

unfoldable pub is_restarting : ℕ → Supervisor → Bool
is_restarting id (restarting j) = nat_beq j id
is_restarting id _ = false

unfoldable pub is_stopped : Supervisor → Bool
is_stopped stopped = true
is_stopped _ = false

-- The worker runs, or its death is on its way to the supervisor, or it is being started again, or the
-- supervisor has ended.
unfoldable pub is_covered : ℕ → WorkerPool → Bool
unfolding any is_restarting is_stopped
is_covered id p =
    p.running id
    || any (nat_beq id) p.dead
    || is_restarting id p.supervisor
    || is_stopped p.supervisor

Step-covered :
    {n : ℕ} (id : ℕ) (p q : WorkerPool)
    → Step n p q
    → is_covered id p ≡ true
    → is_covered id q ≡ true
unfolding is_covered any is_restarting is_stopped
Step-covered id _ _ (exits p j lt r) h = ground (arith, any-append (nat_beq id) p.dead (j ∷ []))
Step-covered id _ _ (takes p j rest w d) h = elim (Bool-cases p.is_shutting_down) [
  | inl s ↦ ground arith
  | inr s ↦ ground arith
]
Step-covered id _ _ (restarts p j s) h = ground arith
Step-covered id _ _ (shuts_down p) h = h

Step-stopped :
    {n : ℕ} (p q : WorkerPool)
    → Step n p q
    → (is_stopped p.supervisor ≡ true → p.is_shutting_down ≡ true)
    → is_stopped q.supervisor ≡ true
    → q.is_shutting_down ≡ true
unfolding is_stopped
Step-stopped _ _ (exits p j lt r) h e = h e
Step-stopped _ _ (takes p j rest w d) h e = ground arith
Step-stopped _ _ (restarts p j s) h e = absurd (ground arith)
Step-stopped _ _ (shuts_down p) h e = refl

keeps_covered :
    {n : ℕ} (id : ℕ) (p q : WorkerPool)
    → Reaches n p q
    → is_covered id p ≡ true
    → is_covered id q ≡ true
keeps_covered id _ _ (here p) h = h
keeps_covered id p _ (further {q = q} {r = r} run s) h =
    Step-covered id q r s (keeps_covered id p q run h)

keeps_stopped :
    {n : ℕ} (p q : WorkerPool)
    → Reaches n p q
    → (is_stopped p.supervisor ≡ true → p.is_shutting_down ≡ true)
    → is_stopped q.supervisor ≡ true
    → q.is_shutting_down ≡ true
keeps_stopped _ _ (here p) h = h
keeps_stopped p _ (further {q = q} {r = r} run s) h = Step-stopped q r s (keeps_stopped p q run h)

all_covered :
    {n : ℕ} (id : ℕ) (p : WorkerPool) → id < n → Reaches n (new n) p → is_covered id p ≡ true
unfolding new is_covered
all_covered {n} id p lt run = keeps_covered id (new n) p run (ground arith)

stopped_late :
    {n : ℕ} (p : WorkerPool)
    → Reaches n (new n) p
    → is_stopped p.supervisor ≡ true
    → p.is_shutting_down ≡ true
unfolding new is_stopped
stopped_late {n} p run = keeps_stopped (new n) p run (λ e. absurd (ground arith))

-- Until the pool is shut down, every worker of the pool runs, or its death is in the channel, or the
-- supervisor is starting it again, whatever has happened since the pool was made: no worker is lost.
pub Reaches-covered :
    {n : ℕ} (id : ℕ) (p : WorkerPool)
    → id < n
    → Reaches n (new n) p
    → p.is_shutting_down ≡ false
    → (p.running id || any (nat_beq id) p.dead || is_restarting id p.supervisor) ≡ true
unfolding is_covered
Reaches-covered id p lt run s = ground (arith, all_covered id p lt run, stopped_late p run)

Reaches-trans : {n : ℕ} {p q r : WorkerPool} → Reaches n p q → Reaches n q r → Reaches n p r
Reaches-trans a (here _) = a
Reaches-trans a (further b s) = further (Reaches-trans a b) s

-- A death is handled: its message is taken, and the worker is started.
handled :
    {n : ℕ} (j : ℕ) (rest : List ℕ) (p : WorkerPool)
    → p.supervisor ≡ waiting
    → p.is_shutting_down ≡ false
    → p.dead ≡ j ∷ rest
    → Reaches n p (restart j (take j rest p))
handled j rest p w s d =
    further (further (here p) (takes p j rest w d)) (restarts (take j rest p) j (ground arith))

drain :
    {n : ℕ} (id : ℕ) (ds : List ℕ) (p : WorkerPool)
    → p.dead ≡ ds
    → p.supervisor ≡ waiting
    → p.is_shutting_down ≡ false
    → any (nat_beq id) ds ≡ true
    → (q : WorkerPool) × Reaches n p q × (q.running id ≡ true)
unfolding any
drain id [] p d w s h = absurd (ground arith)
drain id (j ∷ rest) p d w s h = elim (Bool-cases (nat_beq id j)) [
  | inl e ↦ (restart j (take j rest p), handled j rest p w s d, ground arith)
  | inr e ↦
      let (q, run, up) = drain id rest (restart j (take j rest p)) refl refl s (ground arith) in
      (q, Reaches-trans (handled j rest p w s d) run, up)
]

settle :
    {n : ℕ} (id : ℕ) (p : WorkerPool) (sup : Supervisor)
    → p.supervisor ≡ sup
    → is_stopped sup ≡ false
    → p.is_shutting_down ≡ false
    → (p.running id || any (nat_beq id) p.dead || is_restarting id p.supervisor) ≡ true
    → (q : WorkerPool) × Reaches n p q × (q.running id ≡ true)
unfolding is_restarting is_stopped
settle id p waiting w t s h = elim (Bool-cases (p.running id)) [
  | inl e ↦ (p, here p, e)
  | inr e ↦ drain id p.dead p refl w s (ground arith)
]
settle id p (restarting j) w t s h =
    let again : WorkerPool = restart j p in
    let step : Reaches _ p again = further (here p) (restarts p j w) in
    elim (Bool-cases (again.running id)) [
      | inl e ↦ (again, step, e)
      | inr e ↦
          let (q, run, up) = drain id p.dead again refl refl s (ground arith) in
          (q, Reaches-trans step run, up)
    ]
settle id p stopped w t s h = absurd (ground arith)

-- A dead worker comes back: from every state that the pool can come to and in which it is not shut down,
-- steps lead to one in which the worker runs.
pub Reaches-running :
    {n : ℕ} (id : ℕ) (p : WorkerPool)
    → id < n
    → Reaches n (new n) p
    → p.is_shutting_down ≡ false
    → (q : WorkerPool) × Reaches n p q × (q.running id ≡ true)
Reaches-running id p lt run s =
    settle id p p.supervisor refl (ground (arith, stopped_late p run)) s
      (Reaches-covered id p lt run s)
