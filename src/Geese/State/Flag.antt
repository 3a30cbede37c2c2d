-- ===== src/Geese/State/Flag.antt =====
-- `do_op` says truly whether it changed the state of the tenant.
use template_worker.Prelude.{
  ℕ, suc, ◌≡◌, ◌∙◌, refl, sym, Bool, true, ok, List, [], ◌∷◌, arith, inl, inr, Result-cases,
  if◌then◌else◌,
}
use template_worker.Worker.Tenant.{TenantId}
use template_worker.Geese.TenantState.{StateTables}
use template_worker.Geese.State.Ops.{StateOp, StateDbFlags}
use template_worker.Geese.State.Tables.{World, Db, StateExecResponse}
use template_worker.Geese.State.Exec.{apply_op, call_at, apply_ops, do_op, Request, empty_response}
use template_worker.Geese.State.Changes.{has_state, keeps_key, Step, apply_op-Step}

module _ {V J : Type 0} (w : World V J) (tid : TenantId) (flags : StateDbFlags) (rq : Request) where
  Step-trans :
      (a b c : StateTables) (p q r : Bool)
      → Step w tid a p b q
      → Step w tid b q c r
      → Step w tid a p c r
  Step-trans a b c p q r (key, first) (key', second) = (
    key',
    elim second [
      | inr later ↦ inr later
      | inl (same, rows) ↦ elim first [
        | inl (same', rows') ↦ inl (same ∙ same', rows ∙ rows')
        | inr (changed, there) ↦ inr (same ∙ changed, rw rows there)
      ]
    ],
  )

  apply_ops-Step :
      (i : ℕ) (ops : List (StateOp V)) (db : Db J) (resp resp' : StateExecResponse V)
      → keeps_key db.states ≡ true
      → (apply_ops w tid flags rq i ops db resp).1 ≡ ok resp'
      → Step w tid db.states resp.tenant_state_changed
          (apply_ops w tid flags rq i ops db resp).0.states
          resp'.tenant_state_changed
  unfolding apply_ops
  apply_ops-Step i [] db resp resp' key h = (key, inl (ground arith, refl))
  apply_ops-Step i (op ∷ ops) db resp resp' key h =
      let out = apply_op w (call_at w tid flags rq i) op db resp in
      elim (Result-cases out.1) [
        | inr (e, q) ↦ absurd (ground (arith, q))
        | inl (r, q) ↦
            let one = apply_op-Step w tid flags rq i op db resp r key q in
            let rest = apply_ops-Step (suc i) ops out.0 r resp' one.0 (rw (q, apply_ops) at h) in
            rw (q, apply_ops)
              (Step-trans db.states out.0.states
                (apply_ops w tid flags rq (suc i) ops out.0 r).0.states resp.tenant_state_changed
                r.tenant_state_changed resp'.tenant_state_changed one rest)
      ]

  do_op-runs :
      (ops : List (StateOp V)) (db : Db J) (resp : StateExecResponse V)
      → (do_op w tid ops flags rq db).1 ≡ ok resp
      → (r : StateExecResponse V) × ((apply_ops w tid flags rq 0 ops db empty_response).1 ≡ ok r)
        × (r.tenant_state_changed ≡ resp.tenant_state_changed)
        × ((do_op w tid ops flags rq db).0 ≡ (apply_ops w tid flags rq 0 ops db empty_response).0)
  unfolding do_op
  do_op-runs ops db resp h =
      let out = apply_ops w tid flags rq 0 ops db empty_response in
      elim (Result-cases out.1) [
        | inr (e, q) ↦ absurd (ground (arith, q))
        | inl (r, q) ↦ (r, q, ground (arith, q), ground (arith, q))
      ]

  -- Operations that are answered keep the foreign key of the event rows. If they say that they changed no state, the tables of states are as they were; if they say that they changed the state, the tenant has one.
  pub do_op-Step :
      (ops : List (StateOp V)) (db : Db J) (resp : StateExecResponse V)
      → keeps_key db.states ≡ true
      → (do_op w tid ops flags rq db).1 ≡ ok resp
      → (keeps_key (do_op w tid ops flags rq db).0.states ≡ true)
        × (if resp.tenant_state_changed
            then has_state w tid (do_op w tid ops flags rq db).0.states ≡ true
            else (do_op w tid ops flags rq db).0.states ≡ db.states)
  do_op-Step ops db resp key h =
      let (r, ran, flag, tables) = do_op-runs ops db resp h in
      let (kept, step) = apply_ops-Step 0 ops db empty_response r key ran in
      (
        rw tables kept,
        elim step [
          | inl (same, rows) ↦ rw (sym flag ∙ same) (rw tables rows)
          | inr (changed, there) ↦ rw (sym flag ∙ changed) (rw tables there)
        ],
      )
