-- ===== src/Geese/State/Induction.antt =====
-- What every operation keeps of the database, a list of operations keeps.
use template_worker.Prelude.{ℕ, suc, ◌≡◌, ◌⊎◌, inl, inr, List, [], ◌∷◌, arith, Result-cases}
use template_worker.Worker.Tenant.{TenantId}
use template_worker.Geese.State.Ops.{StateOp, StateDbFlags}
use template_worker.Geese.State.Tables.{World, Db, StateExecResponse}
use template_worker.Geese.State.Exec.{apply_op, call_at, apply_ops, do_op, Request, empty_response}

-- The tables are the old ones, or what the loop over the operations made of them.
do_op-cases :
    {V J : Type 0} (w : World V J) (tid : TenantId) (flags : StateDbFlags) (rq : Request)
    (ops : List (StateOp V)) (db : Db J)
    → ((do_op w tid ops flags rq db).0 ≡ db)
      ⊎ ((do_op w tid ops flags rq db).0 ≡ (apply_ops w tid flags rq 0 ops db empty_response).0)
unfolding do_op
do_op-cases w tid flags rq ops db = ground arith

module _ {V J : Type 0} (w : World V J) (tid : TenantId) (flags : StateDbFlags) (rq : Request)
    (P : Db J → Type 0)
    (step : (i : ℕ) (op : StateOp V) (db : Db J) (resp : StateExecResponse V)
      → P db
      → P (apply_op w (call_at w tid flags rq i) op db resp).0) where
  apply_ops_induction :
      (i : ℕ) (ops : List (StateOp V)) (db : Db J) (resp : StateExecResponse V)
      → P db
      → P (apply_ops w tid flags rq i ops db resp).0
  unfolding apply_ops
  apply_ops_induction i [] db resp h = h
  apply_ops_induction i (op ∷ ops) db resp h =
      let out = apply_op w (call_at w tid flags rq i) op db resp in
      elim (Result-cases out.1) [
        | inr (e, q) ↦ rw (q, apply_ops) (step i op db resp h)
        | inl (r, q) ↦
            rw (q, apply_ops) (apply_ops_induction (suc i) ops out.0 r (step i op db resp h))
      ]

  pub do_op_induction :
      (ops : List (StateOp V)) (db : Db J) → P db → P (do_op w tid ops flags rq db).0
  do_op_induction ops db h = elim (do_op-cases w tid flags rq ops db) [
    | inl e ↦ rw e h
    | inr e ↦ rw e (apply_ops_induction 0 ops db empty_response h)
  ]
