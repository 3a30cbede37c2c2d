-- ===== src/Geese/State/Fast.antt =====
-- Running operations on the worker gives what the master would have answered.
use template_worker.Prelude.{
  ℕ, suc, ◌≡◌, refl, false, not, none, Result, ok, err, List, [], ◌∷◌, ◌++◌, arith, inl, inr,
  Bool-cases, Result-cases,
}
use mathlib.Core.List.{append_assoc, append-nil}
use template_worker.Prelude.Rows.{any}
use template_worker.Worker.Tenant.{TenantId}
use template_worker.Geese.Urlsign.{create_url}
use template_worker.Geese.State.Ops.{
  StateOp, FastStateReq, StateDbFlags, is_faststate_eligible, from_ops, convert_ops,
  alters_tenant_state,
}
use template_worker.Geese.State.Tables.{
  World, Db, StateExecResult, StateExecResponse, kv_sign_url, push, Error, Outcome,
}
use template_worker.Geese.State.Kv.{kv_sign_url_op, kv_sign_url_expiration_seconds}
use template_worker.Geese.State.Exec.{
  apply_op, apply_ops, do_op, Request, empty_response, execute_fast,
}

module _ {V J : Type 0} (w : World V J) (tid : TenantId) (flags : StateDbFlags) (rq : Request)
    (db : Db J) where
  abbrev pub with_results : StateExecResponse V → List (StateExecResult V) → StateExecResponse V
  with_results resp rs = record resp { results = resp.results ++ rs }

  abbrev pub extend_by : StateExecResponse V → Result Error (List (StateExecResult V)) → Outcome V J
  extend_by resp (ok rs) = (db, ok (with_results resp rs))
  extend_by resp (err e) = (db, err e)

  apply_ops-convert_ops :
      (i : ℕ) (ops : List (StateOp V)) (resp : StateExecResponse V)
      → any (λ op. not (is_faststate_eligible op)) ops ≡ false
      → apply_ops w tid flags rq i ops db resp
        ≡ extend_by resp (execute_fast w rq.now tid (convert_ops ops))
  unfolding apply_ops apply_op kv_sign_url_op execute_fast convert_ops is_faststate_eligible any
  apply_ops-convert_ops i [] resp h = ground (arith, append-nil resp.results)
  apply_ops-convert_ops i (StateOp.kv_sign_url key scope ∷ ops) resp h =
      elim (Result-cases (
        create_url w.sf w.crypto w.url_codec w.cfg rq.now tid key scope
          kv_sign_url_expiration_seconds)) [
            | inr (e, q) ↦ ground (arith, q)
            | inl (url, q) ↦
                let pushed : StateExecResult V = kv_sign_url url kv_sign_url_expiration_seconds in
                elim (Result-cases (execute_fast w rq.now tid (convert_ops ops))) [
                  | inl (rs, p) ↦ ground (
                    arith,
                    q,
                    p,
                    apply_ops-convert_ops (suc i) ops (push pushed resp),
                    append_assoc resp.results (pushed ∷ []) rs,
                  )
                  | inr (e, p) ↦
                      ground (arith, q, p, apply_ops-convert_ops (suc i) ops (push pushed resp))
                ]
          ]
  apply_ops-convert_ops i (_ ∷ ops) resp h = absurd (ground arith)

  alters-eligible :
      (ops : List (StateOp V))
      → any (λ op. not (is_faststate_eligible op)) ops ≡ false
      → any alters_tenant_state ops ≡ false
  unfolding any is_faststate_eligible alters_tenant_state
  alters-eligible [] h = refl
  alters-eligible (StateOp.kv_sign_url key scope ∷ ops) h = alters-eligible ops h
  alters-eligible (_ ∷ ops) h = absurd (ground arith)

  -- For operations that the worker may run by itself, the master's `do_op` answers what `execute_fast` answers on the worker, and changes no table, unless the database refuses the transaction.
  pub do_op-from_ops :
      (ops : List (StateOp V)) (reqs : List FastStateReq)
      → from_ops ops ≡ ok reqs
      → rq.begin_fault ≡ none
      → rq.commit_fault ≡ none
      → do_op w tid ops flags rq db ≡ extend_by empty_response (execute_fast w rq.now tid reqs)
  unfolding from_ops do_op
  do_op-from_ops ops reqs h b c =
      elim (Bool-cases (any (λ op. not (is_faststate_eligible op)) ops)) [
        | inl slow ↦ absurd (ground (arith, slow))
        | inr fast ↦ elim (Result-cases (execute_fast w rq.now tid (convert_ops ops))) [
          | inl (rs, p) ↦
              ground (
                arith,
                fast,
                p,
                apply_ops-convert_ops 0 ops empty_response,
                alters-eligible ops fast,
              )
          | inr (e, p) ↦
              ground (
                arith,
                fast,
                p,
                apply_ops-convert_ops 0 ops empty_response,
                alters-eligible ops fast,
              )
        ]
      ]
