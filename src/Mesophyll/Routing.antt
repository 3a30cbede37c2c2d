-- ===== src/Mesophyll/Routing.antt =====
-- A worker is answered for its own tenants only, and as if it had the database itself.
use template_worker.Prelude.{
  ◌⊎◌, ℕ, ◌≡◌, false, some, ok, err, List, arith, ltb, inl, inr, Result-cases, Option-cases,
}
use template_worker.Worker.Tenant.{TenantId, IsValid, worker_id}
use template_worker.Geese.State.Ops.{StateOp, StateDbFlags, from_bits, from_bits-bits}
use template_worker.Geese.State.Tables.{World, Db, StateExecResponse}
use template_worker.Geese.State.Exec.{do_op, Request}
use template_worker.Mesophyll.Proto.{
  Status, Wire, PbId, to_real_id, to_real_id-from_real_id, from_real, to_real, from_real_exec,
  to_real_exec,
}
use template_worker.Mesophyll.Server.{ExecStateOp, Accepted, verify_worker, accept, exec_state_op}
use template_worker.Mesophyll.Client.{Channel, request_of, client_exec_state_op}

module _ {V J : Type 0} (w : World V J) (num_workers : ℕ) (ops_wire : Wire (List (StateOp V)))
    (response_wire : Wire (StateExecResponse V)) where
  -- What an accepted call asks for, and of which tenant
  abbrev pub IsAccepted : ExecStateOp → Accepted V → Type 0
  IsAccepted req a =
      (worker_id w.sf a.id num_workers ≡ req.worker_id)
      × (from_bits req.flags ≡ some a.flags)
      × ((pb_id : PbId) × (req.id ≡ some pb_id) × (to_real_id pb_id ≡ a.id))

  accept-IsAccepted :
      (req : ExecStateOp) (a : Accepted V)
      → accept w num_workers ops_wire response_wire req ≡ ok a
      → IsAccepted req a
  unfolding accept verify_worker
  accept-IsAccepted req a h = elim (Option-cases req.id) [
    | inl q ↦ absurd (ground (arith, q))
    | inr (pb_id, q) ↦ elim (Option-cases req.state_op) [
      | inl p ↦ absurd (ground (arith, q, p))
      | inr (payload, p) ↦ elim (Result-cases (to_real ops_wire payload)) [
        | inr (e, d) ↦ absurd (ground (arith, q, p, d))
        | inl (ops, d) ↦ elim (Option-cases (from_bits req.flags)) [
          | inl f ↦ absurd (ground (arith, q, p, d, f))
          | inr (flags, f) ↦ (
            ground (arith, q, p, d, f),
            ground (arith, q, p, d, f),
            (pb_id, q, ground (arith, q, p, d, f)),
          )
        ]
      ]
    ]
  ]

  -- A call either changes nothing and answers a status, or does to the database what `do_op` does for a tenant that is routed to the calling worker, with the flags that were sent.
  pub exec_state_op-cases :
      (req : ExecStateOp) (rq : Request) (db : Db J)
      → ((s : Status) × (exec_state_op w num_workers ops_wire response_wire req rq db
            ≡ (db, err s)))
        ⊎ ((a : Accepted V) × IsAccepted req a
            × ((exec_state_op w num_workers ops_wire response_wire req rq db).0
                ≡ (do_op w a.id a.ops a.flags rq db).0))
  unfolding exec_state_op
  exec_state_op-cases req rq db =
      elim (Result-cases (accept w num_workers ops_wire response_wire req)) [
        | inr (s, q) ↦ inl (s, ground (arith, q))
        | inl (a, q) ↦ inr (a, accept-IsAccepted req a q, ground (arith, q))
      ]

  -- A call that is answered has run the operations for a tenant that is routed to the calling worker, with the flags that were sent, and its answer is the encoded answer of `do_op`.
  pub exec_state_op-eq-ok :
      (req : ExecStateOp) (rq : Request) (db : Db J) (bytes : List ℕ)
      → (exec_state_op w num_workers ops_wire response_wire req rq db).1 ≡ ok bytes
      → (a : Accepted V) × IsAccepted req a
        × ((resp : StateExecResponse V) × ((do_op w a.id a.ops a.flags rq db).1 ≡ ok resp)
            × (from_real response_wire resp ≡ ok bytes))
  unfolding exec_state_op
  exec_state_op-eq-ok req rq db bytes h =
      elim (Result-cases (accept w num_workers ops_wire response_wire req)) [
        | inr (s, q) ↦ absurd (ground (arith, q))
        | inl (a, q) ↦ elim (Result-cases (do_op w a.id a.ops a.flags rq db).1) [
          | inr (e, p) ↦ absurd (ground (arith, q, p))
          | inl (resp, p) ↦ (a, accept-IsAccepted req a q, (resp, p, ground (arith, q, p)))
        ]
      ]

module _ {V J : Type 0} (ch : Channel V J) where
  accept-request_of :
      (id : TenantId) (ops : List (StateOp V)) (flags : StateDbFlags) (payload : List ℕ)
      → IsValid id
      → ltb ch.num_workers ch.worker_id ≡ false
      → worker_id ch.world.sf id ch.num_workers ≡ ch.worker_id
      → to_real ch.ops_wire payload ≡ ok ops
      → accept ch.world ch.num_workers ch.ops_wire ch.response_wire (request_of ch id payload flags)
        ≡ ok (record { id = id; ops = ops; flags = flags })
  unfolding accept verify_worker
  accept-request_of id ops flags payload v known routed d =
      ground (arith, d, to_real_id-from_real_id id v, from_bits-bits flags)

  -- For a valid tenant that is routed to the worker, an id of the worker that the master lets through, operations that arrive whole and an answer that can be sent back, a call to the master does to the database what `do_op` does, and answers what arrives of its answer.
  pub client_exec_state_op-ok :
      (id : TenantId) (ops : List (StateOp V)) (flags : StateDbFlags) (rq : Request) (db : Db J)
      (resp : StateExecResponse V) (payload bytes : List ℕ)
      → IsValid id
      → ltb ch.num_workers ch.worker_id ≡ false
      → worker_id ch.world.sf id ch.num_workers ≡ ch.worker_id
      → ch.ops_wire.received ops ≡ ops
      → ch.ops_wire.to_vec ops ≡ ok payload
      → ch.response_wire.to_vec resp ≡ ok bytes
      → (do_op ch.world id ops flags rq db).1 ≡ ok resp
      → client_exec_state_op ch id ops flags rq db
        ≡ ((do_op ch.world id ops flags rq db).0, ok (ch.response_wire.received resp))
  unfolding client_exec_state_op exec_state_op from_real_exec to_real_exec from_real to_real
  client_exec_state_op-ok id ops flags rq db resp payload bytes v known routed whole sent back
        done =
      ground (
        arith,
        accept-request_of id ops flags payload v known routed,
        ch.ops_wire.from_slice-to_vec ops payload sent,
        ch.response_wire.from_slice-to_vec resp bytes back,
      )

  -- An answer that arrives for a valid tenant is what arrives of an answer of `do_op` for that tenant and with the flags that were sent, and the database is what that `do_op` left.
  pub client_exec_state_op-eq-ok :
      (id : TenantId) (ops : List (StateOp V)) (flags : StateDbFlags) (rq : Request) (db : Db J)
      (resp : StateExecResponse V)
      → IsValid id
      → (client_exec_state_op ch id ops flags rq db).1 ≡ ok resp
      → (ops' : List (StateOp V)) × (r : StateExecResponse V) × ((do_op ch.world id ops' flags rq
            db).1
          ≡ ok r)
        × (ch.response_wire.received r ≡ resp)
        × ((client_exec_state_op ch id ops flags rq db).0 ≡ (do_op ch.world id ops' flags rq db).0)
  unfolding client_exec_state_op exec_state_op from_real_exec to_real_exec from_real
  client_exec_state_op-eq-ok id ops flags rq db resp v h =
      elim (Result-cases (ch.ops_wire.to_vec ops)) [
        | inr (e, q) ↦ absurd (ground (arith, q))
        | inl (payload, q) ↦
            elim (Result-cases (
              accept ch.world ch.num_workers ch.ops_wire ch.response_wire
                (request_of ch id payload flags))) [
                  | inr (e, p) ↦ absurd (ground (arith, q, p))
                  | inl (a, p) ↦
                      let (routed, sent, (pb_id, named, own)) =
                        accept-IsAccepted ch.world ch.num_workers ch.ops_wire ch.response_wire
                          (request_of ch id payload flags) a p in
                      let same : a.id ≡ id =
                        ground (arith, own, named, to_real_id-from_real_id id v) in
                      let flagged : a.flags ≡ flags = ground (arith, sent, from_bits-bits flags) in
                      elim (Result-cases (do_op ch.world a.id a.ops a.flags rq db).1) [
                        | inr (e, d) ↦ absurd (ground (arith, q, p, d))
                        | inl (r, d) ↦ elim (Result-cases (ch.response_wire.to_vec r)) [
                          | inr (e, t) ↦ absurd (ground (arith, q, p, d, t))
                          | inl (bytes, t) ↦ (
                            a.ops,
                            r,
                            rw (same, flagged) at d,
                            ground
                                (arith, q, p, d, t, ch.response_wire.from_slice-to_vec r bytes t),
                            ground (arith, q, p, d, t, same, flagged),
                          )
                        ]
                      ]
                ]
      ]
