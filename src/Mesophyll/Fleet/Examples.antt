-- ===== src/Mesophyll/Fleet/Examples.antt =====
-- Two workers, of which one is registered. A worker is the log of the tenants that it was told about.
use template_worker.Prelude.{
  ℕ, ◌≡◌, refl, true, false, String, some, Result, ok, err, List, [], ◌∷◌, arith, nat_eq, string_eq,
}
use template_worker.Prelude.Dict.{get, insert}
use template_worker.Worker.Tenant.{TenantId, user, worker_id}
use template_worker.Worker.Tenant.Examples.{unary, ones}
use template_worker.Worker.SimpleEvent.{SimpleEvent, new_khronos_value}
use template_worker.Geese.TenantState.{default}
use template_worker.Mesophyll.Proto.{Status, internal, permission_denied, invalid_argument}
use template_worker.Mesophyll.Server.{verify_worker}
use template_worker.Mesophyll.Thread.{WorkerThread, Wires, Process}
use template_worker.Mesophyll.Fleet.{Fleet, pool_dispatch_event, register_worker}
use template_worker.Mesophyll.Fleet.Laws.{pool_dispatch_event_lem}

abbrev log_thread : WorkerThread ℕ (List TenantId)
log_thread = record {
  dispatch_event = λ id ev log. (id ∷ log, ok 8);
  drop_tenant = λ id log. (id ∷ log, ok tt);
  update_tenant_state = λ id ts log. (id ∷ log, ok true);
  kill = λ log. ([], ok tt);
}

-- One event and one state can be written, and any value.
abbrev ping : SimpleEvent ℕ
ping = new_khronos_value "WebPing" (some 2) 7

abbrev write_one : ℕ → Result String (List ℕ)
write_one n = ok (n ∷ [])

abbrev first_of : List ℕ → Result String ℕ
first_of [] = err "end of input"
first_of (n ∷ ns) = ok n

first_of-written : (a : ℕ) (b : List ℕ) → write_one a ≡ ok b → first_of b ≡ ok a
first_of-written a b h = ground arith

abbrev small_wires : Wires ℕ
small_wires = record {
  event = record {
    to_vec = λ e. ok [];
    from_slice = λ b. ok ping;
    received = λ e. ping;
    from_slice-to_vec = λ a b h. refl;
  };
  value = record {
    to_vec = write_one;
    from_slice = first_of;
    received = λ n. n;
    from_slice-to_vec = first_of-written;
  };
  tenant_state = record {
    to_vec = λ e. ok [];
    from_slice = λ b. ok default;
    received = λ e. default;
    from_slice-to_vec = λ a b h. refl;
  };
}

abbrev text_of : Status → String
text_of (internal t) = t
text_of (permission_denied t) = t
text_of (invalid_argument t) = t

abbrev up : Process (List TenantId)
up = record { has_wt = true; worker = []; is_exiting = false }

abbrev two_workers : Fleet (List TenantId)
two_workers = record {
  conns = (0, "a") ∷ [];
  processes = ("a", up) ∷ ("b", up) ∷ [];
  shutdowns = [];
}

at_a : get (worker_id unary (user 2) 2) two_workers.conns ≡ some "a"
unfolding get worker_id
at_a = refl

a_up : get "a" two_workers.processes ≡ some up
unfolding get
a_up = refl

pool_dispatch_event_lem_example :
    pool_dispatch_event unary log_thread small_wires 2 text_of ones (user 2) ping two_workers ≡ (
      record two_workers {
        processes = insert "a" (record up { worker = user 2 ∷ [] }) two_workers.processes;
      },
      ok 8,
    )
pool_dispatch_event_lem_example =
    pool_dispatch_event_lem unary log_thread small_wires 2 text_of ones (user 2) ping "a" []
      (8 ∷ []) 8 up two_workers (omega arith) at_a a_up refl refl refl refl refl

-- The worker 0 registers again, from another endpoint.
registered :
    (register_worker unary log_thread small_wires 2 text_of ones
      (record { worker_id = 0; endpoint = "b" })
      two_workers).1
    ≡ ok tt
unfolding register_worker verify_worker get
registered = refl
