-- ===== src/Geese/State/Blobs/Examples.antt =====
-- A blob that is stored and fetched on small tables.
use template_worker.Prelude.{ℕ, ◌≡◌, refl, none, some, ok, List, [], ◌∷◌, arith}
use template_worker.Prelude.Rows.{any}
use template_worker.Worker.Tenant.{guild}
use template_worker.Worker.Tenant.Examples.{unary}
use template_worker.Geese.Signing.Examples.{plain, sample_config}
use template_worker.Geese.Urlsign.{VerifiedUrl, verify_url}
use template_worker.Geese.Urlsign.Examples.{sample_codec, parts, signed}
use template_worker.Geese.State.Ops.{StateOp, no_flags, alters_tenant_state, can_set_internal_scope}
use template_worker.Geese.State.Kv.{is_internal, blob_too_large, kv_set_op, put_kv}
use template_worker.Geese.State.Exec.{empty_response, apply_op, apply_ops, is_fastpath, do_op}
use template_worker.Geese.State.Blobs.{fetch_blob, fetch_blob-set}
use template_worker.Geese.State.Examples.{small_world, small_db, quiet}

abbrev set_blob : List (StateOp ℕ)
set_blob = StateOp.kv_set "k" "s" 5 (some (8 ∷ 9 ∷ [])) ∷ []

set_blob_succeeds :
    (do_op small_world (guild 3) set_blob no_flags quiet small_db).1 ≡ ok empty_response
unfolding do_op is_fastpath apply_ops apply_op kv_set_op put_kv is_internal blob_too_large
    can_set_internal_scope alters_tenant_state any
set_blob_succeeds = refl

fetch_blob-set_example :
    (vurl : VerifiedUrl) × (verify_url unary plain sample_codec sample_config 400 parts.0 parts.1
      ≡ ok vurl)
    × (fetch_blob small_world none vurl
          (do_op small_world (guild 3) set_blob no_flags quiet small_db).0
        ≡ ok (some (8 ∷ 9 ∷ [], "k")))
fetch_blob-set_example =
    fetch_blob-set small_world (guild 3) "k" "s" no_flags quiet 100 400 5 (8 ∷ 9 ∷ []) small_db
      empty_response parts (omega arith) (omega arith) (omega arith) set_blob_succeeds signed
