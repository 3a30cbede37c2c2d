-- ===== src/Geese/State/Blobs.antt =====
-- `StateDb::fetch_blob` of src/geese/state.rs, which serves the presigned URLs of src/geese/urlsign.rs.
pub mod Examples
use template_worker.Prelude.{
  ℕ, ◌+◌, ◌<◌, ◌≤◌, ◌≡◌, refl, String, Option, none, some, Result, ok, err, List, [], ◌∷◌, arith,
}
use template_worker.Prelude.Rows.{first}
use template_worker.Worker.Tenant.{TenantId, IsValid}
use template_worker.Geese.Signing.{u64_mod}
use template_worker.Geese.Urlsign.{VerifiedUrl, signed_payload, verify_url}
use template_worker.Geese.Urlsign.Laws.{verify_url-signed_payload}
use template_worker.Geese.State.Ops.{StateOp, StateDbFlags, alters_tenant_state}
use template_worker.Geese.State.Tables.{World, KvRow, Db, StateExecResponse, Error, sql}
use template_worker.Geese.State.Kv.{at_key, kv_sign_url_expiration_seconds}
use template_worker.Geese.State.Exec.{apply_op, do_op, Request, empty_response}
use template_worker.Geese.State.Atomicity.{do_op-single}
use template_worker.Geese.State.Reads.{written, set_stores}

module _ {V J : Type 0} (w : World V J) where
  abbrev named : String → Option (List ℕ) → Option (List ℕ × String)
  named key none = none
  named key (some b) = some (b, key)

  abbrev blob_of : String → Option (KvRow J) → Option (List ℕ × String)
  blob_of key none = none
  blob_of key (some r) = named key r.blob

  -- The blob under a verified URL and the name it is served by; the query may be refused by the driver.
  unfoldable pub fetch_blob :
      Option String → VerifiedUrl → Db J → Result Error (Option (List ℕ × String))
  fetch_blob (some e) vurl db = err (sql e)
  fetch_blob none vurl db =
      ok (blob_of vurl.key (first (at_key w vurl.id vurl.key vurl.scope) db.tenant_kv))

  fetch_found :
      (vurl : VerifiedUrl) (db : Db J) (r : KvRow J) (b : List ℕ)
      → first (at_key w vurl.id vurl.key vurl.scope) db.tenant_kv ≡ some r
      → r.blob ≡ some b
      → fetch_blob none vurl db ≡ ok (some (b, vurl.key))
  unfolding fetch_blob
  fetch_found vurl db r b q e = ground arith

  module _ (tid : TenantId) (key scope : String) (flags : StateDbFlags) (rq : Request) where
    stored :
        (value : V) (b : List ℕ) (db : Db J) (resp : StateExecResponse V)
        → (do_op w tid (StateOp.kv_set key scope value (some b) ∷ []) flags rq db).1 ≡ ok resp
        → (r : KvRow J) × (first
              (at_key w tid key scope)
              (do_op w tid (StateOp.kv_set key scope value (some b) ∷ []) flags rq db).0.tenant_kv
            ≡ some r)
          × (r.blob ≡ some b)
    unfolding apply_op alters_tenant_state
    stored value b db resp h =
        let set = do_op-single w tid flags rq (StateOp.kv_set key scope value (some b)) db refl in
        let (j, serialized, put) =
          set_stores w tid key scope flags rq value (some b) db empty_response resp (rw set at h) in
        let (r, found, own) = written w tid key scope flags rq j (some b) db in
        (r, rw set (rw put found), own.3)

    -- A blob that a valid tenant stored is served, under its key, to whoever holds a URL that was signed for it, as long as the URL has not expired, where its expiry fits a u64 and the driver refuses no statement.
    pub fetch_blob-set :
        (now later : ℕ) (value : V) (b : List ℕ) (db : Db J) (resp : StateExecResponse V)
        (parts : String × String)
        → IsValid tid
        → now + kv_sign_url_expiration_seconds < u64_mod
        → later ≤ now + kv_sign_url_expiration_seconds
        → (do_op w tid (StateOp.kv_set key scope value (some b) ∷ []) flags rq db).1 ≡ ok resp
        → signed_payload w.sf w.crypto w.url_codec w.cfg now tid key scope
            kv_sign_url_expiration_seconds
          ≡ ok parts
        → (vurl : VerifiedUrl) × (verify_url w.sf w.crypto w.url_codec w.cfg later parts.0 parts.1
            ≡ ok vurl)
          × (fetch_blob none vurl
                (do_op w tid (StateOp.kv_set key scope value (some b) ∷ []) flags rq db).0
              ≡ ok (some (b, key)))
    fetch_blob-set now later value b db resp parts v fits early set signed =
        let (r, found, blob) = stored value b db resp set in
        let vurl : VerifiedUrl = record {
          id = tid;
          key = key;
          scope = scope;
          expires_at = now + kv_sign_url_expiration_seconds;
        } in
        (
          vurl,
          ground (
            arith,
            verify_url-signed_payload w.sf w.crypto w.url_codec w.cfg now later tid key scope
                kv_sign_url_expiration_seconds parts v fits signed,
          ),
          fetch_found vurl
              (do_op w tid (StateOp.kv_set key scope value (some b) ∷ []) flags rq db).0 r b found
              blob,
        )
