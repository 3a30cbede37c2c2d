-- ===== src/Master/Sessions/Laws.antt =====
-- What a token opens, and whose sessions the calls of src/master/syscall/internal/auth.rs touch.
use template_worker.Prelude.{
  ℕ, string_eq, ◌≡◌, ◌≢◌, refl, false, String, Option, none, some, ok, List, [], ◌∷◌, ◌++◌, ◌&&◌,
  not, ◌≤◌, sym, ◌∙◌, ltb, str_beq, arith, if◌then◌else◌, Option-cases, Bool-cases, inl, inr,
  ==_refl, ==_sound,
}
use mathlib.Core.List.{append-nil}
use template_worker.Prelude.Rows.{
  select, first, any, delete, first-append-new, any_kept, delete-append, first_passes, first_kept,
  first-delete, first-any, select-delete,
}
use template_worker.Worker.Tenant.{Snowflakes}
use template_worker.Master.Sessions.{
  Uuids, SessionRow, UserRow, WebDb, Surroundings, success, api_banned, invalid_token, SessionType,
  type_and_expiry, is_expired, has_token, create_web_session, check_web_auth, check_user,
  own_session, new_session_row, get_user_sessions, delete_user_session,
}

-- No statement of a call is refused by the driver.
abbrev pub Undisturbed : Surroundings → Type 0
Undisturbed x = (n : ℕ) → x.faults n ≡ none

-- A new row with a token that no row has is the only one that the token finds, until it expires.
first_new :
    (now : ℕ) (r : SessionRow) (rows : List SessionRow)
    → any (has_token r.token) rows ≡ false
    → first (has_token r.token) (delete (is_expired now) (rows ++ r ∷ []))
      ≡ (if is_expired now r then none else some r)
unfolding first any delete
first_new now r rows fresh = elim (Bool-cases (is_expired now r)) [
  | inl e ↦ grind (
    arith,
    delete-append (is_expired now) rows (r ∷ []),
    first-any (has_token r.token) (delete (is_expired now) rows),
    any_kept (has_token r.token) (is_expired now) rows fresh,
    append-nil (delete (is_expired now) rows),
  )
  | inr e ↦ grind (
    arith,
    delete-append (is_expired now) rows (r ∷ []),
    first-append-new (has_token r.token) (delete (is_expired now) rows) r,
    any_kept (has_token r.token) (is_expired now) rows fresh,
    ==_refl r.token,
  )
]

module _ (uu : Uuids) (sf : Snowflakes) (bad_id : String) where
  -- A new session, whose token no session has, opens the API for its user up to and at the time of
  -- its expiry, and not after it: for a user of the table whose id can be read, where the driver
  -- refuses no statement, the check of the token says who the user is, or that the user is banned.
  pub check_web_auth-create_web_session :
      (x y : Surroundings) (n : ℕ) (user : UserRow) (name : Option String) (ty : SessionType)
      (db : WebDb) (user_id : ℕ)
      → Undisturbed x
      → Undisturbed y
      → any (has_token x.sample) db.web_api_tokens ≡ false
      → first (λ u. str_beq u.user_id user.user_id) db.users ≡ some user
      → sf.parse user.user_id ≡ some user_id
      → (check_web_auth uu sf bad_id y x.sample
          (create_web_session uu x n user.user_id name ty db).0).1
        ≡ ok (
            if ltb (type_and_expiry ty x.now).1 y.now
            then invalid_token
            else if str_beq user.state "banned"
            then api_banned user_id (uu.show_uuid x.new_id) (type_and_expiry ty x.now).0
            else success user_id (uu.show_uuid x.new_id) user.state (type_and_expiry ty x.now).0)
  unfolding check_web_auth create_web_session
  check_web_auth-create_web_session x y n user name ty db user_id hx hy fresh found parsed =
      rw
        (
          hx n,
          hy 0,
          hy 1,
          first_new y.now (new_session_row x user.user_id name (type_and_expiry ty x.now))
              db.web_api_tokens fresh,
        )
        (elim (Bool-cases (ltb (type_and_expiry ty x.now).1 y.now)) [
          | inl e ↦ rw e refl
          | inr e ↦ rw (e, hy 2, found, parsed) refl
        ])

  -- The facts behind an accepted session
  abbrev Facts : SessionRow → UserRow → ℕ → String → String → String → Type 0
  Facts r u user_id sid st ty =
      (uu.show_uuid r.id ≡ sid)
      × (r.typ ≡ ty)
      × (sf.parse r.user_id ≡ some user_id)
      × (u.state ≡ st)
      × (str_beq st "banned" ≡ false)

  check_user-eq-success :
      (x : Surroundings) (r : SessionRow) (db : WebDb) (user_id : ℕ) (sid st ty : String)
      → (check_user uu sf bad_id x (some r) db).1 ≡ ok (success user_id sid st ty)
      → (u : UserRow) × (first (λ v. str_beq v.user_id r.user_id) db.users ≡ some u)
        × Facts r u user_id sid st ty
  check_user-eq-success x r db user_id sid st ty h =
      elim (Option-cases (first (λ v. str_beq v.user_id r.user_id) db.users)) [
        | inl f ↦ absurd (ground arith)
        | inr (u, f) ↦
            (u, f, (ground arith, ground arith, ground arith, ground arith, ground arith))
      ]

  -- A token that is accepted belongs to a session of the table, the first one with the token that has
  -- not expired, and to the user of the table with the session's user id, who is not banned; the answer
  -- names that session, its type, that user and the user's state.
  pub check_web_auth-eq-success :
      (x : Surroundings) (token : String) (db : WebDb) (user_id : ℕ) (sid st ty : String)
      → (check_web_auth uu sf bad_id x token db).1 ≡ ok (success user_id sid st ty)
      → (r : SessionRow) × (u : UserRow) × (first
            (λ v. has_token token v && not (is_expired x.now v))
            db.web_api_tokens
          ≡ some r)
        × (first (λ v. str_beq v.user_id r.user_id) db.users ≡ some u)
        × (r.token ≡ token)
        × (x.now ≤ r.expiry)
        × (uu.show_uuid r.id ≡ sid)
        × (r.typ ≡ ty)
        × (sf.parse r.user_id ≡ some user_id)
        × (u.state ≡ st)
        × (st ≢ "banned")
  unfolding check_web_auth
  check_web_auth-eq-success x token db user_id sid st ty h =
      elim (Option-cases (first (has_token token) (delete (is_expired x.now) db.web_api_tokens))) [
        | inl e ↦ absurd (ground arith)
        | inr (r, e) ↦
            let (u, f, (a, b, c, d, k)) =
              check_user-eq-success x r
                (record db { web_api_tokens = delete (is_expired x.now) db.web_api_tokens }) user_id
                sid st ty (ground arith) in
            (
              r,
              u,
              sym (first-delete (has_token token) (is_expired x.now) db.web_api_tokens) ∙ e,
              f,
              ==_sound r.token token (
                  first_passes (has_token token) (delete (is_expired x.now) db.web_api_tokens) r e),
              ground (arith, first_kept (has_token token) (is_expired x.now) db.web_api_tokens r e),
              a,
              b,
              c,
              d,
              λ same. ground (arith, k, ==_refl st, same),
            )
      ]

  others_keep :
      (user other : String) (id : ℕ)
      → other ≢ user
      → (rows : List SessionRow)
      → select (λ r. str_beq r.user_id other) (delete (own_session user id) rows)
        ≡ select (λ r. str_beq r.user_id other) rows
  others_keep user other id ne rows =
      select-delete (λ r. str_beq r.user_id other) (own_session user id)
        (λ r h. ground (arith, ne, ==_sound r.user_id other h, ==_sound r.user_id user)) rows

  -- A user's list of sessions is the same whatever another user deletes.
  pub get_user_sessions-delete_user_session :
      (x y : Surroundings) (user other session_id : String) (db : WebDb)
      → other ≢ user
      → (get_user_sessions uu y other (delete_user_session uu x user session_id db).0).1
        ≡ (get_user_sessions uu y other db).1
  unfolding get_user_sessions delete_user_session
  get_user_sessions-delete_user_session x y user other session_id db ne =
      elim (Option-cases (uu.parse_str session_id)) [
        | inl e ↦ rw e refl
        | inr (id, e) ↦ ground (arith, others_keep user other id ne db.web_api_tokens)
      ]
