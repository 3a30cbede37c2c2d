-- ===== src/Master/Sessions/Tokens/Laws.antt =====
-- What the calls on OAuth tokens leave in the table `user_oauths`.
use template_worker.Prelude.{
  ℕ, ◌≡◌, ◌⊎◌, refl, ap, Bool, true, false, err, ◌∙◌, String, some, ok, inl, inr, List, arith,
  Option-cases, Bool-cases, Result-cases, string_eq, ==_refl, ==_sound,
}
use template_worker.Prelude.Rows.{first, upsert, first-upsert}
use template_worker.Master.Sessions.{OauthRow, WebDb, Surroundings}
use template_worker.Master.Sessions.Laws.{Undisturbed}
use template_worker.Master.Sessions.Tokens.{
  OauthTokenResponse, Response, of_user, is_past, token_row, get, save, refresh, from_row, begun,
  read_response, not_sent, other_status, body, get_user_access_token,
}

first_save :
    (x : Surroundings) (t : OauthTokenResponse) (user_id : String) (rows : List OauthRow)
    → first (of_user user_id) (
        upsert
          (of_user user_id)
          (λ r. record (token_row user_id t x.now) { user_id = r.user_id })
          (token_row user_id t x.now)
          rows)
      ≡ some (token_row user_id t x.now)
first_save x t user_id rows =
    let (a, q, e) =
      first-upsert (of_user user_id)
        (λ r. record (token_row user_id t x.now) { user_id = r.user_id })
        (token_row user_id t x.now) (λ a. a ≡ token_row user_id t x.now) (λ a h. h)
        (==_refl user_id) refl
        (λ a h.
          ap (λ i. record (token_row user_id t x.now) { user_id = i })
            (==_sound a.user_id user_id h))
        rows in
    q ∙ ap (λ r. some r) e

-- A saved token is what the next read of that user gives, with the time of the write, where the driver
-- refuses neither statement.
pub get-save :
    (x y : Surroundings) (n m : ℕ) (t : OauthTokenResponse) (user_id : String) (db : WebDb)
    → Undisturbed x
    → Undisturbed y
    → (get y m user_id (save x n t user_id db).0).1 ≡ ok (t, x.now)
unfolding get save
get-save x y n m t user_id db hx hy = rw (hx n, hy m, first_save x t user_id db.user_oauths) refl

refresh_dropped :
    (x : Surroundings) (post : String → Response OauthTokenResponse) (t : OauthTokenResponse)
    (user_id : String) (db : WebDb)
    → (begun (refresh x post t user_id) db).0 ≡ db
unfolding refresh save
refresh_dropped x post t user_id db =
    elim (Result-cases (
      read_response "Failed to get new access token: " "Failed to get new access token: "
        (post t.refresh_token))) [
          | inl (a, e) ↦ elim (Option-cases (x.faults 2)) [
            | inl f ↦ rw (e, f) refl
            | inr (g, f) ↦ rw (e, f) refl
          ]
          | inr (a, e) ↦ rw e refl
        ]

-- No call changes the tables.
pub get_user_access_token_keeps :
    (x : Surroundings) (post : String → Response OauthTokenResponse) (user_id : String) (db : WebDb)
    → (get_user_access_token x post user_id db).0 ≡ db
unfolding get_user_access_token get
get_user_access_token_keeps x post user_id db =
    elim (Option-cases (first (of_user user_id) db.user_oauths)) [
      | inl e ↦ ground arith
      | inr (r, e) ↦
          elim (Bool-cases (is_past r.access_token_expiry r.access_token_last_set x.now)) [
            | inl f ↦ ground (arith, refresh_dropped x post (from_row r).0 user_id db)
            | inr f ↦ ground arith
          ]
    ]

-- What may be answered for a user with a row of tokens: the stored token while it is not past its time,
-- and then the token that Discord gives for the stored refresh token.
unfoldable pub IsToken :
    Surroundings → (String → Response OauthTokenResponse) → OauthRow → String → Type 0
IsToken x post r t =
    ((is_past r.access_token_expiry r.access_token_last_set x.now ≡ false) × (t ≡ r.access_token))
    ⊎ ((is_past r.access_token_expiry r.access_token_last_set x.now ≡ true)
        × ((token : OauthTokenResponse) × (post r.refresh_token ≡ body (ok token))
            × (t ≡ token.access_token)))

read_response-eq-ok :
    {A : Type 0} (failed other : String) (resp : Response A) (a : A)
    → read_response failed other resp ≡ ok a
    → resp ≡ body (ok a)
read_response-eq-ok failed other (not_sent e) a h = absurd (ground arith)
read_response-eq-ok failed other (other_status (ok t)) a h = absurd (ground arith)
read_response-eq-ok failed other (other_status (err t)) a h = absurd (ground arith)
read_response-eq-ok failed other (body (ok b)) a h = ground arith
read_response-eq-ok failed other (body (err b)) a h = absurd (ground arith)

refresh-eq-ok :
    (x : Surroundings) (post : String → Response OauthTokenResponse) (stored : OauthTokenResponse)
    (user_id t : String) (b : Bool) (db : WebDb)
    → (refresh x post stored user_id db).1 ≡ ok (t, b)
    → (token : OauthTokenResponse) × (post stored.refresh_token ≡ body (ok token))
      × (t ≡ token.access_token)
unfolding refresh save
refresh-eq-ok x post stored user_id t b db h =
    elim (Result-cases (
      read_response "Failed to get new access token: " "Failed to get new access token: "
        (post stored.refresh_token))) [
          | inr (e, q) ↦ absurd (ground arith)
          | inl (token, q) ↦ elim (Option-cases (x.faults 2)) [
            | inr (e, f) ↦ absurd (ground arith)
            | inl f ↦
                (token, read_response-eq-ok _ _ (post stored.refresh_token) token q, ground arith)
          ]
        ]

-- The token that is answered for a user is the stored one while that is not past its time; afterwards
-- it is the one that Discord gives for the stored refresh token, and that one is not kept: the tables
-- are in both cases as before.
pub get_user_access_token-eq-ok :
    (x : Surroundings) (post : String → Response OauthTokenResponse) (user_id t : String)
    (db : WebDb)
    → (get_user_access_token x post user_id db).1 ≡ ok t
    → ((r : OauthRow) × (first (of_user user_id) db.user_oauths ≡ some r) × IsToken x post r t)
      × ((get_user_access_token x post user_id db).0 ≡ db)
unfolding get_user_access_token get IsToken
get_user_access_token-eq-ok x post user_id t db h =
    let kept = get_user_access_token_keeps x post user_id db in
    elim (Option-cases (x.faults 0)) [
      | inr (e, f) ↦ absurd (ground (arith, f))
      | inl f ↦ elim (Option-cases (x.faults 1)) [
        | inr (e, g) ↦ absurd (ground (arith, f, g))
        | inl g ↦ elim (Option-cases (first (of_user user_id) db.user_oauths)) [
          | inl e ↦ absurd (ground (arith, f, g, e))
          | inr (r, e) ↦
              elim (Bool-cases (is_past r.access_token_expiry r.access_token_last_set x.now)) [
                | inr p ↦ elim (Option-cases (x.faults 2)) [
                  | inr (d, k) ↦ absurd (ground (arith, f, g, e, p, k))
                  | inl k ↦ ((r, e, inl (p, ground (arith, f, g, e, p, k))), kept)
                ]
                | inl p ↦ elim (Result-cases (refresh x post (from_row r).0 user_id db).1) [
                  | inr (d, k) ↦ absurd (ground (arith, f, g, e, p, k))
                  | inl ((t', b), k) ↦
                      let (token, q, m) = refresh-eq-ok x post (from_row r).0 user_id t' b db k in
                      ((r, e, inr (p, (token, q, ground (arith, f, g, e, p, k, m)))), kept)
                ]
              ]
        ]
      ]
    ]
