-- ===== src/Mesophyll/Feeds/Receivers.antt =====
-- Who listens to a topic of src/mesophyll/server.rs after a subscription.
use mathlib.Core.Path.{◌≡◌, refl}
use native.Mathlib.Omega.{arith}
use template_worker.Prelude.{
  ℕ, true, false, ◌&&◌, String, Option, none, some, List, [], ◌∷◌, nat_beq, string_eq, ◌==◌,
  Bool-cases, inl, inr, ◌⊎◌,
}
use template_worker.Prelude.Dict.{get, insert, get-insert}
use template_worker.Prelude.Rows.{any, delete}
use template_worker.Worker.Tenant.{id_eq}
use template_worker.Mesophyll.Feeds.{
  Broadcast, Topics, is_unheard, or_channel, subscribe_all, heard, is_receiver,
}

module _ {V : Type 0} (b : Broadcast V) where
  List-cases : (xs : List ℕ) → (xs ≡ []) ⊎ ((x : ℕ) × (ys : List ℕ) × (xs ≡ x ∷ ys))
  List-cases [] = inl refl
  List-cases (x ∷ xs) = inr (x, xs, refl)

  receiver_of-channel :
      (r : ℕ) (tx : b.Sender)
      → any (nat_beq r) (b.receivers tx) ≡ true
      → is_receiver b r (heard b (some tx)) ≡ true
  unfolding any is_unheard
  receiver_of-channel r tx h = elim (List-cases (b.receivers tx)) [
    | inl q ↦ absurd (ground (arith, q))
    | inr (x, xs, q) ↦ ground (arith, q)
  ]

  pub heard-receiver :
      (r : ℕ) (o : Option b.Sender) → is_receiver b r o ≡ true → is_receiver b r (heard b o) ≡ true
  heard-receiver r none h = h
  heard-receiver r (some tx) h = receiver_of-channel r tx h

  pub other_kept :
      (r k : ℕ) (xs : List ℕ)
      → nat_beq k r ≡ false
      → any (nat_beq r) xs ≡ true
      → any (nat_beq r) (delete (nat_beq k) xs) ≡ true
  unfolding any delete
  other_kept r k [] n h = h
  other_kept r k (x ∷ xs) n h = elim (Bool-cases (nat_beq r x)) [
    | inl q ↦ ground (arith, q, n)
    | inr q ↦ ground (arith, q, other_kept r k xs n)
  ]

  subscribe_keeps :
      (r : ℕ) (o : Option b.Sender)
      → is_receiver b r o ≡ true
      → any (nat_beq r) (b.receivers (b.subscribe (or_channel b o)).0) ≡ true
  unfolding any
  subscribe_keeps r none h = absurd (ground arith)
  subscribe_keeps r (some tx) h = ground (arith, b.receivers-subscribe tx)

  pub subscribe_all_keeps :
      (r : ℕ) (t : String) (topics : List String) (ts : Topics b)
      → is_receiver b r (get t ts) ≡ true
      → is_receiver b r (get t (subscribe_all b topics ts).0) ≡ true
  unfolding subscribe_all
  subscribe_all_keeps r t [] ts h = h
  subscribe_all_keeps r t (u ∷ us) ts h =
      subscribe_all_keeps r t us (insert u (b.subscribe (or_channel b (get u ts))).0 ts) (
        ground (
          arith,
          get-insert u t (b.subscribe (or_channel b (get u ts))).0 ts,
          string_eq.beq_iff u t,
          subscribe_keeps r (get t ts) h,
        ))

  pub subscribed :
      (r : ℕ) (t : String) (topics : List String) (ts : Topics b)
      → any (λ p. (p.0 == t) && nat_beq r p.1) (subscribe_all b topics ts).1 ≡ true
      → is_receiver b r (get t (subscribe_all b topics ts).0) ≡ true
  unfolding subscribe_all any
  subscribed r t [] ts h = absurd (ground arith)
  subscribed r t (u ∷ us) ts h =
      elim (Bool-cases ((u == t) && nat_beq r (b.subscribe (or_channel b (get u ts))).1)) [
        | inl q ↦
            subscribe_all_keeps r t us (insert u (b.subscribe (or_channel b (get u ts))).0 ts) (
              ground (
                arith,
                get-insert u t (b.subscribe (or_channel b (get u ts))).0 ts,
                b.receivers-subscribe (or_channel b (get u ts)),
              ))
        | inr q ↦
            subscribed r t us (insert u (b.subscribe (or_channel b (get u ts))).0 ts)
              (ground (arith, q))
      ]
