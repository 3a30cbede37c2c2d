-- ===== src/Mesophyll/Feeds/Laws.antt =====
-- What the drop of a guard removes from the feeds of src/mesophyll/server.rs.
use mathlib.Core.Path.{◌≡◌, refl}
use native.Mathlib.Omega.{arith}
use template_worker.Prelude.{
  ◌&&◌, String, Option, none, some, List, [], ◌∷◌, string_eq, ◌==◌, if◌then◌else◌, Option-cases,
  Bool-cases, inl, inr,
}
use template_worker.Prelude.Dict.{get, get-remove, get-insert}
use template_worker.Prelude.Rows.{any}
use template_worker.Worker.Tenant.{TenantId, id_eq}
use template_worker.Mesophyll.Feeds.{
  Broadcast, TopicGuard, Topics, Streams, is_unheard, forget, forget_all, put_back, drop_topics,
  sender_of, heard,
}

module _ {V : Type 0} (b : Broadcast V) where
  heard_again : (o : Option b.Sender) → heard b (heard b o) ≡ heard b o
  unfolding is_unheard
  heard_again none = refl
  heard_again (some tx) = ground arith

  get-forget :
      (u t : String) (ts : Topics b)
      → get t (forget b u ts) ≡ (if u == t then heard b (get t ts) else get t ts)
  unfolding is_unheard
  get-forget u t ts = elim (Option-cases (get u ts)) [
    | inl q ↦ ground (arith, q, string_eq.beq_iff u t)
    | inr (tx, q) ↦ ground (arith, q, get-remove u t ts, string_eq.beq_iff u t)
  ]

  get-forget_all :
      (us : List String) (t : String) (ts : Topics b)
      → get t (forget_all b us ts) ≡ (if any (λ u. u == t) us then heard b (get t ts) else get t ts)
  unfolding forget_all any
  get-forget_all [] t ts = refl
  get-forget_all (u ∷ us) t ts =
      ground (arith, get-forget_all us t (forget b u ts), get-forget u t ts, heard_again (get t ts))

  sender_of-put_back :
      (id j : TenantId) (t : String) (ts : Topics b) (s : Streams b)
      → sender_of b j t (put_back b id ts s) ≡ (if id == j then get t ts else sender_of b j t s)
  unfolding sender_of get
  sender_of-put_back id j t [] s = elim (Bool-cases (id == j)) [
    | inl q ↦ ground (arith, q, get-remove id j s)
    | inr q ↦ ground (arith, q, get-remove id j s)
  ]
  sender_of-put_back id j t (e ∷ ts) s = elim (Bool-cases (id == j)) [
    | inl q ↦ ground (arith, q, get-insert id j (e ∷ ts) s)
    | inr q ↦ ground (arith, q, get-insert id j (e ∷ ts) s)
  ]

  -- The drop of a guard removes the sender of a topic if the guard names the topic and nobody listens
  -- to it, and leaves every other sender of every tenant as it is.
  pub sender_of-drop_topics :
      (g : TopicGuard) (id : TenantId) (t : String) (s : Streams b)
      → sender_of b id t (drop_topics b g s) ≡ (
          if (g.id == id) && any (λ u. u == t) g.topics
          then heard b (sender_of b id t s)
          else sender_of b id t s)
  unfolding drop_topics sender_of
  sender_of-drop_topics g id t s = elim (Option-cases (get g.id s)) [
    | inl q ↦ ground (arith, q, id_eq.beq_iff g.id id)
    | inr (ts, q) ↦ ground (
      arith,
      q,
      sender_of-put_back g.id id t (forget_all b g.topics ts) s,
      get-forget_all g.topics t ts,
      id_eq.beq_iff g.id id,
    )
  ]
