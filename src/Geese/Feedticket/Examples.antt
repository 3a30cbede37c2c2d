-- ===== src/Geese/Feedticket/Examples.antt =====
-- Feed tickets with a concrete cipher, and a codec that knows one payload.
use template_worker.Prelude.{
  ℕ, ◌≡◌, ◌≤◌, refl, String, ◌&&◌, Bool, Option, none, some, Result, ok, err, List, [], ◌∷◌, arith,
  nat_beq, str_beq, eq_iff, if◌then◌else◌, true, false,
}
use template_worker.Worker.Tenant.{user, from_parts, tenant_type, tenant_id}
use template_worker.Worker.Tenant.Examples.{unary}
use template_worker.Geese.Signing.{Codec, expired, sign, check_signature}
use template_worker.Geese.Signing.Examples.{plain, sample_config, encode, decode, tag, same_bytes}
use template_worker.Geese.Feedticket.{Payload, FeedTicket, create_feedticket, verify_feedticket}
use template_worker.Geese.Feedticket.Laws.{verify_feedticket-create_feedticket}

abbrev pub sample : Payload
sample = record {
  tenant_type = "user";
  tenant_id = "11";
  user_id = 2;
  expires_at = 190;
  subscribed_topics = "t" ∷ [];
}

abbrev pub is_one : List String → Bool
is_one [] = false
is_one (t ∷ []) = str_beq t "t"
is_one (t ∷ u ∷ ts) = false

abbrev pub is_sample : Payload → Bool
is_sample p =
    str_beq p.tenant_type "user"
    && str_beq p.tenant_id "11"
    && nat_beq p.user_id 2
    && nat_beq p.expires_at 190
    && is_one p.subscribed_topics

abbrev pub encode_sample : Payload → Result String (List ℕ)
encode_sample p = if is_sample p then ok (7 ∷ []) else err "unsupported"

abbrev pub decode_sample : List ℕ → Option Payload
decode_sample [] = none
decode_sample (n ∷ []) = if nat_beq n 7 then some sample else none
decode_sample _ = none

is_one-eq : (ts : List String) → is_one ts ≡ true → ts ≡ "t" ∷ []
is_one-eq [] h = ground arith
is_one-eq (t ∷ []) h = ground (arith, eq_iff t "t")
is_one-eq (t ∷ u ∷ ts) h = ground arith

pub decode_sample-encode_sample :
    (p : Payload) (b : List ℕ) → encode_sample p ≡ ok b → decode_sample b ≡ some p
decode_sample-encode_sample p b h =
    ground
      (arith, eq_iff p.tenant_type "user", eq_iff p.tenant_id "11", is_one-eq p.subscribed_topics)

abbrev pub sample_codec : Codec Payload
sample_codec = record {
  to_vec = encode_sample;
  from_slice = decode_sample;
  from_slice-to_vec = decode_sample-encode_sample;
}

abbrev ticket : String × String
ticket = (encode (7 ∷ []), encode (tag "key" (7 ∷ [])))

abbrev opened : FeedTicket
opened = record { id = user 2; user_id = 2; subscribed_topics = "t" ∷ [] }

created :
    create_feedticket unary plain sample_codec sample_config 100 (user 2) 2 ("t" ∷ []) ≡ ok ticket
unfolding create_feedticket tenant_type tenant_id sign
created = refl

accepted :
    verify_feedticket unary plain sample_codec sample_config 190 ticket.0 ticket.1 ≡ ok opened
unfolding verify_feedticket check_signature decode encode tag same_bytes from_parts
accepted = refl

verify_feedticket-create_feedticket_example :
    verify_feedticket unary plain sample_codec sample_config 191 ticket.0 ticket.1 ≡ err expired
verify_feedticket-create_feedticket_example =
    verify_feedticket-create_feedticket unary plain sample_codec sample_config 100 191 (user 2) 2
      ("t" ∷ []) ticket (omega arith) (omega arith) created

abbrev Sound : Type 0
Sound =
    (bytes : List ℕ) × (payload : Payload) × (decode ticket.0 ≡ some bytes)
    × (decode ticket.1 ≡ some (tag "key" bytes))
    × (decode_sample bytes ≡ some payload)
    × (from_parts unary payload.tenant_type payload.tenant_id ≡ some opened.id)
    × (opened.user_id ≡ payload.user_id)
    × (opened.subscribed_topics ≡ payload.subscribed_topics)
    × (190 ≤ payload.expires_at)
