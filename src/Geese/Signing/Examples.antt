-- ===== src/Geese/Signing/Examples.antt =====
-- A concrete `Crypto`: a byte is written in unary, and a tag is the key followed by the message.
use Prim.Native.Char.{code}
use template_worker.Prelude.{
  ℕ, zero, suc, ◌+◌, ◌≡◌, ◌↔◌, refl, ap, ◌∙◌, String, Bool, true, false, ◌&&◌, Option, none, some,
  List, [], ◌∷◌, ◌++◌, arith, nat_beq, if◌then◌else◌,
}
use template_worker.Geese.Signing.{Crypto, Config}

pub ones : ℕ → String → String
ones zero s = s
ones (suc n) s = String.◌∷◌ "1" (ones n s)

unfoldable pub encode : List ℕ → String
unfolding ones
encode [] = String.[]
encode (n ∷ ns) = ones n (String.◌∷◌ "0" (encode ns))

pub prepend : ℕ → Option (List ℕ) → Option (List ℕ)
prepend n none = none
prepend n (some ns) = some (n ∷ ns)

pub decode_from : ℕ → String → Option (List ℕ)
unfolding prepend
decode_from n String.[] = if nat_beq n 0 then some [] else none
decode_from n (String.◌∷◌ c s) = elim (nat_beq (code c) b'0') [
  | true ↦ prepend n (decode_from 0 s)
  | false ↦ decode_from (n + 1) s
]

unfoldable pub decode : String → Option (List ℕ)
unfolding decode_from
decode s = decode_from 0 s

decode_from-ones : (m n : ℕ) (s : String) → decode_from m (ones n s) ≡ decode_from (m + n) s
unfolding decode_from ones
decode_from-ones m zero s = ap (λ (k : ℕ). decode_from k s) (omega arith)
decode_from-ones m (suc n) s =
    ground (arith, decode_from-ones (m + 1) n s, ap (λ (k : ℕ). decode_from k s) (assoc m n))
  where
    assoc : (a b : ℕ) → a + 1 + b ≡ a + suc b
    assoc a b = omega arith

pub decode-encode : (b : List ℕ) → decode (encode b) ≡ some b
unfolding decode encode
decode-encode [] = refl
decode-encode (n ∷ ns) =
    decode_from-ones 0 n (String.◌∷◌ "0" (encode ns))
    ∙ ap (prepend (0 + n)) (decode-encode ns)
    ∙ ap (λ (k : ℕ). some (k ∷ ns)) (omega arith)

unfoldable pub same_bytes : List ℕ → List ℕ → Bool
same_bytes [] [] = true
same_bytes (a ∷ as') (b ∷ bs) = nat_beq b a && same_bytes as' bs
same_bytes _ _ = false

pub same_bytes_iff : (a b : List ℕ) → (same_bytes a b ≡ true) ↔ (b ≡ a)
unfolding same_bytes
same_bytes_iff [] [] = ground arith
same_bytes_iff [] (b ∷ bs) = ground arith
same_bytes_iff (a ∷ as') [] = ground arith
same_bytes_iff (a ∷ as') (b ∷ bs) = ground (arith, same_bytes_iff as' bs)

pub codes : String → List ℕ
codes String.[] = []
codes (String.◌∷◌ c s) = code c ∷ codes s

unfoldable pub tag : String → List ℕ → List ℕ
unfolding codes
tag token payload = codes token ++ payload

abbrev pub plain : Crypto
plain = record {
  hex_encode = encode;
  hex_decode = decode;
  hmac = tag;
  verify_slice = same_bytes;
  decode-encode = decode-encode;
  verify_slice_iff = same_bytes_iff;
}

abbrev pub sample_config : Config
sample_config = record { blob_token = "key"; api = "https://api.example.org" }
