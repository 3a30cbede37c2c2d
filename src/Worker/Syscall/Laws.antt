-- ===== src/Worker/Syscall/Laws.antt =====
-- What a download may reach, and what a refused syscall leaves alone.
use Prim.Native.String.{String}
use template_worker.Prelude.{
  ℕ, ◌≡◌, ◌≤◌, refl, true, false, not, Option, none, some, Result, ok, List, arith, inl, inr,
  Option-cases, Result-cases, eq_iff, is_some,
}
use template_worker.Prelude.Rows.{length}
use template_worker.Worker.Syscall.Cdn.{
  Url, Response, Http, max_attachment_size, is_discord_cdn, contains, check_url, receive,
  download_file,
}

-- The URLs that may be requested
abbrev pub IsCdn : Url → Type 0
IsCdn u =
    (u.scheme ≡ "https")
    × (u.domain ≡ some "cdn.discordapp.com")
    × (contains u.path ".." ≡ false)
    × (u.port ≡ none)

is_discord_cdn-domain :
    (d : Option String) → is_discord_cdn d ≡ true → d ≡ some "cdn.discordapp.com"
unfolding is_discord_cdn
is_discord_cdn-domain none h = absurd (ground arith)
is_discord_cdn-domain (some d) h = ground (arith, eq_iff d "cdn.discordapp.com")

no_port : (p : Option ℕ) → not (is_some p) ≡ true → p ≡ none
no_port none h = refl
no_port (some n) h = absurd (ground arith)

check_url-IsCdn :
    (http : Http) (url : String) (u : Url)
    → check_url http url ≡ ok u
    → (http.parse url ≡ ok u) × IsCdn u
unfolding check_url
check_url-IsCdn http url u h = elim (Result-cases (http.parse url)) [
  | inr (e, q) ↦ absurd (ground (arith, q))
  | inl (v, q) ↦
      let same : v ≡ u = ground (arith, q) in
      (
        ground (arith, q, same),
        (
          ground (arith, q, same, eq_iff v.scheme "https"),
          ground (arith, q, same, is_discord_cdn-domain v.domain),
          ground (arith, q, same),
          ground (arith, q, same, no_port v.port),
        ),
      )
]

receive-bounded :
    (resp : Response) (bytes : List ℕ)
    → receive resp ≡ ok bytes
    → length bytes ≤ max_attachment_size
unfolding receive
receive-bounded resp bytes h = elim (Option-cases resp.content_length) [
  | inl q ↦ absurd (ground (arith, q))
  | inr (n, q) ↦ elim (Result-cases resp.body) [
    | inr (e, p) ↦ absurd (ground (arith, q, p))
    | inl (b, p) ↦ ground (arith, q, p)
  ]
]

-- A file that is handed to a VM was asked for at an https URL of the Discord CDN, without a port or a path that leads upwards, and is no larger than an attachment may be.
pub download_file-eq-ok :
    (http : Http) (url : String) (bytes : List ℕ)
    → download_file http url ≡ ok bytes
    → ((u : Url) × (http.parse url ≡ ok u) × IsCdn u) × (length bytes ≤ max_attachment_size)
unfolding download_file
download_file-eq-ok http url bytes h = elim (Result-cases (check_url http url)) [
  | inr (e, q) ↦ absurd (ground (arith, q))
  | inl (u, q) ↦ elim (Result-cases (http.send u)) [
    | inr (e, p) ↦ absurd (ground (arith, q, p))
    | inl (resp, p) ↦
        let (parsed, cdn) = check_url-IsCdn http url u q in
        ((u, parsed, cdn), receive-bounded resp bytes (ground (arith, q, p)))
  ]
]

-- A download asks for nothing but URLs of the Discord CDN: two networks that answer alike there are not told apart.
pub download_file_asks :
    (http : Http) (send : Url → Result String Response) (url : String)
    → ((u : Url) → IsCdn u → http.send u ≡ send u)
    → download_file http url ≡ download_file (record http { send = send }) url
unfolding download_file check_url
download_file_asks http send url alike = elim (Result-cases (check_url http url)) [
  | inr (e, q) ↦ ground (arith, q)
  | inl (u, q) ↦ ground (arith, q, alike u (check_url-IsCdn http url u q).1)
]
