-- ===== src/Worker/Syscall/Cdn.antt =====
-- `CdnCall::exec` of src/worker/syscall/cdn.rs, after its rate limit. URLs and requests are the crates url and reqwest.
use Prim.Native.Char.{code}
use Prim.Native.String.{String}
use text.Mathlib.Text.{starts_with}
use template_worker.Prelude.{
  ℕ, Bool, true, false, ◌&&◌, ◌||◌, not, Option, none, some, Result, ok, List, ltb, str_beq,
  or_else, guard, ◌>>=◌, ◌>>◌, is_some,
}
use template_worker.Prelude.Rows.{length}

-- MAX_ATTACHMENT_SIZE of src/worker/limits.rs
abbrev pub max_attachment_size : ℕ
max_attachment_size = 5242880

pub record Url : Type 0 where
  pub scheme : String
  pub domain : Option String
  pub path : String
  pub host_str : Option String
  pub port : Option ℕ

-- `content_length` is the header where it can be read as a `usize`.
pub record Response : Type 0 where
  pub content_length : Option ℕ
  pub body : Result String (List ℕ)

pub record Http : Type 0 where
  pub parse : String → Result String Url
  pub send : Url → Result String Response

unfoldable pub is_ascii : String → Bool
is_ascii String.[] = true
is_ascii (String.◌∷◌ c s) = ltb (code c) 128 && is_ascii s

unfoldable pub is_discord_cdn : Option String → Bool
is_discord_cdn none = false
is_discord_cdn (some d) = str_beq d "cdn.discordapp.com"

-- `str::contains`
unfoldable pub contains : String → String → Bool
contains String.[] part = starts_with String.[] part
contains (String.◌∷◌ c s) part = starts_with (String.◌∷◌ c s) part || contains s part

-- The URL that is requested
unfoldable pub check_url : Http → String → Result String Url
unfolding is_ascii is_discord_cdn contains
check_url http url = do
  guard (is_ascii url) "Url must be ascii-only"
  u ← http.parse url
  guard (str_beq u.scheme "https") "HTTPS required"
  guard (is_discord_cdn u.domain) "Invalid Discord CDN domain"
  guard (not (contains u.path "..")) "Path traversal denied"
  guard (is_some u.host_str) "URL does not have a valid host"
  guard (not (is_some u.port)) "URL cannot have a port"
  ok u

unfoldable pub receive : Response → Result String (List ℕ)
receive resp = do
  content_length ← or_else resp.content_length "No content length set"
  guard (not (ltb max_attachment_size content_length)) "Max attachment size of 5242880 reached"
  bytes ← resp.body
  guard (not (ltb max_attachment_size (length bytes))) "Max attachment size of 5242880 reached"
  ok bytes

unfoldable pub download_file : Http → String → Result String (List ℕ)
unfolding check_url receive
download_file http url = do u ← check_url http url; resp ← http.send u; receive resp
