-- ===== src/Master/WebApi.antt =====
-- src/master/syscall/webapi.rs: the routes of the website over HTTP, and who a caller is.
pub mod Socket
pub mod Laws
pub mod Examples
use Prim.Native.String.{◌++◌}
use template_worker.Prelude.{
  ℕ, ◌≡◌, Bool, true, false, ◌||◌, String, Option, none, some, Result, ok, err, List, [], ◌∷◌,
  ◌++◌ as append, map, map_err, or_else, str_beq, if◌then◌else◌,
}
use template_worker.Prelude.Rows.{length}
use template_worker.Prelude.Actions.{Action, pure, lift, ◌>>=◌, ◌>>◌}
use template_worker.Master.Context.{
  MSyscallContext, MSyscallError, Stop, returned, returning, api_anon, api_anon_getter, api_oauth,
  api_token, generic, unauthorized, entity_not_found, ratelimited,
}
use template_worker.Master.Sessions.{
  WebDb, Surroundings, AuthResponse, success, api_banned, invalid_token, check_web_auth,
}
use template_worker.Master.Sessions.Tokens.{generically}
use template_worker.Master.Bot.{get_blob_data, blob_data}
use template_worker.Master.Syscall.{
  Site, Moment, MSyscallArgs, bot, Master, MSyscallRet, bot_ret, handle_syscall,
}

-- The status of a response to an error, and its header Retry-After
unfoldable pub status_of : MSyscallError → ℕ × Option ℕ
status_of (ratelimited retry_after bucket req_bucket) = (429, some retry_after)
status_of _ = (400, none)

pub record AuthorizedUser : Type 0 where
  pub user_id : ℕ
  pub session_type : String

abbrev pub authorized : AuthResponse → Result MSyscallError AuthorizedUser
authorized (success user_id session_id state session_type) =
    ok (record { user_id = user_id; session_type = session_type })
authorized (api_banned user_id session_id session_type) =
    err (unauthorized "You have banned from using this service")
authorized invalid_token =
    err (unauthorized "The token provided is invalid. Check that it hasn't expired and try again?")

-- The context of `/msyscall`
unfoldable pub context_of : Option AuthorizedUser → MSyscallContext
context_of none = api_anon
context_of (some user) =
    if str_beq user.session_type "login" || str_beq user.session_type "app_login"
    then api_oauth user.user_id
    else api_token user.user_id

-- A response with a blob: the status, the headers that name the file and its length, and the body
pub record BlobResponse : Type 0 where
  pub status : ℕ
  pub content_type : String
  pub content_disposition : String
  pub cache_control : String
  pub content_length : ℕ
  pub body : List ℕ

module _ {V J Json : Type 0} (site : Site V J Json) where
  abbrev pub on_web :
      {A : Type 0} → Action WebDb MSyscallError A → Action (Master site) MSyscallError A
  on_web f s = let (w, r) = f s.web in (record s { web = w }, r)

  -- `AuthorizedUser::from_request_parts`; a header that is no text is like none.
  unfoldable pub from_request_parts :
      Surroundings → Option String → Action WebDb MSyscallError AuthorizedUser
  unfolding check_web_auth
  from_request_parts x header = do
    token ← lift (or_else header (unauthorized "No Authorization header found"))
    auth_response ← generically (check_web_auth site.uuids site.world.sf site.bad_id x token)
    lift (authorized auth_response)

  abbrev some_user : AuthorizedUser → Action WebDb MSyscallError (Option AuthorizedUser)
  some_user user = pure (some user)

  -- `OptionalAuthorizedUser`; the outer `Option` is whether the header is there.
  unfoldable pub optional_user :
      Surroundings → Option (Option String) → Action WebDb MSyscallError (Option AuthorizedUser)
  unfolding from_request_parts
  optional_user x none = pure none
  optional_user x (some header) = do user ← from_request_parts x header; some_user user

  unfoldable pub msyscall :
      {C : Type 0}
      → Moment C Json
      → Option (Option String)
      → MSyscallArgs V
      → Action (Master site) Stop (MSyscallRet site C)
  unfolding optional_user context_of handle_syscall
  msyscall m header args = do
    user ← returning (on_web (optional_user m.surroundings header))
    handle_syscall site m args (context_of user)

  abbrev blob_response : List ℕ → String → BlobResponse
  blob_response blob filename = record {
    status = 200;
    content_type = "application/octet-stream";
    content_disposition = "attachment; filename=\"" ++ filename ++ "\"";
    cache_control = "public, max-age=31536000, immutable";
    content_length = length blob;
    body = blob;
  }

  abbrev presigned_of : {C : Type 0} → Result Stop (MSyscallRet site C) → Result Stop BlobResponse
  presigned_of (ok (bot_ret (blob_data blob filename))) = ok (blob_response blob filename)
  presigned_of (ok _) = err (returned (entity_not_found "Failed to get blob back from server"))
  presigned_of (err e) = err e

  -- `/blob`; an error is answered with the status 400.
  unfoldable pub get_presigned :
      {C : Type 0} → Moment C Json → String → String → Action (Master site) Stop BlobResponse
  unfolding handle_syscall
  get_presigned m payload sig s =
      let (s', r) = handle_syscall site m (bot (get_blob_data payload sig)) api_anon_getter s in
      (s', presigned_of r)
