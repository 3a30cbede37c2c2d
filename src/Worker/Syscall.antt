-- ===== src/Worker/Syscall.antt =====
-- src/worker/syscall: what the code in a VM asks of the worker.
pub mod Cdn
pub mod Discord
pub mod Laws
pub mod Examples
use Prim.Native.String.{String, ◌++◌}
use template_worker.Prelude.{
  ℕ, Bool, true, false, ◌||◌, Option, none, some, Result, ok, err, List, [], ◌∷◌, str_beq, ◌>>=◌,
  ◌>>◌, if◌then◌else◌, map_err, string_eq,
}
use template_worker.Worker.Tenant.{TenantId}
use template_worker.Geese.Ratelimit.{Governor, RlExceeded, Ratelimiter, check, sub_check}
use template_worker.Geese.TenantState.{TenantState}
use template_worker.Geese.State.Ops.{StateOp, FastStateReq, from_ops, no_flags}
use template_worker.Geese.State.Tables.{Db, StateExecResult, StateExecResponse, Error}
use template_worker.Geese.State.Exec.{Request, execute_fast}
use template_worker.Mesophyll.Server.{error_text}
use template_worker.Mesophyll.Client.{Channel, client_exec_state_op}
use template_worker.Worker.Node.{Node, reload_for_tenant}
use template_worker.Worker.Dispatch.{System}
use template_worker.Worker.Syscall.Cdn.{Http, download_file}

-- The limiters of one VM
pub record Ratelimits (g : Governor (Unit {0})) : Type 0 where
  pub discord : Ratelimiter g
  pub object_storage : Ratelimiter g
  pub cdn : Ratelimiter g
  pub runtime : Ratelimiter g

-- `A` are the calls of the Discord API (crate dapi), `B` its answers; `GetStats` is the one `MetaCall`.
pub data SyscallArgs (V A : Type 0) : Type 0 where
  state : List (StateOp V) → SyscallArgs V A
  cdn_download_file : String → SyscallArgs V A
  discord : A → SyscallArgs V A
  meta_get_stats : SyscallArgs V A

pub data SyscallRet (V B : Type 0) : Type 0 where
  state : List (StateExecResult V) → Option TenantState → SyscallRet V B
  cdn_buffer : List ℕ → SyscallRet V B
  discord : String → B → SyscallRet V B
  meta_stats : ℕ → ℕ → ℕ → SyscallRet V B

-- What one syscall meets outside the worker
pub record Surroundings (R A B : Type 0) : Type 1 where
  pub g : Governor (Unit {0})
  pub show_duration : ℕ → String
  pub mark_broken : R → Result String (Unit {0})
  pub http : Http
  pub api_name : A → String
  pub execute : TenantId → A → Result String B
  pub get_status : Result String (ℕ × ℕ)
  pub start_time : ℕ
  pub now : ℕ
  pub request : Request

-- `RlExceeded::to_error_string`
unfoldable pub to_error_string : (ℕ → String) → RlExceeded → String
to_error_string show_duration e =
    "Ratelimit hit for bucket '"
    ++ e.bucket
    ++ "', req bucket '"
    ++ e.req_bucket
    ++ "', wait time: "
    ++ show_duration e.dur

-- `DISCORD_GLOBAL_IGNORE`
unfoldable pub is_global_ignored : String → Bool
is_global_ignored name =
    str_beq name "CreateInteractionResponse" || str_beq name "CreateFollowupMessage"

module _ {V B : Type 0} where
  abbrev fast_answer : Result Error (List (StateExecResult V)) → Result String (SyscallRet V B)
  fast_answer (err e) = err (error_text e)
  fast_answer (ok rs) = ok (SyscallRet.state rs none)

module _ {R A B : Type 0} (x : Surroundings R A B) where
  abbrev discord_limit : String → Ratelimiter x.g → Ratelimiter x.g × Result RlExceeded (Unit {0})
  discord_limit name r =
      if is_global_ignored name then sub_check x.g name tt x.now r else check x.g name tt x.now r

  abbrev stats : {V : Type 0} → ℕ × ℕ → SyscallRet V B
  stats (guilds, users) = SyscallRet.meta_stats guilds users x.start_time

module _ {R F V J A B : Type 0} (ch : Channel V J) (x : Surroundings R A B) where
  abbrev reload_answered :
      TenantId
      → System R F J
      → List (StateExecResult V)
      → Option TenantState
      → System R F J × Result String (SyscallRet V B)
  reload_answered id s rs none = (s, ok (SyscallRet.state rs none))
  reload_answered id s rs (some ts) =
      let out = reload_for_tenant x.mark_broken id ts s.node in
      (record s { node = out.0 }, (do was_reloaded ← out.1; ok (SyscallRet.state rs (some ts))))

  abbrev pub answer_state :
      TenantId
      → System R F J
      → Db J × Result String (StateExecResponse V)
      → System R F J × Result String (SyscallRet V B)
  answer_state id s (db, err e) = (record s { db = db }, err e)
  answer_state id s (db, ok resp) =
      reload_answered id (record s { db = db }) resp.results resp.new_tenant_state

  abbrev run_split :
      TenantId
      → System R F J
      → Result (List (StateOp V)) (List FastStateReq)
      → System R F J × Result String (SyscallRet V B)
  run_split id s (ok reqs) = (s, fast_answer (execute_fast ch.world x.now id reqs))
  run_split id s (err ops) =
      answer_state id s (client_exec_state_op ch id ops no_flags x.request s.db)

  -- The branch `State` after its rate limit
  unfoldable pub state_syscall :
      TenantId → List (StateOp V) → System R F J → System R F J × Result String (SyscallRet V B)
  state_syscall id ops s = run_split id s (from_ops ops)

  abbrev limited :
      Result RlExceeded (Unit {0})
      → System R F J × Result String (SyscallRet V B)
      → System R F J
      → System R F J × Result String (SyscallRet V B)
  limited (err e) next s = (s, err (to_error_string x.show_duration e))
  limited (ok u) next s = next

  unfoldable pub handle_syscall :
      TenantId
      → SyscallArgs V A
      → Ratelimits x.g
      → System R F J
      → Ratelimits x.g × (System R F J × Result String (SyscallRet V B))
  unfolding state_syscall
  handle_syscall id (SyscallArgs.state ops) rl s =
      let (limiter, answer) = check x.g "syscall" tt x.now rl.object_storage in
      (record rl { object_storage = limiter }, limited answer (state_syscall id ops s) s)
  handle_syscall id (SyscallArgs.cdn_download_file url) rl s =
      let (limiter, answer) = check x.g "DownloadFile" tt x.now rl.cdn in
      (
        record rl { cdn = limiter },
        limited answer (s, (do bytes ← download_file x.http url; ok (SyscallRet.cdn_buffer bytes)))
            s,
      )
  handle_syscall id (SyscallArgs.discord op) rl s =
      let name = x.api_name op in
      let (limiter, answer) = discord_limit x name rl.discord in
      (
        record rl { discord = limiter },
        limited answer (s, (do value ← x.execute id op; ok (SyscallRet.discord name value))) s,
      )
  handle_syscall id SyscallArgs.meta_get_stats rl s =
      let (limiter, answer) = check x.g "GetStats" tt x.now rl.runtime in
      (
        record rl { runtime = limiter },
        limited answer (s, (do status ← x.get_status; ok (stats x status))) s,
      )
