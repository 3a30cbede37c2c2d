-- ===== src/Lib.antt =====
-- Anti-Raid template-worker runs the scripts of its tenants (Discord guilds and users). A worker
-- process keeps a Luau VM for each of its tenants and a cached state of each tenant, which says what
-- events reach the VM. The code in a VM makes syscalls: those on its state go from the worker to the
-- master, which owns the database, and come back with results and with a new tenant state if the
-- subscriptions changed. Presigned URLs and feed tickets let others in for a while. The master starts
-- the workers again when they die, sends them events, and answers calls over HTTP: a token in a
-- request gives the user and the context, and the context decides what the call may do.
--
-- The library follows the source tree:
--
--   Prelude          helpers: Boolean tests, results with `?`, hash maps, database rows, integers,
--                    and actions, which are functions from a state to a state and a result
--   Geese/Ratelimit  src/geese/ratelimit.rs: `check` and `sub_check`
--   Geese/Signing    the part that urlsign.rs and feedticket.rs share: tag, hex, verification
--   Geese/Urlsign    src/geese/urlsign.rs: `create_url`, `verify_url`
--   Geese/Feedticket src/geese/feedticket.rs: `create_feedticket`, `verify_feedticket`
--   Geese/TenantState src/geese/tenantstate.rs: tenant states out of rows
--   Geese/State      src/geese/state.rs: Ops (operations, flags), Tables (rows, answers), Kv, Global
--                    and Events (one function for each branch of `apply_op`), Exec (`apply_op`,
--                    `do_op`, `FastStateReq::execute`), Blobs (`fetch_blob`); the other files prove
--                    what the operations keep
--   Geese/Stratum    src/geese/stratum.rs: reads with their fallback to Discord, routing of events
--   Mesophyll        src/mesophyll/server.rs and client.rs: `exec_state_op` on both sides; Thread is
--                    the worker's service, Fleet the connections of the master and the calls of
--                    `WorkerPool` that go over them, Feeds the topics of feeds, Startup what a
--                    worker asks for at its start
--   Worker/Tenant    `Id` of src/worker/workervmmanager.rs
--   Worker/Node      `WorkerVmManager` and `WorkerTenantState` of src/worker
--   Worker/Dispatch  src/worker/workerdispatch.rs: `dispatch_event_complex`, `save_error`;
--                    Worker/SimpleEvent has the events
--   Worker/Syscall   src/worker/syscall: `handle_syscall`, `CdnCall::exec`, `ArDiscordProvider`
--   Worker/Thread    src/worker/workerthread.rs: the message loop as a step relation
--   Worker/Coherence the cached states of a worker against the database
--   Master/ProcessHandle src/master/workerprocesshandle.rs: one run of a worker, the backoff
--   Master/Pool      src/master/workerpool.rs: supervisor and shutdown as a step relation
--   Master/Context, Handler and Syscall  src/master/syscall/mod.rs: contexts, errors and limits;
--                    what the calls share; `handle_syscall`
--   Master/Sessions and Sessions/Tokens  src/master/syscall/internal/auth.rs
--   Master/Auth      src/master/syscall/auth.rs: logins, API sessions
--   Master/Bot and Bot/Admin  src/master/syscall/bot.rs
--   Master/Gkv       src/master/syscall/gkv.rs
--   Master/Discord and Discord/Exec  src/master/syscall/discord.rs
--   Master/WebApi and WebApi/Socket  src/master/syscall/webapi.rs: authorization, answers, the feed
--                    socket
--   Migrations       src/migrations/mod.rs: which migrations are applied, in what order
--
-- State is passed explicitly: a function that changes something takes it and returns it next to its
-- answer. Errors are values of `Result`. A table is the list of its rows, in the order in which a
-- query without ORDER BY answers; a transaction is a copy of the tables that replaces them when it is
-- committed. Every statement may be refused by the driver, which is an argument of the operation.
-- Numbers are natural numbers; sums of `u64` are taken modulo 2^64. All recursion is structural.
-- Times of sessions count microseconds, and one reading of the clock stands for all those in a call.
-- Where a session for the API would end after the last date of chrono, the call panics, which is an
-- outcome of its own (`Stop`). A call that asks a worker changes the database of the master as well,
-- since the code of the tenant that runs there writes to it before the answer. A step of the supervisor or of a worker's thread is atomic;
-- their interleavings are the sequences of steps.
--
-- Code of other crates is a parameter: Discord ids and the sharding function (`Snowflakes`), HMAC and
-- hex (`Crypto`), MessagePack (`Codec`, `Wire`), JSON of stored values (which is read back
-- as written: infinite and undefined numbers are not among them) and the LIKE operator (`World`), the limiters of governor (`Governor`), the Lua runtime (`Luau`, `Run`), URLs and requests
-- (`Http`), the Discord API (`Surroundings`, `Response`, `Remote`, `Dapi`), the gateway service
-- (`StratumClient`), the caches of moka (`Cache`), broadcast channels (`Broadcast`) and UUIDs
-- (`Uuids`). Where the code relies on them, a
-- field states the law. The connection of gRPC to a worker is the look-up of the process that listens
-- at a path. The text of a status or of an error that contains an id or a decoding detail is
-- abbreviated.
--
-- Not modelled are the conversions from and to Lua values, logging, the router of the web API, what
-- each migration does, and the start of the programs.
pub mod Prelude
pub mod Worker
pub mod Geese
pub mod Master
pub mod Mesophyll
pub mod Migrations
