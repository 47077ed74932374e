-- ===== src/Lib.antt =====
-- Telepair shares a terminal session between several people in a browser. This library models the
-- parts of its Rust code that decide who may do what, and proves what they guarantee.
--
-- The program. `telepair-core` (crates/telepair-core/src) has the data types and the store: users,
-- sessions, participants, invite tokens, registrations that wait for a one-time code, recordings and
-- their share links, in SQLite. `telepair-gateway` (crates/telepair-gateway/src) serves HTTP and
-- WebSocket clients; its session hub holds the live sessions: a pseudo-terminal each, with the
-- participants connected to it, the recent output, the chat and the recording. A client attaches to
-- a session of the hub after the store has let it in. A session closed in the store is taken out of
-- the hub, and the reaper of the hub closes idle sessions in the store.
--
-- The files.
-- Base: what all others share: Boolean tests, lists with native lengths, SQL tables as lists of
--   rows (`find`, `update_where`, ...), keys that no two rows share, hash maps.
-- Core: telepair-core/src. Role is permission.rs; Failure is error.rs and the test for a
--   uniqueness violation of auth.rs; Status and Records are the enumerations and structs of
--   session.rs and recording.rs; Protocol is protocol.rs; AuditEvents is the event types of audit.rs;
--   RoundTrip is about the text columns.
-- Storage: telepair-core/src/storage/sqlite.rs, a function for each method, over the tables of
--   Storage.Db: Sessions (sessions and participants), Listings (the sessions that a user sees),
--   Invites, Accounts (users, tokens, passwords), Logins (the password throttle), Pending (one-time
--   codes), Recordings (with share links), UserTargets. Enabled is about the methods that write
--   accounts, taken together.
-- Hub: telepair-gateway/src/session_hub.rs and the slot of recording_writer.rs. Scrollback and
--   Recorder are the buffers of one session; Live is one session and what each method does to it;
--   Sessions is the map of sessions behind the lock; Reachable is the hub as a step relation;
--   Attach, Presence and Reaping are about subscribers, tabs and the reaper.
-- Control: telepair-control/src, the services over the store. Control itself is login and the
--   verification of one-time codes of auth_service.rs, and Passwords is the password change and the
--   session access of the same file; Sessions and Listings are session_service.rs; Invites and
--   Redeem are invite_service.rs; UserTargets is user_target_service.rs; Recordings is
--   recording_service.rs; Audit is what a call adds to the audit log.
-- Targets: telepair-core/src/target.rs and telepair-agent/src/virtual_target.rs: the engine over the
--   target file, with the substitution of environment variables.
-- Gateway: telepair-gateway/src. World is the state that the handlers share (state.rs) and how a
--   handler ends early; Admission, Socket and Forwarder are ws.rs: the handshake, the loop over what
--   the client sends, and the task that forwards broadcasts; Accounts, Sessions, Roles, Recordings
--   and Targets are handlers of http.rs. RateLimit is rate_limit.rs.
-- Tests: a small database and a small hub, and the theorems at them.
--
-- The correspondence. A method of the store is one statement or one transaction, so it is a function
-- from the database to its result and the new database; an error leaves the database as it was. What
-- a call takes from outside is an argument: the clock, fresh identifiers and tokens (`Host`), and
-- the digest `token_sha256` of the sha2 crate. Identifiers, digests, e-mail addresses, codes and
-- instants are natural numbers, since the code only compares them; a text kept in a column is a
-- string. The uniqueness and foreign-key constraints that the schema declares are checked where a
-- row is inserted; theorems take them as hypotheses on the tables they start from. A critical
-- section of the hub is a function on the map of sessions, and the map that another task left in
-- between is a further argument (`start_or_join`, `sweep`). A broadcast channel is the list of what
-- was sent, with a receiver as a position in it; a receiver that lags is an event of its own in the
-- loop and the forwarder. The channel of a recording is what was sent and the room left.
--
-- A call of a service returns an `Outcome`: its answer, the database and the audit rows it adds. A
-- handler is a function from `AppState` (database, hub, targets, audit log) to a `Reply`; `check` and
-- `serve` are the `?` after a test and after a call of a service. SQLite itself fails only in the
-- look-ups of the handshake, when `Outage` says so. A call of argon2 on a blocking thread answers
-- `none` when its task panics; each send of the forwarder has its own flag for getting through. The loop of a socket is a function from the
-- events that wake it, in their order, to the actions it takes.
--
-- Bounds. The scrollback holds 65536 bytes with a counter that saturates at 2^64 - 1, the drop
-- counter of a recording wraps at 2^64, and the theorems that need it say that a chunk is shorter
-- than 2^63 bytes. A limit of uses is a natural number, as negative ones are refused on creation.
-- A guest name is drawn at most five times, as in the code. The substitution of variables runs on
-- fuel, one more than the characters of the text, which is proved to be enough. The range of a
-- chrono duration is the parameter `duration_max`. All other recursion is on lists.
--
-- Not modelled: the handlers of http.rs for invites and the owner's targets, which extract their
-- arguments and call the services, and those that only read; the recording file format and its
-- writer; registration with its mail and the accounts that an administrator creates; the audit log's query;
-- the pseudo-terminal itself, the command line and the web client.
pub mod Base
pub mod Core
pub mod Storage
pub mod Hub
pub mod Control
pub mod RateLimit
pub mod Tests
pub mod Gateway
pub mod Targets
