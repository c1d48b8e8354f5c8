-- ===== src/Lib.antt =====
-- A model of SlncTrZ-MCP, a gateway that gives AI agents tools over MCP (TypeScript, under src/), and
-- the theorems about it. The parts modelled are three stateful cores that the protocol layer
-- (src/protocol/mcp-server.ts) and the HTTP layer (src/auth/oauth-http-router.ts) call: the store of
-- the two-agent Debate, the runtime of managed tasks, and the stores of the authentication layer.
--
-- Prelude: names of the libraries passed on; Boolean tests (Tests), results of steps that may throw
--   (Results), lists as tables with selection, update and deletion (Lists, Tables), tables with
--   distinct keys, as those of a Map are (Keys), and JavaScript strings (Texts).
-- Debate: src/debate/store.ts, with the types of src/debate/types.ts and src/debate/errors.ts.
--   Types: the rows, snapshots and errors. Database: the three tables of the SQLite schema with their
--   keys and constraints, and the queries. Store: `DebateStore` and its methods create, join,
--   readMember; Store/Send: send with its replay; Store/Owner: stopMember and the owner's methods.
--   Service: src/debate/service.ts, the client of the store, with create, join, read (Service), send,
--   stop (Service/Turn), the owner's methods (Service/Owner) and wait (Service/Waiting); its histories
--   are in Service/History, and the theorems on wait in Service/Waits. Waiters: src/debate/waiters.ts,
--   the registry that the service notifies, with its theorems in Waiters/Histories.
--   Invariant, Isolation, Progress, Turns, Ended: the theorems, over the histories of History.
-- Task: src/task/runtime.ts, with the results of commands of src/kernel/exec.ts. Types: tasks,
--   snapshots, events, errors. Runtime: the state of `createTaskRuntime`, its limits, pruning, lookups
--   and text checks; Runtime/Runner: start, cancel, shutdown; Runtime/Reads: get, wait;
--   Runtime/Coordination: create, list, claim, release, complete, fail. History: the events.
--   Effects: the specification of all operations as a transition system, with Refinement and
--   Pruned; the other modules state their theorems over it.
-- Auth: RateLimiter is src/auth/fixed-window-rate-limiter.ts; HostTokens is
--   src/auth/host-token-store.ts; ConnectionProfile is src/auth/connection-profile.ts and
--   src/auth/host-token-auth.ts, the client of the store. Grants is src/auth/oauth-grant-store.ts: its
--   tables, transactions and pruning (Grants), the lookups and the insertion of tokens
--   (Grants/Lookup), issue (Grants/Issue), rotate (Grants/Rotate) and the other methods
--   (Grants/Manage). Grants/Changes has one constructor for each kind of write to the tables;
--   Effects, Steps, Owner and History show that every method makes such changes only, and
--   Sound, Preserved, Revoked and Withdrawn reason on them. Rotated, Left, Replayed and
--   Successors are about what a rotation leaves, Family and Retried about the next presentation of
--   its token; Pair, Labels, Readable and Issued about what a lookup answers.
--
-- Conventions. A name of the source is in snake case here (`readMember` is `read_member`), a class or
-- an interface keeps its name. A method takes the state and returns it with its result; a thrown error
-- is `err`. A SQLite table is a list of rows; a transaction that throws leaves the tables as they
-- were; a violated constraint is an error. A JavaScript Map is a list in the order of insertion.
-- Clocks, random identifiers and hashes are arguments. An ISO time is its number of milliseconds:
-- `toISOString` and `Date.parse` are inverse on the times that the code makes, and their texts order
-- as the times do. Numbers are natural: the code checks that its
-- inputs are non-negative safe integers, and a difference that could be negative is compared with a
-- positive bound or clamped at 0 in the source.
--
-- Asynchronous code (src/task/runtime.ts) is a set of steps that the one event loop runs to the end:
-- `start` returns at its first await; the launch settles, the command settles, and the end of a failed
-- start are events of their own, each guarded by what the promise waits for; a promise settles once.
-- The events come in any order. The winner of a race with a timer or an abort signal is an
-- argument (`WaitOutcome`). The loop of `wait` (src/debate/service.ts) runs over a list of rounds: what
-- its two reads find, the clocks, and how each sleep ends; without an answer after the last round it
-- still sleeps (`none`). A promise of the registry of waits is the serial number of its signal.
--
-- All loops are structural recursions on lists; the list of rounds is the only fuel, and
-- `wait-answers` says how many rounds are enough. The bounds are the source's: 64 host tokens, 64
-- UTF-16 code units for the label of a connection, 3600 seconds for the grace of a rotation, 256
-- UTF-16 code units for a title, 65536 bytes for instructions and results, and limits that the
-- caller sets, for every value that passes the source's checks.
--
-- Parameters: `locale_before`, the order that `localeCompare` gives identifiers, `sha256`, and
-- `parse_url`, the text that zod's URL check makes of a text, if it accepts it; all are arbitrary
-- functions. The number of a label "Agent N" is a JavaScript number: Prelude/Numbers rounds it to 53
-- bits and prints it with the fewest digits. Infinity does not arise: a label has at most 64 code units.
--
-- Not modelled: the opening of databases and files, pragmas and access rights (I/O), and the
-- migrations of older schemas; the OAuth service over its grant store; the file and command tools
-- of src/kernel; policies, the operation ledger, extensions, the owner console, observability, and the
-- packaging of src/standalone.
mod Prelude
pub mod Debate
pub mod Task
pub mod Auth
