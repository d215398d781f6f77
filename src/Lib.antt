-- ===== src/Lib.antt =====
-- A model of the workflow engine plugin: work orders that Actors carry out, a Judge confirms and a
-- Manager controls.
--
-- The program. A Run holds a stack of call frames; the top frame stands at a node of the frozen
-- workflow definition. Each visit of a node is a work order, an Execution. The engine
-- (src/engine/engine.ts) has one handler per event: an Actor claims a result, the Judge accepts,
-- rejects or asks for context, a turn of a session ends, the Manager blocks, sets a model, runs or
-- resolves a program, resumes, replaces a Judge, resets. A handler reads the row of the workspace, decides, and writes the run and
-- its executions with the version that it read; the store (src/state/store.ts) checks every
-- write with src/state/invariants.ts and refuses what is stale or inconsistent.
--
-- The files.
--   Prelude: tests that compute to Booleans, lists, association lists (`Record<string, V>`), texts
--     as UTF-16 code units, results of code that throws.
--   Types: src/types.ts.
--   Roles: src/roles/roles.ts, and Roles/Failures: src/engine/failover.ts.
--   State: src/state/invariants.ts. State/Schema has `executionSchema`, State/Checks the groups of
--     `checkExecutionInvariants`, State/Invariants the checks of a run; State/Valid says what an empty
--     list of problems means. State/Store: the tables of src/state/store.ts and the
--     writes on them; State/Store/Transactions: `createRow`, `updateRow` and `writeExecution`, each
--     one a function from a database to a database or an error.
--   Engine: src/engine/engine.ts. Engine/Base has the acts of a handler; Engine/Claim is `handleClaim`,
--     Engine/Judging `handleJudgeClaim`, Engine/Returns and Engine/Advance `advanceKnownResult`,
--     Engine/Judges the dispatch of a Judge, Engine/Failover `tryFailover` and `tryJudgeFailover`,
--     Engine/TurnEnd `handleTurnEnded` and `retryJudgeOnce`, Engine/Manager `handleBlock`,
--     `handleSetRoleModel`, `handleReset` and `handleRestartReconcile`, Engine/Manager/Respawn
--     `handleRespawnJudge`, Engine/Manager/Resuming `handleResume` with its parts in Rejudging and Returning, Engine/Program
--     `handleRunProgram` and `handleResolveProgram`. Proofs stand in the modules below each.
--   Catalog: src/catalog/validate.ts. Catalog/Targets reads targets, Catalog/Reachability and
--     Catalog/Cycles are the two searches, Catalog/Problems lists what is wrong, Catalog/Normalize is
--     what is written, and Catalog/Validate `validateAndNormalize`.
--   Plugin/Turnbind: src/plugin/turnbind.ts. Plugin/Lifecycle: src/plugin/dispatch-lifecycle.ts, the
--     maps of the closure, and in Plugin/Lifecycle/Methods its methods. Tools/Authz:
--     src/tools/authz.ts.
--   Scenarios: a small workflow, and the theorems at its rows.
--
-- How state is modelled. A handler is a function from the row that it read, and from what the host and
-- the store answer while it waits, to its outcome and to the list of its acts in order. A write is the
-- act `put` with the run, the version read and the changed executions. So what another handler does in
-- between is whatever the answers say. Fresh tokens come from a function of a counter, the time is an
-- argument, and the executions of the store are a function from ids. A call stack is a list whose head
-- is the top frame.
--
-- Bounds and fuel. Numbers are natural numbers; a number in a catalog or among the parameters of a
-- program, which may be negative or a fraction, is its decimal text. The loop over the callers is recursion on the call
-- stack. The search for the Judge of a transfer is recursion on a number of rounds; the code stops at
-- an execution that it has seen, so that as many rounds as there are executions, and one, are enough.
-- The search for the nodes of a workflow takes one unit of fuel for each id in the queue: the start
-- node, and every push, which a node makes once. The search for cycles takes one for each call that is
-- open: the open calls are of different workflows, but for the last.
--
-- Not modelled: traces and the wording of messages, which nothing reads back; opening, reading and
-- maintaining the store, the parsing of a catalog, the editor, the facts of a turn's end, the monitor
-- and the glue to the host. The operations `drive`, `startRun` and `settleActivation` of the engine are
-- not modelled either. Prototype keys of JavaScript objects are left out.

pub mod Prelude
pub mod Types
pub mod Roles
pub mod State
pub mod Engine
pub mod Catalog
pub mod Plugin
pub mod Tools
pub mod Scenarios
