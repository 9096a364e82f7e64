-- ===== src/Lib.antt =====
-- AgentDock MCP harness: the services that keep the durable state of coding Tasks for an MCP client,
-- and the rules by which that state may change.
--
-- The parts, and how they interact. Every service keeps its documents in one table of the state
-- store, and changes a document by a mutator that runs inside one transaction. The task service
-- gives the mutations of a Task; the approval service mutates the same documents, under the
-- decisions of the policy service; the completion evidence decides whether a Task may be finished.
-- The workflow service drives the phases of a goal and reads finished Tasks as the evidence of an
-- implementation. The idempotency service binds a caller's key to one Run. The plan service stores
-- the steps of a Plan of a Task and drives them, one after another, under a lease.
--
-- Base        shared names, lists, `trim`, parsed JSON; src/errors.js as `Result` over the codes
-- Store       src/state-store.js with sqlite: keys, loadDocument, saveDocument, deleteDocument,
--             mutateDocument with its BEGIN, INSERT, COMMIT and ROLLBACK, and their failures
-- Task        src/task-service.js and src/completion-evidence.js: the Task document and every
--             mutation of it (Starts, Finish, Cleanup, Evidence), `get` and `mutate` over Store
-- Policy      src/policy-service.js: parseRules and evaluate
-- Approval    src/approval-service.js: authorize, get and respond, over Task and Policy
-- Lifecycle   the calls of Task and Approval on one stored Task, in any order, as a relation
-- Workflow    src/workflow-service.js: start, update and advance, with their checks
-- Idempotency src/idempotency-service.js: claim, lookup, takeover, mark and prune
-- Audit       src/audit-service.js: the bounded log of a Task, append and get
-- Process, Plan  src/process-service.js: the statuses of a Run, its live output and the pages of it.
--             src/plan-service.js: validateStep (Validate), validateDependencies (Dependencies),
--             start (Start), cancel and continue (Requests), the mutations of the driver
--             (Mutators), its choice and its lease (Driver), and a Plan with its driver and its
--             user (System)
--
-- Conventions. A method becomes a function of the same name in snake case, from the database to the
-- database and a result; the database is there beside a thrown error too. The mutator of a method is
-- a function of its own on the document (`finish`, `authorize_task`, `advance_workflow`). Errors are
-- their codes. Times are milliseconds in ℕ: a call reads the clock once, as an argument, and prune
-- and claim read it twice. New identifiers are arguments. A field that an old document may lack is
-- read as the code's default. Every loop is over a list, but the search of validateDependencies,
-- which has fuel for one level more than there are steps: each level adds a step to `visiting`.
--
-- The driver of a Plan is a function of events: an event is what happens between two awaits of the
-- source, a Phase is where the driver awaits, with the step it read before. The events of the user,
-- of the driver and a crash of the service come in any order, at any times; one driver at a time
-- works on a Plan, and its claims are by lease. The stored Plan is a value: each mutator returns the
-- document that `#mutate` stores. What Runs, Git and the Task service answer is part of an event.
--
-- What lies outside is an argument: RegExp (`compile`), toUpperCase (`upper`), SHA-256 and the sort
-- by localeCompare (`Outside`, `fingerprint`, `operation_id`), the order of SQLite's ORDER BY, and
-- the answers of Git and of the file system during a cleanup (`Worktree`). Since `cleanup` awaits
-- those answers, it gets one database at its first read and another at its final mutation.
--
-- Not modelled: the JSON file backend, legacy import and leases of the store; fields that are only
-- displayed (messages, details, target_commits); the views of the workflow and the Task; and the
-- services around files, skills, HTTP and the command line; of the process service the child
-- processes, signals and leases, and the writes of a record; of the plan service the views
-- (get, latestForTask, wait), the timers, and the calls of Git and of the Task service in a task action.
-- `audit.append` may throw in `start` and in a task action, and is taken to return elsewhere. The steps of
-- mutateDocument itself may fail in mutate_document_with; the services are modelled with the ones that
-- succeed. Every Task has a verification status, so the "LEGACY" of old documents is left out.
pub mod Base
pub mod Store
pub mod Task
pub mod Policy
pub mod Approval
pub mod Lifecycle
pub mod Workflow
pub mod Idempotency
pub mod Audit
pub mod Process
pub mod Plan
