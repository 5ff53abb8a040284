-- ===== src/Lib.antt =====
-- A verification library for RExecOP, the runtime that executes approved operations: the parts
-- of it that decide who may run what, and that must hold up when processes race or crash.
--
-- The program's parts and the files that model them:
-- * Operation/State (src/rexecop/operation/state.py): the lifecycle of an operation.
--   `validate_transition` is the gate that every change of state passes. Operation/State/Graph
--   gives its table as a relation.
-- * Lease (src/rexecop/runtime_ops/lease.py): WorkerLeaseManager, the lease that lets one worker
--   at a time execute in a runtime root. Its state `LeaseDir` is worker_lease.json and
--   worker_lease.epoch; the functions have the names of the methods. Lease/Fencing and
--   Lease/Ownership are about sequences of calls and about ownership.
-- * Queue (src/rexecop/runtime_ops/queue.py): RunNowQueue. Its state is the file run_now.json, a
--   `JsonFile` that `load` reads and `saved` writes. Queue/Checks and Queue/Transition are the
--   value checks and the transition records, Queue/Store the file, Queue/Topology its consistency,
--   Queue/Facts what the store knows of an operation, Queue/Claims the methods that add and claim,
--   Queue/Completion and Queue/Deferral those that end a claim, Queue/Recovery the recovery of
--   expired claims; Queue/Recovery/Fate, Queue/Recovery/Rounds and
--   Queue/Recovery/Fates are about what it writes. A method `m` is a plan that reads (`m_plan` or `m_change`) and a commit of what
--   it decided. The methods with a lease run the lease's `validate` first, as `_enter_lease_guard`
--   does.
-- * Attempts (src/rexecop/runtime_ops/attempts.py): the records of connector attempts;
--   Attempts/Journal is AttemptJournal on the directory attempts/.
-- * TargetLock (src/rexecop/runtime_ops/target_lock.py): TargetLockManager on the directory
--   locks/.
-- * Posture (src/rexecop/runtime/mutation_posture.py): the gate on modes that change their target.
-- * Reaction/Graph and Reaction/Traversal (src/rexecop/reaction/automation_graph.py): the
--   verification of an automation graph, and its search of the graph. Reaction/Graph/Soundness is
--   about the checks of nodes and edges, Reaction/Graph/Walks about the graphs that are accepted,
--   Reaction/Graph/Counting, Reaction/Graph/Termination, Reaction/Graph/Edges,
--   Reaction/Graph/Remaining and Reaction/Graph/Complete about the search.
-- * Reaction/Evaluator (src/rexecop/reaction/evaluator.py and model.py) is the choice of a rule of a
--   reaction pack, Reaction/Rules and Reaction/Compiler (src/rexecop/reaction/compiler.py) the
--   compilation of the pack. Reaction/Evaluator/Choice is about the chosen rule,
--   Reaction/Compiler/ReadOnly about the intents that a compiled pack can ask for.
-- * Storage (src/rexecop/storage): Storage/FileStore (file_store.py) and Storage/MemoryStore
--   (memory_store.py) are the operations in the two stores, Storage/Governance the claims of
--   governance decisions in the file store. Storage/Revisions is about stale revisions,
--   Storage/Writes about loading what was saved,
--   Storage/Refinement about the agreement of the two stores. The operation itself and its JSON form
--   are Operation/Model (src/rexecop/operation/model.py).
-- * Workflow (src/rexecop/workflow/runner.py): WorkflowRunner. Workflow/Steps holds its types and
--   those of src/rexecop/execution/backend.py, Workflow/Runner the loop over the planned steps;
--   Workflow/Runner/Loop is about the rounds of the loop, Workflow/Runner/Outcomes about what a run
--   reports, Workflow/Runner/Limit about the policy's max_steps, Workflow/Runner/Resume about running a plan in parts.
-- * Coordinator (src/rexecop/runtime_ops/coordinator.py): RuntimeCoordinator, which brings the
--   queue, the target locks, the lease and the stored operations together. Coordinator/Assessment
--   holds its methods that only read, Coordinator/Maintenance is maintenance.py. The methods act on
--   a `Root`; a `Moment` holds the instants and answers that a method is told from outside.
--   Coordinator/Calls and Coordinator/Admission are about single calls, Coordinator/Safety,
--   Coordinator/Release and Coordinator/Windows about what the methods promise;
--   Coordinator/Windows/Arc and Coordinator/Windows/Times are about the times of day of maintenance.py.
-- * Restart (src/rexecop/runtime_ops/recovery.py): the operations and locks that a stopped process
--   left. Restart/Interrupted and Restart/Marked are about the operations, Restart/Swept about the
--   locks.
-- * Authority (src/rexecop/adapters/govengine_port/runtime_authority.py): how an attempt takes a
--   signed decision of GovEngine, whose records are the interface `GovEngine`. Authority/Consumed is
--   about the decisions that were taken, Authority/Governed holds the record of a governed attempt and
--   Authority/Attempt how such an attempt is taken; Authority/Current and Authority/Claimed are about
--   its checks. The host's authority, which answers a bundle of records, and GovEngine's validation of the
--   request are arguments.
-- * Permits (src/rexecop/runtime_ops/permit.py): ExecutionPermitManager, the permit of one attempt.
--   Permits/Checks holds its require_fresh. Permits/Bound is about the permits that are accepted, Permits/Issued and Permits/Fresh about
--   those that were issued. Storage/Permits (src/rexecop/storage/file_store.py) are the files of
--   the permits, Storage/Permits/Kept is about saving them.
-- * Json is the data that all of them read and write: the values of json.loads and the dict
--   operations. Base holds the errors, the Boolean tests and the list functions.
-- * Examples holds concrete runs, with a small instance of the open functions.
--
-- How the code is read. A method that holds a file lock from its first read to its last write is
-- one step on the state; an interleaving of processes is a sequence of such steps. An exception is
-- a value `err`, which keeps the class and the fixed part of the message; what was written before
-- it stays written. Clocks, uuid4 values and the answers of the store are arguments, so each
-- statement holds for all of them. An instant is a number of microseconds since the first one of
-- year 1, `max_instant` is datetime.max, and an instant past it is an OverflowError. The loops are
-- structural recursion over the lists that they walk, but for the search of Reaction/Traversal: it runs
-- on fuel, one unit for each round, and is given as many units as the graph has nodes. The search
-- visits no node twice, so they are enough.
--
-- What is left open: the record `Python` of Json/Python holds the functions of Python's standard
-- library that the code calls (isoformat and fromisoformat with their round trip, int and str,
-- str.lower, json.dumps, sha256 with its ASCII digests, unicodedata.category).
--
-- Not modelled: JSON numbers other than integers (the monotonic clock is kept as an integer number
-- of microseconds), the order of keys in a written file, file modes and the flock itself. A path is
-- taken for the pair of its parts, so identifiers with a slash are outside the model. The
-- reaction service, the SQLite store, the controller, the orchestrator, the policies, the connectors
-- and the command line are not part of this library. The step executor and the records of
-- src/rexecop/execution/model.py are the interface `Execution` of Workflow/Steps. A list
-- of pairs, which Python's dict() takes too, is read as an error. The profile's intent_metadata and
-- artifact_sha256 of the package sclite are arguments of Reaction/Rules; the YAML file is not read.
pub mod Base
pub mod Json
pub mod Operation
pub mod Lease
pub mod Attempts
pub mod TargetLock
pub mod Posture
pub mod Reaction
pub mod Workflow
pub mod Storage
pub mod Queue
pub mod Coordinator
pub mod Restart
pub mod Authority
pub mod Permits
mod Examples
