-- ===== src/Lib.antt =====
-- faber runs pipelines of agent steps in containers. This library models its core in Go.
--
-- The parts and how they meet. The scheduler (pipeline/scheduler.go) takes a ready node, evaluates
-- its condition (pipeline/cond.go), resolves its inputs (pipeline/values.go), asks the journal of an
-- earlier run for its result (failure/recover.go), and launches it when its slot, generate pool and
-- lane are free. The attempt loop (failure/policy.go) runs a step up to its retries; around every
-- attempt the admitter (metering/admit.go) reserves and charges a budget over the meters
-- (metering/tiers.go), and rate limits are turned into waits (metering/defer.go). Every settlement
-- is a record (failure/result.go) appended to the journal (failure/journal.go), which a later run
-- repairs and replays. Bindings are written as references (config/refs.go).
--
-- Which file models which part:
--   Common             the shared names; Go's string maps as association lists (Common/Tables)
--   Metering/Cost      metering/meter.go: Cost, Add; satAdd
--   Metering/Ledger    metering/admit.go: the ledger and each critical section: the locked part of
--                      Admit is reserve, the release is drop_reservation, and FoldSpent fold_spent
--   Metering/Admitter  metering/admit.go: NewAdmitter, Admit, Settle and FoldSpent over a meter
--                      interface MeterApi; the startup warning is Admitter/Unenforced
--   Metering/Tiers     metering/tiers.go: the exact, reported and probe meters, which fill MeterApi
--   Metering/Defer     metering/defer.go: Classify, Reset, Restore, Consecutive, the backoff
--   Failure/Result     failure/result.go: the records and Validate
--   Failure/Policy     failure/policy.go: RunStep and cleanup
--   Failure/Skips      failure/policy.go: SkipSet
--   Failure/Journal    failure/journal.go: Load, repairTornTail and the appends (Journal/Appends)
--   Failure/Recover    failure/recover.go: Lookup and Interactive
--   Config/Refs        config/refs.go: ParseRef, Ref.String, ParseBinding
--   Pipeline/Graph     pipeline/graph.go: newGraph, edge, addLevel (Graph/Levels), levelSources,
--                      deepSinks
--   Pipeline/Scheduler pipeline/scheduler.go: the life of the nodes: push, the readiness loop and
--                      wakeParked; Scheduler/Settle is settleSkip, settleResult, finish and
--                      propagate, Scheduler/Events step and the seeding of run, Scheduler/Gates and
--                      Scheduler/Dispatch dispatch, its gates and launch
--   Pipeline/Pools     pipeline/scheduler.go: the pools, and the granting loop of drain
--   Pipeline/Values    pipeline/values.go: resolveInputs; pipeline/cond.go: eval
--   Tests              concrete runs, and the theorems at concrete inputs
--
-- State and operations. A struct is a record and a method a function from the state to its answer
-- and the state after it. The admitter's mutex makes each critical section one step: Ledger/Steps
-- is the relation of any interleaving of them, and Admitter/Hooks the one of whole hook calls.
-- Pools/Grants is the relation of launches and settlements. The scheduler runs on one goroutine, so
-- each handler is a function of its state; Scheduler/Runs takes a handler apart into moves (a node
-- revised, a node settled with what that settles besides), and Scheduler/Reached is the relation of
-- the loop's turns: an event, a dispatch, or a launch, in any order; Scheduler/Served adds the timers
-- of deferred nodes that are pending. Deferrals come from nodes that run, and a graph is as
-- Pipeline/Graph builds it. An amount that the code keeps from going
-- negative is a natural number; the int64 sums that can wrap do so in the model (add_int64,
-- shift_left), and satAdd stops at 2^63 - 1.
--
-- Parameters. User commands, JSON and float comparison (Host, Codec, the decoder of a rate limit's
-- detail), the box, the hooks, the clock and the run's context (World), the CEL program of a
-- condition, the input hash, the image tags, the journal's acceptance of an append, and the
-- decoding of a payload.
--
-- Fuel. SkipSet's work list runs on one round more than the failed ids and the dependencies
-- together, since an id is queued at most once beside the failed ones; the backward scan of the
-- repair runs on the length of the file, since every round takes a byte at least. A settlement
-- nests at most as deep as there are nodes, since each level settles one; propagate runs on one
-- round more than the successor lists are long together. RunStep recurs on the re-runs that are
-- left.
--
-- Not modelled: log lines, progress events and the texts of errors; file system errors, locks and
-- processes; the YAML language and its type checking (config), the container side (agent), images
-- and keys (infra, security), reports, and the terminal interface. Of the scheduler, the splice of
-- a generate's expansion, the expect command of a loop, and the pause; of recovery, the check for
-- drift of the configuration.
pub mod Common
pub mod Metering
pub mod Config
pub mod Failure
pub mod Pipeline
mod Tests
