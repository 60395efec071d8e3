-- ===== src/Pipeline/Scheduler.antt =====
-- pipeline/scheduler.go: the life of a run's nodes. All of it happens on one goroutine, so a handler
-- is a function of the state. Progress events and log lines are left out; the journal's appends, the
-- decoding of a payload and the rendering of costs are the parameter `Host`, whose clock stands
-- still during one handler. `indeg` counts in Go's int, which may fall below zero.
pub mod Settle
pub mod Events
pub mod Gates
pub mod Dispatch
pub mod Runs
pub mod Terminal
pub mod Counts
pub mod Readiness
pub mod Reached
pub mod Presence
pub mod Progress
pub mod Parked
pub mod Attended
pub mod Served
pub mod Fuel
pub mod Members
pub mod Walks
pub mod Declared
use faber.Common.{
  ℕ, zero, suc, ◌+◌, ◌-◌, String, Bool, true, false, not, ◌&&◌, ◌||◌, Option, none, some, List, [],
  ◌∷◌, ◌++◌, ◌==◌, str_eq, str_lt, if◌then◌else◌, length, Table, lookup, put,
}
use faber.Metering.Cost.{ℤ, pos, negsuc, Cost}
use faber.Failure.Result.{Status, ErrorRecord, Timing, AttemptInfo, Result}
use faber.Failure.Policy.{failed_result, error_of}
use faber.Failure.Journal.{Record, result, cost, defer}
use faber.Pipeline.Pools.{ExecNode, Slots, release_pools}
use faber.Pipeline.Values.{
  State, ok, failed, halted, skipped_condition, skipped_dependency, skipped_halt,
}

pub data Life : Type 0 where
  pending queued slot_wait running deferred done : Life

-- `node` is what the bounds read of it.
pub record Work (A : Type 0) : Type 0 where
  pub node : ExecNode
  pub life : Life
  pub status : State
  pub payload : Table A
  pub raw : Option String
  pub hash : String
  pub cached : Bool
  pub used : ℕ
  pub history : List AttemptInfo
  pub annotations : List AttemptInfo
  pub costs : List Cost

-- The fields of the scheduler and of its graph that a run changes or reads.
pub record Scheduler (A : Type 0) : Type 0 where
  pub nodes : Table (Work A)
  pub succ : Table (List String)
  pub indeg : Table ℤ
  pub members : Table (List String)
  pub scopes : Table (Table A)
  pub done : ℕ
  pub ready : List String
  pub slot_q : List String
  pub wait_zero : List String
  pub slots : Slots
  pub outstanding : ℕ
  pub journal : List Record
  pub fatal : Bool
  pub failed : ℕ
  pub halts : List (String × String)

-- `accepts` tells whether the journal takes one more record; `decode` reads an ok payload.
pub record Host (A : Type 0) : Type 0 where
  pub accepts : List Record → Record → Bool
  pub decode : Option String → Option (Table A)
  pub render : List Cost → String
  pub now : ℕ

abbrev pub is_done : Life → Bool
is_done done = true
is_done _ = false

abbrev pub is_ok : State → Bool
is_ok ok = true
is_ok _ = false

-- `push` takes a node that waits on its edges or on a timer.
abbrev pub is_waiting : Life → Bool
is_waiting pending = true
is_waiting deferred = true
is_waiting _ = false

-- A propagated skip takes a node that was not launched.
abbrev pub is_passive : Life → Bool
is_passive pending = true
is_passive queued = true
is_passive _ = false

abbrev pub is_pending : Life → Bool
is_pending pending = true
is_pending _ = false

abbrev pub is_deferred : Life → Bool
is_deferred deferred = true
is_deferred _ = false

-- The heap of ids, in the order in which it gives them out.
unfoldable pub enqueue : String → List String → List String
enqueue id [] = id ∷ []
enqueue id (x ∷ xs) = if str_lt x id then x ∷ enqueue id xs else id ∷ x ∷ xs

unfoldable pub list_or_nil : Option (List String) → List String
list_or_nil none = []
list_or_nil (some xs) = xs

unfoldable pub or_zero : Option ℤ → ℤ
or_zero none = pos 0
or_zero (some z) = z

unfoldable pub before : ℤ → ℤ
before (pos zero) = negsuc 0
before (pos (suc n)) = pos n
before (negsuc n) = negsuc (suc n)

unfoldable pub is_zero : ℤ → Bool
is_zero (pos n) = n == 0
is_zero (negsuc n) = false

module _ {A : Type 0} where
  -- `s.g.succ[id]`, and `s.g.members[id]`
  unfoldable pub succ_of : String → Scheduler A → List String
  unfolding list_or_nil
  succ_of id s = list_or_nil (lookup id s.succ)

  unfoldable pub members_of : String → Scheduler A → List String
  unfolding list_or_nil
  members_of id s = list_or_nil (lookup id s.members)

  unfoldable pub set_node : String → Work A → Scheduler A → Scheduler A
  set_node id n s = record s { nodes = put id n s.nodes }

  unfoldable pub push_at : String → Option (Work A) → Scheduler A → Scheduler A
  unfolding set_node
  push_at id none s = s
  push_at id (some n) s =
      if is_waiting n.life
      then record (set_node id (record n { life = queued }) s) { ready = enqueue id s.ready }
      else s

  -- `push`
  unfoldable pub push : String → Scheduler A → Scheduler A
  unfolding push_at
  push id s = push_at id (lookup id s.nodes) s

  unfoldable pub test_at : (Life → Bool) → Option (Work A) → Bool
  test_at test none = false
  test_at test (some n) = test n.life

  -- A node that is there, with a test of its life.
  unfoldable pub test_life : (Life → Bool) → String → Scheduler A → Bool
  unfolding test_at
  test_life test id s = test_at test (lookup id s.nodes)

  unfoldable pub wake_all : List String → Scheduler A → Scheduler A
  unfolding push test_life
  wake_all [] s = s
  wake_all (w ∷ ws) s =
      let woken = wake_all ws (push w s) in
      let rest = wake_all ws s in if test_life is_deferred w s then woken else rest

  -- `wakeParked`
  unfoldable pub wake_parked : Scheduler A → Scheduler A
  unfolding wake_all
  wake_parked s = wake_all s.wait_zero (record s { wait_zero = [] })

  unfoldable pub mark_at : String → State → Option (Work A) → Scheduler A → Scheduler A
  unfolding set_node
  mark_at id status none s = s
  mark_at id status (some n) s =
      record (set_node id (record n { life = done; status = status }) s) {
        done = s.done + 1;
        failed = s.failed + (elim status [ failed ↦ 1 | _ ↦ 0 ]);
      }

  -- The head of `finish`.
  unfoldable pub mark : String → State → Scheduler A → Scheduler A
  unfolding mark_at
  mark id status s = mark_at id status (lookup id s.nodes) s

  -- One turn of the readiness loop: `indeg[d]--`, and a push at zero.
  unfoldable pub lower_indeg : String → Scheduler A → Scheduler A
  unfolding or_zero before is_zero test_life push
  lower_indeg d s =
      let n = before (or_zero (lookup d s.indeg)) in
      let lowered = record s { indeg = put d n s.indeg } in
      let pushed = push d lowered in
      if is_zero n && test_life is_pending d s then pushed else lowered

  unfoldable pub lower_all : List String → Scheduler A → Scheduler A
  unfolding lower_indeg
  lower_all [] s = s
  lower_all (d ∷ ds) s = lower_all ds (lower_indeg d s)

  -- The readiness loop of `finish`.
  unfoldable pub release : String → Scheduler A → Scheduler A
  unfolding succ_of lower_all
  release id s = lower_all (succ_of id s) s
