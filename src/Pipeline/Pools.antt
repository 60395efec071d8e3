-- ===== src/Pipeline/Pools.antt =====
-- pipeline/scheduler.go: the bounds on running boxes (the slot, a generate's pool, a lane) and the
-- pass of drain that grants slots. A bound below one is 0, without a bound. The texts of the hold
-- messages are data, and the queue is the list of its nodes in the order of the heap.
pub mod Tallies
pub mod Grants
pub mod Drain
use faber.Common.{
  ℕ, suc, ◌-◌, String, Bool, true, false, not, Option, none, some, List, [], ◌∷◌, ltb, leb, str_eq,
  if◌then◌else◌, Table, lookup, put,
}

pub record Pool : Type 0 where
  pub max : ℕ
  pub used : ℕ

pub record Template : Type 0 where
  pub lane : String

-- A node of the graph, as far as the bounds read it; `gen` is empty where no generate made it.
pub record ExecNode : Type 0 where
  pub id : String
  pub gen : String
  pub template : Option Template

-- The part of the scheduler that the bounds are.
pub record Slots : Type 0 where
  pub max_par : ℕ
  pub slots_used : ℕ
  pub gen_pools : Table Pool
  pub lanes : Table Pool

pub data Hold : Type 0 where
  by_slot : ℕ → ℕ → Hold
  by_generate by_lane : String → ℕ → ℕ → Hold

-- `p.free()`; a nil pool is free.
unfoldable pub is_free : Option Pool → Bool
is_free none = true
is_free (some p) = if leb p.max 0 then true else ltb p.used p.max

unfoldable pub is_slot_free : Slots → Bool
is_slot_free s = if leb s.max_par 0 then true else ltb s.slots_used s.max_par

-- A pool by its name, nil for the empty name.
unfoldable pub pool_of : String → Table Pool → Option Pool
pool_of name ps = if str_eq name "" then none else lookup name ps

unfoldable pub lane_of : Option Template → String
lane_of none = ""
lane_of (some t) = t.lane

unfoldable pub gen_pool : Slots → ExecNode → Option Pool
unfolding pool_of
gen_pool s n = pool_of n.gen s.gen_pools

unfoldable pub lane_pool : Slots → ExecNode → Option Pool
unfolding pool_of lane_of
lane_pool s n = pool_of (lane_of n.template) s.lanes

held_by : (String → ℕ → ℕ → Hold) → String → Option Pool → Option Hold
held_by hold name none = none
held_by hold name (some p) = some (hold name p.used p.max)

unfoldable pub hold_reason : Slots → ExecNode → Option Hold
unfolding is_slot_free is_free gen_pool lane_pool held_by
hold_reason s n =
    if not (is_slot_free s)
    then some (by_slot s.slots_used s.max_par)
    else if not (is_free (gen_pool s n))
    then held_by by_generate n.gen (gen_pool s n)
    else if not (is_free (lane_pool s n))
    then held_by by_lane (lane_of n.template) (lane_pool s n)
    else none

-- `p.used++`, for a pool that is not nil.
store : String → Option Pool → Table Pool → Table Pool
store name none ps = ps
store name (some p) ps = put name (record p { used = suc p.used }) ps

unfoldable pub raise : String → Table Pool → Table Pool
unfolding pool_of store
raise name ps = store name (pool_of name ps) ps

-- `if p != nil && p.used > 0 { p.used-- }`
restore : String → Option Pool → Table Pool → Table Pool
restore name none ps = ps
restore name (some p) ps = if ltb 0 p.used then put name (record p { used = p.used - 1 }) ps else ps

unfoldable pub lower : String → Table Pool → Table Pool
unfolding pool_of restore
lower name ps = restore name (pool_of name ps) ps

unfoldable pub take_slot : Slots → Slots
take_slot s = if ltb 0 s.max_par then record s { slots_used = suc s.slots_used } else s

unfoldable pub release_slot : Slots → Slots
release_slot s =
    if ltb 0 s.max_par
    then if ltb 0 s.slots_used then record s { slots_used = s.slots_used - 1 } else s
    else s

unfoldable pub take_pools : Slots → ExecNode → Slots
unfolding raise take_slot lane_of
take_pools s n = record (take_slot s) {
  gen_pools = raise n.gen s.gen_pools;
  lanes = raise (lane_of n.template) s.lanes;
}

-- A nil node gives back the slot only.
unfoldable pub release_pools : Slots → Option ExecNode → Slots
unfolding lower release_slot lane_of
release_pools s none = release_slot s
release_pools s (some n) = record (release_slot s) {
  gen_pools = lower n.gen s.gen_pools;
  lanes = lower (lane_of n.template) s.lanes;
}

-- What the first loop of drain leaves: the bounds, the nodes launched, those it set aside, and
-- those it did not reach.
pub record Granted : Type 0 where
  pub slots : Slots
  pub launched : List ExecNode
  pub held : List ExecNode
  pub queue : List ExecNode

launching : ExecNode → Granted → Granted
launching n g = record g { launched = n ∷ g.launched }

setting_aside : ExecNode → Granted → Granted
setting_aside n g = record g { held = n ∷ g.held }

choose : Option Hold → ExecNode → Granted → Granted → Granted
unfolding launching setting_aside
choose none n launch pass = launching n launch
choose (some why) n launch pass = setting_aside n pass

-- The first loop of drain: while a slot is free, a node that nothing holds is launched.
unfoldable pub grant : Slots → List ExecNode → Granted
unfolding is_slot_free hold_reason take_pools choose
grant s [] = record { slots = s; launched = []; held = []; queue = [] }
grant s (n ∷ queue) =
    let launch = grant (take_pools s n) queue in
    let pass = grant s queue in
    if is_slot_free s
    then choose (hold_reason s n) n launch pass
    else record { slots = s; launched = []; held = []; queue = n ∷ queue }
