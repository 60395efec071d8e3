-- ===== src/Pipeline/Scheduler/Events.antt =====
-- pipeline/scheduler.go: the workers' events, folded into the state by step. The events of a
-- generate's expansion and of a loop's expected count are left out; a timer fires at any time.
use faber.Common.{
  Table, ℕ, ◌+◌, ◌-◌, String, Bool, Option, none, some, List, [], ◌∷◌, ◌++◌, ◌==◌, if◌then◌else◌,
  lookup,
}
use faber.Metering.Cost.{Cost}
use faber.Failure.Result.{AttemptInfo, Result}
use faber.Failure.Policy.{error_of}
use faber.Failure.Journal.{defer}
use faber.Pipeline.Pools.{ExecNode, release_pools}
use faber.Pipeline.Scheduler.{
  deferred, Work, Scheduler, Host, is_done, is_deferred, enqueue, set_node, push, wake_parked,
  or_zero, is_zero, test_life,
}
use faber.Pipeline.Scheduler.Settle.{log_record, settle_result}

-- `evSettled`, `evDeferred` and `evWake`; a deferral without an instant is `none`.
pub data Event : Type 0 where
  settled : String → Result → List Cost → Bool → Bool → Event
  deferring : String → Option ℕ → String → List AttemptInfo → ℕ → List Cost → Bool → Event
  wake : String → Event

-- The attempts of earlier dispatches, of this one, and the annotations.
merged : List AttemptInfo → List AttemptInfo → List AttemptInfo
merged [] own = own
merged (a ∷ all) own = a ∷ all

unfoldable pub with_earlier : {A : Type 0} → Work A → Result → Result
unfolding merged
with_earlier n res = record res {
  attempt = res.attempt + n.used;
  attempts = merged (n.history ++ res.attempts ++ n.annotations) res.attempts;
}

module _ {A : Type 0} (host : Host A) where
  unfoldable pub node_of : Option (Work A) → Option ExecNode
  node_of none = none
  node_of (some n) = some n.node

  -- The worker is back, with its slot if it held one.
  unfoldable pub back : String → Bool → Scheduler A → Scheduler A
  unfolding node_of
  back id slot s =
      let freed = release_pools s.slots (node_of (lookup id s.nodes)) in
      record s { outstanding = s.outstanding - 1; slots = if slot then freed else s.slots }

  unfoldable pub fold_settled :
      String → Result → List Cost → Bool → Option (Work A) → Scheduler A → Scheduler A
  unfolding with_earlier settle_result
  fold_settled id res costs executed none s = s
  fold_settled id res costs executed (some n) s =
      let folded = settle_result host id (with_earlier n res) executed costs s in
      if is_done n.life then s else folded

  -- What a deferral adds to its node.
  unfoldable pub put_off : Option ℕ → String → List AttemptInfo → ℕ → List Cost → Work A → Work A
  put_off until detail history used costs n = record n {
    life = deferred;
    used = n.used + used;
    history = n.history ++ history;
    costs = n.costs ++ costs;
    annotations =
        n.annotations
        ++ record {
          attempt = 0;
          timing = record {
            started = some host.now;
            finished = some (elim until [ none ↦ host.now | some t ↦ t ]);
          };
          error = some (error_of "deferred" detail);
        }
          ∷ [];
  }

  -- Without an instant the node parks; the parking lot is checked at once if nothing is in flight.
  unfoldable pub park : String → Option ℕ → Scheduler A → Scheduler A
  unfolding wake_parked
  park id none s =
      let parked = record s { wait_zero = s.wait_zero ++ id ∷ [] } in
      let woken = wake_parked parked in if s.outstanding == 0 then woken else parked
  park id (some t) s = wake_parked s

  unfoldable pub fold_deferred :
      String
      → Option ℕ
      → String
      → List AttemptInfo
      → ℕ
      → List Cost
      → Option (Work A)
      → Scheduler A
      → Scheduler A
  unfolding put_off park log_record set_node
  fold_deferred id until detail history used costs none s = s
  fold_deferred id until detail history used costs (some n) s =
      let waiting = set_node id (put_off until detail history used costs n) s in
      let logged =
        log_record host (defer (record { step_id = id; until = until; detail = detail })) waiting in
      let folded = park id until logged in if is_done n.life then s else folded

  -- `step`
  unfoldable pub step : Event → Scheduler A → Scheduler A
  unfolding back fold_settled fold_deferred push test_life
  step (settled id res costs executed slot) s =
      let s' = back id slot s in fold_settled id res costs executed (lookup id s'.nodes) s'
  step (deferring id until detail history used costs slot) s =
      let s' = back id slot s in
      fold_deferred id until detail history used costs (lookup id s'.nodes) s'
  step (wake id) s = let woken = push id s in if test_life is_deferred id s then woken else s

-- `sortedIDs`, as the heap sorts.
unfoldable pub sorted_ids : {A : Type 0} → Table (Work A) → List String
unfolding enqueue
sorted_ids [] = []
sorted_ids ((id, n) ∷ nodes) = enqueue id (sorted_ids nodes)

module _ {A : Type 0} where
  unfoldable pub seed_from : List String → Scheduler A → Scheduler A
  unfolding push is_zero or_zero
  seed_from [] s = s
  seed_from (id ∷ ids) s =
      let pushed = seed_from ids (push id s) in
      let rest = seed_from ids s in if is_zero (or_zero (lookup id s.indeg)) then pushed else rest

  -- The first loop of `run`.
  unfoldable pub seed : Scheduler A → Scheduler A
  unfolding seed_from sorted_ids
  seed s = seed_from (sorted_ids s.nodes) s
