-- ===== src/Pipeline/Scheduler/Dispatch.antt =====
-- pipeline/scheduler.go: dispatch of a ready node by its kind, the journal's prior results, and the
-- launch of a worker. The gates come in the code's order; the texts of errors are left out,
-- and the attempts and the snapshot that a worker gets.
use faber.Common.{
  List, str_eq, ◌+◌, String, true, false, Option, none, some, [], ◌∷◌, ◌++◌, if◌then◌else◌, Table,
  lookup,
}
use faber.Failure.Result.{Result}
use faber.Failure.Policy.{error_of}
use faber.Failure.Recover.{Prior, hash_failed, miss, hit, lookup_prior}
use faber.Pipeline.Values.{
  skipped_condition, skipped_dependency, Inputs, resolved, skipped, refused, resolve_inputs,
  Verdict, run, skip,
}
use faber.Pipeline.Scheduler.{slot_wait, running, Work, Scheduler, Host, enqueue, set_node}
use faber.Pipeline.Scheduler.Settle.{skipping, settle_result, settle_failed}
use faber.Pipeline.Pools.{take_pools}
use faber.Pipeline.Scheduler.Gates.{
  Kind, agent, selector, sub_workflow, generate, unsupported, Plan, Gates, sources, params_of,
  settle_sub_entry, resolve_selector, verdict_of,
}

-- What a pop of the heap leaves, where it gives out `id`.
unfoldable pub drop_first : String → List String → List String
drop_first id [] = []
drop_first id (x ∷ xs) = if str_eq x id then xs else x ∷ drop_first id xs

module _ {A : Type 0} (host : Host A) (gates : Gates A) where
  -- A prior result, with the note that it was adopted.
  unfoldable pub adopt : Result → Result
  adopt prior = record prior {
    attempts =
        prior.attempts
        ++ record {
          attempt = 0;
          timing = record { started = some host.now; finished = some host.now };
          error = some (error_of "cached" "journal hit; result adopted without execution");
        }
          ∷ [];
  }

  -- To the queue for a slot.
  unfoldable pub await_slot : String → Work A → Scheduler A → Scheduler A
  unfolding set_node
  await_slot id n s = record (set_node id (record n { life = slot_wait }) s) {
    slot_q = enqueue id s.slot_q;
  }

  -- With the hash set: a prior result is adopted, else the node waits for a slot.
  unfoldable pub keyed : String → String → Work A → Prior → Scheduler A → Scheduler A
  unfolding settle_failed settle_result adopt await_slot set_node
  keyed id hash n hash_failed s =
      settle_failed host id "launch" "" (set_node id (record n { hash = hash }) s)
  keyed id hash n (hit prior) s =
      settle_result host id (adopt prior) false []
        (set_node id (record n { hash = hash; cached = true }) s)
  keyed id hash n miss s =
      if gates.has_boxes
      then await_slot id (record n { hash = hash }) s
      else settle_failed host id "launch" "" (set_node id (record n { hash = hash }) s)

  unfoldable pub hashed : String → Option String → Work A → Scheduler A → Scheduler A
  unfolding keyed settle_failed lookup_prior
  hashed id none n s = settle_failed host id "launch" "" s
  hashed id (some hash) n s = keyed id hash n (lookup_prior gates.prior id (some hash)) s

  unfoldable pub imaged :
      String → String → Table A → Option String → Work A → Scheduler A → Scheduler A
  unfolding hashed settle_failed
  imaged id template inputs none n s = settle_failed host id "launch" "" s
  imaged id template inputs (some image) n s = hashed id (gates.digest inputs template image) n s

  unfoldable pub with_inputs : String → String → Inputs A → Work A → Scheduler A → Scheduler A
  unfolding imaged settle_failed skipping
  with_inputs id template (refused error) n s = settle_failed host id "launch" "" s
  with_inputs id template (skipped from) n s = skipping host s id skipped_dependency from s
  with_inputs id template (resolved inputs) n s = imaged id template inputs (gates.tag template) n s

  -- `dispatchAgent`
  unfoldable pub dispatch_agent :
      String → Plan A → Option String → Work A → Scheduler A → Scheduler A
  unfolding with_inputs resolve_inputs sources params_of settle_failed
  dispatch_agent id plan none n s = settle_failed host id "launch" "" s
  dispatch_agent id plan (some template) n s =
      with_inputs id template
        (resolve_inputs (sources s.nodes) plan.bindings (params_of plan s) plan.edges plan.inputs) n
        s

  -- A worker goes out: `launch`, and `startExpansion`.
  unfoldable pub launch : String → Work A → Scheduler A → Scheduler A
  unfolding set_node
  launch id n s = record (set_node id (record n { life = running }) s) {
    outstanding = s.outstanding + 1;
  }

  unfoldable pub dispatch_kind : String → Plan A → Kind → Work A → Scheduler A → Scheduler A
  unfolding resolve_selector settle_sub_entry launch dispatch_agent settle_failed
  dispatch_kind id plan selector n s = resolve_selector host gates id plan plan.sel s
  dispatch_kind id plan sub_workflow n s =
      settle_sub_entry host gates id plan (lookup id s.scopes) s
  dispatch_kind id plan generate n s = launch id n s
  dispatch_kind id plan agent n s = dispatch_agent id plan plan.template n s
  dispatch_kind id plan (unsupported word) n s = settle_failed host id "expansion" "" s

  unfoldable pub dispatch_when :
      String → Plan A → Option Verdict → Work A → Scheduler A → Scheduler A
  unfolding dispatch_kind skipping settle_failed
  dispatch_when id plan none n s = dispatch_kind id plan plan.kind n s
  dispatch_when id plan (some run) n s = dispatch_kind id plan plan.kind n s
  dispatch_when id plan (some skip) n s = skipping host s id skipped_condition "" s
  dispatch_when id plan (some error) n s = settle_failed host id "condition" "" s

  -- `dispatch`
  unfoldable pub dispatch : String → Plan A → Work A → Scheduler A → Scheduler A
  unfolding dispatch_when verdict_of
  dispatch id plan n s =
      dispatch_when id plan (verdict_of host gates gates.when_program plan plan.when s) n s

  -- A ready node is taken off the queue and dispatched.
  unfoldable pub ready_turn : String → Plan A → Work A → Scheduler A → Scheduler A
  unfolding dispatch drop_first
  ready_turn id plan n s = dispatch id plan n (record s { ready = drop_first id s.ready })

  -- A node that nothing holds back takes its slot and goes out.
  unfoldable pub slot_turn : String → Work A → Scheduler A → Scheduler A
  unfolding launch drop_first take_pools
  slot_turn id n s =
      launch id n (record s { slots = take_pools s.slots n.node; slot_q = drop_first id s.slot_q })
