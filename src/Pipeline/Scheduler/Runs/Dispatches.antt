-- ===== src/Pipeline/Scheduler/Runs/Dispatches.antt =====
-- pipeline/scheduler.go: dispatch and launch, taken apart into moves.
use faber.Common.{
  subst, ◌≡◌, refl, sym, ◌∙◌, String, Bool, true, false, Option, none, some, [], Table, lookup,
  arith,
}
use mathlib.Core.Bool.{false≢true}
use faber.Failure.Recover.{Prior, hash_failed, miss, hit, lookup_prior}
use faber.Pipeline.Values.{
  skipped_condition, skipped_dependency, Inputs, resolved, skipped, refused, Verdict, run, skip,
  unknown_node, unsettled_node, program_error, not_bool,
}
use faber.Pipeline.Scheduler.{
  is_deferred, Life, queued, slot_wait, running, Work, Scheduler, Host, is_done, set_node,
}
use faber.Pipeline.Scheduler.Settle.{is_open}
use faber.Pipeline.Scheduler.Gates.{
  Kind, agent, selector, sub_workflow, generate, unsupported, Plan, Gates,
}
use faber.Pipeline.Scheduler.Dispatch.{
  drop_first, ready_turn, slot_turn, adopt, await_slot, keyed, hashed, imaged, with_inputs,
  dispatch_agent, launch, dispatch_kind, dispatch_when, dispatch,
}
use faber.Pipeline.Scheduler.Runs.{IsRevision, Run, quiet, chain, revise, Run-if, is_started}
use faber.Pipeline.Scheduler.Runs.Settled.{
  open_at, set_node-Steady, skipping-Nests, settle_result-Run,
}
use faber.Pipeline.Scheduler.Runs.Entries.{
  settle_failed-Run, settle_sub_entry-Run, resolve_selector-Run,
}

started-open : (l : Life) → is_started l ≡ true → is_done l ≡ false
started-open l h = ground arith

module _ {A : Type 0} (host : Host A) (gates : Gates A) where
  -- A node that waits in the ready queue.
  abbrev IsQueued : String → Work A → Scheduler A → Type 0
  IsQueued id n s = (lookup id s.nodes ≡ some n) × (n.life ≡ queued)

  same-IsRevision : (n n' : Work A) → n.life ≡ queued → n'.life ≡ n.life → IsRevision false n n'
  same-IsRevision n n' q same = record {
    was_open = rw q refl;
    is_open_still = rw (same, q) refl;
    started = rw same refl;
    no_defer = λ h d. subst (λ l. is_deferred l ≡ true) same d;
  }

  starts-IsRevision :
      (n n' : Work A)
      → is_started n.life ≡ true
      → is_started n'.life ≡ true
      → is_deferred n'.life ≡ false
      → IsRevision false n n'
  starts-IsRevision n n' st st' k = record {
    was_open = started-open n.life st;
    is_open_still = started-open n'.life st';
    started = st' ∙ sym st;
    no_defer = λ h d. elim (false≢true (sym k ∙ d)) [ ];
  }

  -- The node with its hash, and then a settlement.
  hashed_first :
      (id hash : String) (cached : Bool) (n : Work A) (s t : Scheduler A)
      → IsQueued id n s
      → (is_open id (set_node id (record n { hash = hash; cached = cached }) s) ≡ true
          → Run (set_node id (record n { hash = hash; cached = cached }) s) t)
      → Run s t
  hashed_first id hash cached n s t (e, q) then_run =
      let n' : Work A = record n { hash = hash; cached = cached } in
      let (r, o) = set_node-Steady id n n' s e (same-IsRevision n n' q refl) in chain r (then_run o)

  await_slot-Run :
      (id : String) (n' n : Work A) (s : Scheduler A)
      → lookup id s.nodes ≡ some n
      → is_started n.life ≡ true
      → Run s (await_slot host gates id n' s)
  unfolding await_slot
  await_slot-Run id n' n s e st =
      chain
        (revise id n (record n' { life = slot_wait }) e
          (starts-IsRevision n (record n' { life = slot_wait }) st refl refl))
        (quiet (record {
          same_nodes = refl;
          same_succ = refl;
          same_indeg = refl;
          same_members = refl;
          same_done = refl;
          same_parked = λ h. refl;
          still_out = λ h. omega arith;
        }))

  keyed-Run :
      (id hash : String) (n : Work A) (prior : Prior) (s : Scheduler A)
      → IsQueued id n s
      → Run s (keyed host gates id hash n prior s)
  unfolding keyed
  keyed-Run id hash n hash_failed s w =
      hashed_first id hash n.cached n s _ w (λ o. settle_failed-Run host gates id "launch" "" _ o)
  keyed-Run id hash n (hit prior) s w =
      hashed_first id hash true n s _ w
        (λ o. settle_result-Run host id (adopt host gates prior) false [] _ o)
  keyed-Run id hash n miss s w =
      Run-if gates.has_boxes
        (λ h. await_slot-Run id (record n { hash = hash }) n s w.0 (rw (w.1) refl))
        (λ h.
          hashed_first id hash n.cached n s _ w
            (λ o. settle_failed-Run host gates id "launch" "" _ o))

  launch-Run :
      (id : String) (n : Work A) (s : Scheduler A)
      → lookup id s.nodes ≡ some n
      → is_started n.life ≡ true
      → Run s (launch host gates id n s)
  unfolding launch
  launch-Run id n s e st =
      chain
        (revise id n (record n { life = running }) e
          (starts-IsRevision n (record n { life = running }) st refl refl))
        (quiet (record {
          same_nodes = refl;
          same_succ = refl;
          same_indeg = refl;
          same_members = refl;
          same_done = refl;
          same_parked = λ h. refl;
          still_out = λ h. omega arith;
        }))

  hashed-Run :
      (id : String) (hash : Option String) (n : Work A) (s : Scheduler A)
      → IsQueued id n s
      → is_open id s ≡ true
      → Run s (hashed host gates id hash n s)
  unfolding hashed
  hashed-Run id none n s w o = settle_failed-Run host gates id "launch" "" s o
  hashed-Run id (some hash) n s w o =
      keyed-Run id hash n (lookup_prior gates.prior id (some hash)) s w

  imaged-Run :
      (id template : String) (inputs : Table A) (image : Option String) (n : Work A)
      (s : Scheduler A)
      → IsQueued id n s
      → is_open id s ≡ true
      → Run s (imaged host gates id template inputs image n s)
  unfolding imaged
  imaged-Run id template inputs none n s w o = settle_failed-Run host gates id "launch" "" s o
  imaged-Run id template inputs (some image) n s w o =
      hashed-Run id (gates.digest inputs template image) n s w o

  with_inputs-Run :
      (id template : String) (inputs : Inputs A) (n : Work A) (s : Scheduler A)
      → IsQueued id n s
      → is_open id s ≡ true
      → Run s (with_inputs host gates id template inputs n s)
  unfolding with_inputs
  with_inputs-Run id template (refused error) n s w o =
      settle_failed-Run host gates id "launch" "" s o
  with_inputs-Run id template (skipped from) n s w o =
      skipping-Nests host s id skipped_dependency from s o
  with_inputs-Run id template (resolved inputs) n s w o =
      imaged-Run id template inputs (gates.tag template) n s w o

  dispatch_agent-Run :
      (id : String) (plan : Plan A) (template : Option String) (n : Work A) (s : Scheduler A)
      → IsQueued id n s
      → is_open id s ≡ true
      → Run s (dispatch_agent host gates id plan template n s)
  unfolding dispatch_agent
  dispatch_agent-Run id plan none n s w o = settle_failed-Run host gates id "launch" _ s o
  dispatch_agent-Run id plan (some template) n s w o = with_inputs-Run id template _ n s w o

  dispatch_kind-Run :
      (id : String) (plan : Plan A) (kind : Kind) (n : Work A) (s : Scheduler A)
      → IsQueued id n s
      → is_open id s ≡ true
      → Run s (dispatch_kind host gates id plan kind n s)
  unfolding dispatch_kind
  dispatch_kind-Run id plan selector n s w o = resolve_selector-Run host gates id plan plan.sel s o
  dispatch_kind-Run id plan sub_workflow n s w o =
      settle_sub_entry-Run host gates id plan (lookup id s.scopes) s o
  dispatch_kind-Run id plan generate n s w o = launch-Run id n s w.0 (rw (w.1) refl)
  dispatch_kind-Run id plan agent n s w o = dispatch_agent-Run id plan plan.template n s w o
  dispatch_kind-Run id plan (unsupported word) n s w o =
      settle_failed-Run host gates id "expansion" "" s o

  dispatch_when-Run :
      (id : String) (plan : Plan A) (verdict : Option Verdict) (n : Work A) (s : Scheduler A)
      → IsQueued id n s
      → is_open id s ≡ true
      → Run s (dispatch_when host gates id plan verdict n s)
  unfolding dispatch_when
  dispatch_when-Run id plan none n s w o = dispatch_kind-Run id plan plan.kind n s w o
  dispatch_when-Run id plan (some run) n s w o = dispatch_kind-Run id plan plan.kind n s w o
  dispatch_when-Run id plan (some skip) n s w o = skipping-Nests host s id skipped_condition "" s o
  dispatch_when-Run id plan (some unknown_node) n s w o =
      settle_failed-Run host gates id "condition" "" s o
  dispatch_when-Run id plan (some unsettled_node) n s w o =
      settle_failed-Run host gates id "condition" "" s o
  dispatch_when-Run id plan (some program_error) n s w o =
      settle_failed-Run host gates id "condition" "" s o
  dispatch_when-Run id plan (some not_bool) n s w o =
      settle_failed-Run host gates id "condition" "" s o

  dispatch-Run :
      (id : String) (plan : Plan A) (n : Work A) (s : Scheduler A)
      → lookup id s.nodes ≡ some n
      → n.life ≡ queued
      → Run s (dispatch host gates id plan n s)
  unfolding dispatch
  dispatch-Run id plan n s e q =
      dispatch_when-Run id plan _ n s (e, q) (open_at id n s e (rw q refl))

  pub ready_turn-Run :
      (id : String) (plan : Plan A) (n : Work A) (s : Scheduler A)
      → lookup id s.nodes ≡ some n
      → n.life ≡ queued
      → Run s (ready_turn host gates id plan n s)
  unfolding ready_turn
  ready_turn-Run id plan n s e q =
      chain
        (quiet (record {
          same_nodes = refl;
          same_succ = refl;
          same_indeg = refl;
          same_members = refl;
          same_done = refl;
          same_parked = λ h. refl;
          still_out = λ h. omega arith;
        }))
        (dispatch-Run id plan n (record s { ready = drop_first id s.ready }) e q)

  pub slot_turn-Run :
      (id : String) (n : Work A) (s : Scheduler A)
      → lookup id s.nodes ≡ some n
      → n.life ≡ slot_wait
      → Run s (slot_turn host gates id n s)
  unfolding slot_turn
  slot_turn-Run id n s e q =
      chain
        (quiet (record {
          same_nodes = refl;
          same_succ = refl;
          same_indeg = refl;
          same_members = refl;
          same_done = refl;
          same_parked = λ h. refl;
          still_out = λ h. omega arith;
        }))
        (launch-Run id n _ e (rw q refl))
