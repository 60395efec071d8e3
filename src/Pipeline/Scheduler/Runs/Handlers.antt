-- ===== src/Pipeline/Scheduler/Runs/Handlers.antt =====
-- pipeline/scheduler.go: step, taken apart into moves.
use faber.Common.{
  ℕ, ◌≡◌, refl, sym, String, Bool, true, false, inl, inr, Option, none, some, List, [], ◌∷◌, ◌++◌,
  ◌==◌, lookup, arith, Option-cases,
}
use mathlib.Core.Bool.{false≢true}
use faber.Metering.Cost.{Cost}
use faber.Failure.Result.{AttemptInfo, Result}
use faber.Failure.Journal.{defer}
use faber.Pipeline.Scheduler.{
  Life, running, is_deferred, Work, Scheduler, Host, is_done, test_life, set_node,
}
use faber.Pipeline.Scheduler.Settle.{log_record}
use faber.Pipeline.Scheduler.Events.{
  Event, settled, deferring, wake, back, with_earlier, fold_settled, put_off, park, fold_deferred,
  step,
}
use faber.Pipeline.Scheduler.Runs.{
  IsQuiet, IsRevision, Moves, any_move, Run, quiet, chain, revise, stay, Run-if, is_started,
  test_life-some, push-Run, wake_parked-Run, log_record-Run,
}
use faber.Pipeline.Scheduler.Runs.Settled.{open_at, settle_result-Run}

-- A node with a worker out for it.
abbrev pub is_away : Life → Bool
is_away running = true
is_away _ = false

away-started : (l : Life) → is_away l ≡ true → (is_done l ≡ false) × (is_started l ≡ true)
away-started l h = ground arith

module _ {A : Type 0} where
  -- A deferral comes from the worker of a node that runs.
  abbrev pub IsDelivered : Event → Scheduler A → Type 0
  IsDelivered (settled id res costs executed slot) s = Unit
  IsDelivered (deferring id until detail history used costs slot) s = test_life is_away id s ≡ true
  IsDelivered (wake id) s = Unit

  -- The slot and the count of workers are no part of a move.
  back-IsQuiet :
      (host : Host A) (id : String) (slot : Bool) (s : Scheduler A)
      → IsQuiet true s (back host id slot s)
  unfolding back
  back-IsQuiet host id slot s = record {
    same_nodes = refl;
    same_succ = refl;
    same_indeg = refl;
    same_members = refl;
    same_done = refl;
    same_parked = λ h. elim (false≢true (sym h)) [ ];
    still_out = λ h. elim (false≢true (sym h)) [ ];
  }

  pub fold_settled-Run :
      (host : Host A) (id : String) (res : Result) (costs : List Cost) (executed : Bool)
      (s : Scheduler A)
      → Run s (fold_settled host id res costs executed (lookup id s.nodes) s)
  unfolding fold_settled
  fold_settled-Run host id res costs executed s = elim (Option-cases (lookup id s.nodes)) [
    | inl e ↦ rw e (stay s)
    | inr (n, e) ↦ rw e (
        Run-if (is_done n.life) (λ h. stay s)
          (λ h.
            settle_result-Run host id (with_earlier n res) executed costs s (open_at id n s e h)))
  ]

  put_off-IsRevision :
      (host : Host A) (until : Option ℕ) (detail : String) (history : List AttemptInfo) (used : ℕ)
      (costs : List Cost) (n : Work A)
      → is_done n.life ≡ false
      → is_started n.life ≡ true
      → IsRevision true n (put_off host until detail history used costs n)
  unfolding put_off
  put_off-IsRevision host until detail history used costs n o st = record {
    was_open = o;
    is_open_still = refl;
    started = sym st;
    no_defer = λ h. elim (false≢true (sym h)) [ ];
  }

  park-Run :
      (host : Host A) (id : String) (until : Option ℕ) (s : Scheduler A)
      → Moves true s (park host id until s)
  unfolding park
  park-Run host id none s =
      let parked = record s { wait_zero = s.wait_zero ++ id ∷ [] } in
      let set = quiet (record {
        same_nodes = refl;
        same_succ = refl;
        same_indeg = refl;
        same_members = refl;
        same_done = refl;
        same_parked = λ h. elim (false≢true (sym h)) [ ];
        still_out = λ h. omega arith;
      }) in
      Run-if (s.outstanding == 0) (λ h. chain set (any_move (wake_parked-Run parked))) (λ h. set)
  park-Run host id (some t) s = any_move (wake_parked-Run s)

  fold_deferred-Run :
      (host : Host A) (id : String) (until : Option ℕ) (detail : String)
      (history : List AttemptInfo) (used : ℕ) (costs : List Cost) (s : Scheduler A)
      → test_life is_away id s ≡ true
      → Moves true s (fold_deferred host id until detail history used costs (lookup id s.nodes) s)
  unfolding fold_deferred
  fold_deferred-Run host id until detail history used costs s h =
      let (n, e, p) = test_life-some is_away id s h in
      let (o, st) = away-started n.life p in
      let waiting = set_node id (put_off host until detail history used costs n) s in
      let rec = defer (record { step_id = id; until = until; detail = detail }) in
      rw e (
        Run-if (is_done n.life) (λ d. stay s)
          (λ d.
            chain
              (revise id n (put_off host until detail history used costs n) e
                (put_off-IsRevision host until detail history used costs n o st))
              (chain (log_record-Run host rec waiting)
                (park-Run host id until (log_record host rec waiting)))))

  pub step-Run :
      (host : Host A) (e : Event) (s : Scheduler A) → IsDelivered e s → Moves true s (step host e s)
  unfolding step
  step-Run host (settled id res costs executed slot) s h =
      chain (quiet (back-IsQuiet host id slot s))
        (any_move (fold_settled-Run host id res costs executed (back host id slot s)))
  step-Run host (deferring id until detail history used costs slot) s h =
      chain (quiet (back-IsQuiet host id slot s))
        (fold_deferred-Run host id until detail history used costs (back host id slot s) h)
  step-Run host (wake id) s h =
      Run-if (test_life is_deferred id s) (λ p. push-Run id s p) (λ p. stay s)
