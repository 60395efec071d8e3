-- ===== src/Pipeline/Scheduler/Served.antt =====
-- pipeline/scheduler.go: runs of the loop with the timers that are pending, and what keeps them
-- going.
use faber.Common.{
  ℕ, ◌≤◌, ◌≡◌, String, Bool, true, false, ◌⊎◌, none, some, List, [], ◌∷◌, lookup, In,
}
use faber.Metering.Cost.{Cost}
use faber.Failure.Result.{AttemptInfo, Result}
use faber.Pipeline.Scheduler.{
  Life, queued, slot_wait, running, Work, Scheduler, Host, is_deferred, test_life,
}
use faber.Pipeline.Scheduler.Events.{settled, deferring, wake, step, seed}
use faber.Pipeline.Scheduler.Dispatch.{drop_first, ready_turn, slot_turn}
use faber.Pipeline.Scheduler.Gates.{Plan, Gates}
use faber.Pipeline.Scheduler.Runs.Handlers.{is_away}
use faber.Pipeline.Scheduler.Runs.Dispatches.{ready_turn-Run, slot_turn-Run}
use faber.Pipeline.Scheduler.Reached.{IsFresh, event, dispatching, launching, Reached, seeded, turn}
use faber.Pipeline.Scheduler.Parked.{Moves-Calm}
use faber.Pipeline.Scheduler.Attended.{
  IsAttended, Calm-IsAttended, seed-IsAttended, settling-IsAttended, park_until-IsAttended,
  park-IsAttended, deferred-IsAttended, firing-IsAttended,
}

-- A node that the loop or a worker has in hand.
abbrev pub is_active : Life → Bool
is_active queued = true
is_active slot_wait = true
is_active running = true
is_active _ = false

module _ {A : Type 0} where
  -- A run of the loop and the ids of the timers that are pending. A worker's event comes for a node
  -- that runs, a deferral until an instant starts a timer, and a timer fires once, at any time.
  pub data Served (host : Host A) (s0 : Scheduler A) : List String → Scheduler A → Type 0 where
    started : Served host s0 [] (seed s0)
    settling :
        {timers : List String} {s : Scheduler A} (id : String) (res : Result) (costs : List Cost)
        (executed slot : Bool)
        → Served host s0 timers s
        → test_life is_away id s ≡ true
        → Served host s0 timers (step host (settled id res costs executed slot) s)
    timing :
        {timers : List String} {s : Scheduler A} (id : String) (t : ℕ) (detail : String)
        (history : List AttemptInfo) (used : ℕ) (costs : List Cost) (slot : Bool)
        → Served host s0 timers s
        → test_life is_away id s ≡ true
        → Served host s0
            (id ∷ timers)
            (step host (deferring id (some t) detail history used costs slot) s)
    parking :
        {timers : List String} {s : Scheduler A} (id detail : String) (history : List AttemptInfo)
        (used : ℕ) (costs : List Cost) (slot : Bool)
        → Served host s0 timers s
        → test_life is_away id s ≡ true
        → Served host s0 timers (step host (deferring id none detail history used costs slot) s)
    firing :
        {timers : List String} {s : Scheduler A} (id : String)
        → Served host s0 timers s
        → In id timers
        → Served host s0 (drop_first id timers) (step host (wake id) s)
    dispatched :
        {timers : List String} {s : Scheduler A} (gates : Gates A) (id : String) (plan : Plan A)
        (n : Work A)
        → Served host s0 timers s
        → lookup id s.nodes ≡ some n
        → n.life ≡ queued
        → Served host s0 timers (ready_turn host gates id plan n s)
    launched :
        {timers : List String} {s : Scheduler A} (gates : Gates A) (id : String) (n : Work A)
        → Served host s0 timers s
        → lookup id s.nodes ≡ some n
        → n.life ≡ slot_wait
        → Served host s0 timers (slot_turn host gates id n s)

  pub Served-Reached :
      {host : Host A} {s0 s : Scheduler A} {timers : List String}
      → Served host s0 timers s
      → Reached host s0 s
  Served-Reached started = seeded
  Served-Reached (settling id res costs executed slot r h) =
      turn (Served-Reached r) (event (settled id res costs executed slot) _ tt)
  Served-Reached (timing id t detail history used costs slot r h) =
      turn (Served-Reached r) (event (deferring id (some t) detail history used costs slot) _ h)
  Served-Reached (parking id detail history used costs slot r h) =
      turn (Served-Reached r) (event (deferring id none detail history used costs slot) _ h)
  Served-Reached (firing id r i) = turn (Served-Reached r) (event (wake id) _ tt)
  Served-Reached (dispatched gates id plan n r e q) =
      turn (Served-Reached r) (dispatching gates id plan n _ e q)
  Served-Reached (launched gates id n r e q) = turn (Served-Reached r) (launching gates id n _ e q)

  pub Served-IsAttended :
      {host : Host A} {s0 s : Scheduler A} {timers : List String}
      → IsFresh s0
      → s0.wait_zero ≡ []
      → Served host s0 timers s
      → IsAttended timers s
  Served-IsAttended {s0 = s0} f e started = seed-IsAttended s0 f e
  Served-IsAttended {host = host} {timers = timers} f e
        (settling {s = s} id res costs executed slot r h) =
      settling-IsAttended host timers id res costs executed slot s h (Served-IsAttended f e r)
  Served-IsAttended {host = host} f e
        (timing {timers = timers} {s = s} id t detail history used costs slot r h) =
      deferred-IsAttended host (some t) timers (id ∷ timers) id detail history used costs slot s h
        (Served-IsAttended f e r)
        (λ waiting logged c p. park_until-IsAttended host timers id waiting logged c p t)
  Served-IsAttended {host = host} {timers = timers} f e
        (parking {s = s} id detail history used costs slot r h) =
      deferred-IsAttended host none timers timers id detail history used costs slot s h
        (Served-IsAttended f e r)
        (λ waiting logged c p. park-IsAttended host timers id waiting logged c p)
  Served-IsAttended {host = host} f e (firing {timers = timers} {s = s} id r i) =
      firing-IsAttended host timers id s (Served-IsAttended f e r)
  Served-IsAttended {host = host} f e (dispatched {s = s} gates id plan n r g q) =
      Calm-IsAttended (Moves-Calm (ready_turn-Run host gates id plan n s g q))
        (Served-IsAttended f e r)
  Served-IsAttended {host = host} f e (launched {s = s} gates id n r g q) =
      Calm-IsAttended (Moves-Calm (slot_turn-Run host gates id n s g q)) (Served-IsAttended f e r)

  -- Why a node that is not terminal is not forgotten: it is queued, waits for a slot or runs; or it
  -- is deferred, with a timer that is pending or while a worker is out.
  abbrev pub IsAwaited : List String → Scheduler A → String → Type 0
  IsAwaited timers s e =
      (w : Work A) × (lookup e s.nodes ≡ some w)
      × ((is_active w.life ≡ true)
          ⊎ ((is_deferred w.life ≡ true) × (In e timers ⊎ (1 ≤ s.outstanding))))
