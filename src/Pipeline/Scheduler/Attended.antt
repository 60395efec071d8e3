-- ===== src/Pipeline/Scheduler/Attended.antt =====
-- pipeline/scheduler.go: what the deferred nodes wait for, over the events.
use faber.Common.{
  ℕ, ◌≤◌, ◌≡◌, refl, sym, ◌∙◌, String, Bool, true, false, inl, inr, ◌⊎◌, Option, none, some, List,
  [], ◌∷◌, ◌++◌, ◌==◌, if◌then◌else◌, str_eq, eq_iff, lookup, In, arith, Bool-cases,
}
use faber.Metering.Cost.{Cost}
use faber.Failure.Result.{AttemptInfo, Result}
use faber.Failure.Journal.{defer}
use faber.Pipeline.Scheduler.{
  Life, pending, Scheduler, Host, is_done, is_deferred, is_zero, or_zero, push, set_node, test_life,
  wake_all, wake_parked,
}
use faber.Pipeline.Scheduler.Settle.{log_record, settle_result, settle_at, finish}
use faber.Pipeline.Scheduler.Events.{
  settled, deferring, wake, back, fold_settled, fold_deferred, put_off, park, step, sorted_ids,
  seed_from, seed,
}
use faber.Pipeline.Scheduler.Dispatch.{drop_first}
use faber.Pipeline.Scheduler.Runs.{log_record-Run, test_life-some}
use faber.Pipeline.Scheduler.Runs.Handlers.{is_away, fold_settled-Run}
use faber.Pipeline.Scheduler.Reached.{IsFresh}
use faber.Pipeline.Scheduler.Parked.{
  IsDeferred, Calm, calm, calmer, push-Calm, put-IsDeferred, wake_all-Wakes, wake_parked-empty,
  wake_parked-Calm, Moves-Calm,
}

away_open : (l : Life) → is_away l ≡ true → is_done l ≡ false
away_open l h = ground arith

fresh_awake : (l : Life) → l ≡ pending → is_deferred l ≡ true → ⊥
fresh_awake l e h = ground arith

In-append : (d x : String) (xs : List String) → In d xs → In d (xs ++ x ∷ [])
In-append d x (y ∷ xs) (inl e) = inl e
In-append d x (y ∷ xs) (inr i) = inr (In-append d x xs i)
In-append d x [] i = elim i [ ]

In_last : (d x : String) (xs : List String) → x ≡ d → In d (xs ++ x ∷ [])
In_last d x [] e = inl e
In_last d x (y ∷ xs) e = inr (In_last d x xs e)

In-drop_first :
    (id d : String) (xs : List String) → (id ≡ d → ⊥) → In d xs → In d (drop_first id xs)
unfolding drop_first
In-drop_first id d [] h i = i
In-drop_first id d (x ∷ xs) h i = elim (Bool-cases (str_eq x id)) [
  | inl q ↦ rw q (elim i [ inl e ↦ elim (h (sym ((eq_iff x id).0 q) ∙ e)) [ ] | inr j ↦ j ])
  | inr q ↦ rw q (elim i [ inl e ↦ inl e | inr j ↦ inr (In-drop_first id d xs h j) ])
]

module _ {A : Type 0} where
  -- Every deferred node is parked or has a timer, and only while a worker is out a node is parked.
  pub record IsAttended (timers : List String) (s : Scheduler A) : Type 0 where
    pub placed : (d : String) → IsDeferred d s → In d s.wait_zero ⊎ In d timers
    pub moving : (s.wait_zero ≡ []) ⊎ (1 ≤ s.outstanding)

  placed_after :
      (timers : List String) {s t : Scheduler A}
      → Calm s t
      → ((d : String) → IsDeferred d s → In d s.wait_zero ⊎ In d timers)
      → (d : String) → IsDeferred d t
      → In d t.wait_zero ⊎ In d timers
  placed_after timers c p d x = elim (p d (c.old d x)) [
    | inl i ↦ inl (c.parked d x i)
    | inr i ↦ inr i
  ]

  pub Calm-IsAttended :
      {timers : List String} {s t : Scheduler A}
      → Calm s t
      → IsAttended timers s
      → IsAttended timers t
  Calm-IsAttended {timers = timers} c k = record {
    placed = placed_after timers c k.placed;
    moving = elim k.moving [ inl e ↦ inl (c.emptied e) | inr h ↦ inr (omega (arith, h, c.out)) ];
  }

  seed_from-Calm : (ids : List String) (s : Scheduler A) → Calm s (seed_from ids s)
  unfolding seed_from
  seed_from-Calm [] s = calm s
  seed_from-Calm (id ∷ ids) s =
      go (is_zero (or_zero (lookup id s.indeg)))
        (calmer (push-Calm id s) (seed_from-Calm ids (push id s))) (seed_from-Calm ids s)
    where
      go :
          (b : Bool)
          → Calm s (seed_from ids (push id s))
          → Calm s (seed_from ids s)
          → Calm s (if b then seed_from ids (push id s) else seed_from ids s)
      go true f g = f
      go false f g = g

  pub seed-IsAttended :
      (s0 : Scheduler A) → IsFresh s0 → s0.wait_zero ≡ [] → IsAttended [] (seed s0)
  unfolding seed
  seed-IsAttended s0 f e = Calm-IsAttended (seed_from-Calm (sorted_ids s0.nodes) s0) (record {
    placed = λ d (n, g, h). elim (fresh_awake n.life (f.untouched d n g) h) [ ];
    moving = inl e;
  })

  -- A settlement of a node that runs wakes the parking lot.
  settled-empty :
      (host : Host A) (id : String) (res : Result) (costs : List Cost) (executed slot : Bool)
      (s : Scheduler A)
      → test_life is_away id s ≡ true
      → (step host (settled id res costs executed slot) s).wait_zero ≡ []
  unfolding step back fold_settled settle_result settle_at finish
  settled-empty host id res costs executed slot s h =
      let (n, e, p) = test_life-some is_away id s h in
      rw (e, away_open n.life p, e) (wake_parked-empty _)

  pub settling-IsAttended :
      (host : Host A) (timers : List String) (id : String) (res : Result) (costs : List Cost)
      (executed slot : Bool) (s : Scheduler A)
      → test_life is_away id s ≡ true
      → IsAttended timers s
      → IsAttended timers (step host (settled id res costs executed slot) s)
  unfolding step back
  settling-IsAttended host timers id res costs executed slot s h k = record {
    placed =
        placed_after timers
          (Moves-Calm (fold_settled-Run host id res costs executed (back host id slot s)))
          (λ d x. k.placed d x);
    moving = inl (settled-empty host id res costs executed slot s h);
  }

  module _ (host : Host A) (timers : List String) (id : String) (waiting logged : Scheduler A)
      (quietly : Calm waiting logged)
      (placed : (d : String)
        → IsDeferred d waiting
        → (str_eq id d ≡ true) ⊎ (In d waiting.wait_zero ⊎ In d timers)) where
    pub park_until-IsAttended : (t : ℕ) → IsAttended (id ∷ timers) (park host id (some t) logged)
    unfolding park
    park_until-IsAttended t = record {
      placed = placed_after (id ∷ timers) (calmer quietly (wake_parked-Calm logged)) (λ d x.
          elim (placed d x) [
            | inl q ↦ inr (inl ((eq_iff id d).0 q))
            | inr r ↦ elim r [ inl i ↦ inl i | inr j ↦ inr (inr j) ]
          ]);
      moving = inl (wake_parked-empty logged);
    }

    parked_placed :
        (d : String) → IsDeferred d logged → In d (logged.wait_zero ++ id ∷ []) ⊎ In d timers
    parked_placed d x = elim (placed d (quietly.old d x)) [
      | inl q ↦ inl (In_last d id logged.wait_zero ((eq_iff id d).0 q))
      | inr r ↦ elim r [
        | inl i ↦ inl (In-append d id logged.wait_zero (quietly.parked d x i))
        | inr j ↦ inr j
      ]
    ]

    pub park-IsAttended : IsAttended timers (park host id none logged)
    unfolding park
    park-IsAttended = go (logged.outstanding == 0) refl
      where
        parked : Scheduler A
        parked = record logged { wait_zero = logged.wait_zero ++ id ∷ [] }

        go :
            (b : Bool)
            → (logged.outstanding == 0) ≡ b
            → IsAttended timers (if b then wake_parked parked else parked)
        go true h = record {
          placed = placed_after timers (wake_parked-Calm parked) (λ d x. parked_placed d x);
          moving = inl (wake_parked-empty parked);
        }
        go false h = record { placed = λ d x. parked_placed d x; moving = inr (ground (arith, h)) }

  -- A deferral, up to its parking.
  folded :
      (host : Host A) (until : Option ℕ) (timers after : List String) (id detail : String)
      (history : List AttemptInfo) (used : ℕ) (costs : List Cost) (s : Scheduler A)
      → test_life is_away id s ≡ true
      → ((d : String) → IsDeferred d s → In d s.wait_zero ⊎ In d timers)
      → ((waiting logged : Scheduler A)
          → Calm waiting logged
          → ((d : String)
              → IsDeferred d waiting
              → (str_eq id d ≡ true) ⊎ (In d waiting.wait_zero ⊎ In d timers))
          → IsAttended after (park host id until logged))
      → IsAttended after
          (fold_deferred host id until detail history used costs (lookup id s.nodes) s)
  unfolding fold_deferred set_node
  folded host until timers after id detail history used costs s h placed parks =
      let (n, e, p) = test_life-some is_away id s h in
      let n' = put_off host until detail history used costs n in
      let waiting = set_node id n' s in
      let rec = defer (record { step_id = id; until = until; detail = detail }) in
      rw (e, away_open n.life p)
        (parks waiting (log_record host rec waiting) (Moves-Calm (log_record-Run host rec waiting))
          (λ d x. elim (put-IsDeferred id n' s d x) [ inl q ↦ inl q.0 | inr y ↦ inr (placed d y) ]))

  pub deferred-IsAttended :
      (host : Host A) (until : Option ℕ) (timers after : List String) (id detail : String)
      (history : List AttemptInfo) (used : ℕ) (costs : List Cost) (slot : Bool) (s : Scheduler A)
      → test_life is_away id s ≡ true
      → IsAttended timers s
      → ((waiting logged : Scheduler A)
          → Calm waiting logged
          → ((d : String)
              → IsDeferred d waiting
              → (str_eq id d ≡ true) ⊎ (In d waiting.wait_zero ⊎ In d timers))
          → IsAttended after (park host id until logged))
      → IsAttended after (step host (deferring id until detail history used costs slot) s)
  unfolding step back
  deferred-IsAttended host until timers after id detail history used costs slot s h k parks =
      folded host until timers after id detail history used costs (back host id slot s) h
        (λ d x. k.placed d x) parks

  pub firing-IsAttended :
      (host : Host A) (timers : List String) (id : String) (s : Scheduler A)
      → IsAttended timers s
      → IsAttended (drop_first id timers) (step host (wake id) s)
  unfolding step wake_all
  firing-IsAttended host timers id s k =
      let w = wake_all-Wakes (id ∷ []) s in
      let c = Calm-IsAttended {timers = timers} w.calmed k in
      record {
        placed = λ d x. elim (c.placed d x) [
          | inl i ↦ inl i
          | inr j ↦ inr (In-drop_first id d timers (λ q. w.woken d x (inl q)) j)
        ];
        moving = c.moving;
      }
