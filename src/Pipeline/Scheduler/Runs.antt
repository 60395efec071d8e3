-- ===== src/Pipeline/Scheduler/Runs.antt =====
-- pipeline/scheduler.go: the moves that a handler is made of. A settlement marks its node, runs what
-- the cascades settle, and releases its successors; all else revises an open node.
pub mod Settled
pub mod Handlers
pub mod Entries
pub mod Dispatches
use faber.Common.{
  ℕ, zero, suc, ◌+◌, ◌≤◌, ◌≡◌, refl, sym, String, Bool, true, false, not, ◌⊎◌, inl, inr, Option,
  none, some, List, [], ◌∷◌, ◌++◌, if◌then◌else◌, length, lookup, arith, Option-cases, Bool-cases,
}
use mathlib.Core.Bool.{false≢true}
use faber.Failure.Journal.{Record}
use faber.Failure.Skips.{contains}
use faber.Pipeline.Values.{
  State, ok, failed, halted, skipped_condition, skipped_dependency, skipped_halt,
}
use faber.Pipeline.Scheduler.{
  Life, pending, queued, deferred, done, Work, Scheduler, Host, is_done, is_ok, is_waiting,
  is_passive, is_deferred, test_at, test_life, set_node, push_at, push, wake_all, wake_parked,
  succ_of, mark, release, members_of,
}
use faber.Pipeline.Scheduler.Settle.{
  is_open, log_record, member_skip, skip_members, cascade, walk, total_succ, propagate, spread,
  finish, settle_skip,
}

-- A node that waits no longer on its edges and is not settled.
abbrev pub is_started : Life → Bool
is_started pending = false
is_started done = false
is_started _ = true

deferred-started : (l : Life) → is_deferred l ≡ true → (is_done l ≡ false) × (is_started l ≡ true)
deferred-started l h = ground arith

deferred-waiting : (l : Life) → is_deferred l ≡ true → is_waiting l ≡ true
deferred-waiting l h = ground arith

passive-open : (l : Life) → is_passive l ≡ true → is_done l ≡ false
passive-open l h = ground arith

module _ {A : Type 0} where
  -- What the moves are about is the same; unless a node is parked, so is the parking lot, and no
  -- worker comes back.
  pub record IsQuiet (parks : Bool) (s t : Scheduler A) : Type 0 where
    pub same_nodes : t.nodes ≡ s.nodes
    pub same_succ : t.succ ≡ s.succ
    pub same_indeg : t.indeg ≡ s.indeg
    pub same_members : t.members ≡ s.members
    pub same_done : t.done ≡ s.done
    pub same_parked : parks ≡ false → t.wait_zero ≡ s.wait_zero
    pub still_out : parks ≡ false → s.outstanding ≤ t.outstanding

  -- An open node stays open, and starts no sooner; unless a node is parked, it is not deferred.
  pub record IsRevision (parks : Bool) (n n' : Work A) : Type 0 where
    pub was_open : is_done n.life ≡ false
    pub is_open_still : is_done n'.life ≡ false
    pub started : is_started n'.life ≡ is_started n.life
    pub no_defer : parks ≡ false → is_deferred n'.life ≡ true → is_deferred n.life ≡ true

  -- The moves, and those that park no node; waking the whole parking lot is one of the latter.
  pub data Moves : Bool → Scheduler A → Scheduler A → Type 0 where
    quiet : {b : Bool} {s t : Scheduler A} → IsQuiet b s t → Moves b s t
    chain : {b : Bool} {s t u : Scheduler A} → Moves b s t → Moves b t u → Moves b s u
    revise :
        {b : Bool} {s : Scheduler A} (id : String) (n n' : Work A)
        → lookup id s.nodes ≡ some n
        → IsRevision b n n'
        → Moves b s (set_node id n' s)
    settle :
        {b : Bool} {s t : Scheduler A} (id : String) (status : State)
        → is_open id s ≡ true
        → Moves b (mark id status s) t
        → Moves b s (release id t)
    waken : {s : Scheduler A} → Moves true s (wake_parked s) → Moves false s (wake_parked s)

  abbrev pub Run : Scheduler A → Scheduler A → Type 0
  Run s t = Moves false s t

  -- A run among the moves that may park.
  pub any_move : {s t : Scheduler A} → Moves false s t → Moves true s t
  any_move (quiet q) = quiet (record {
    same_nodes = q.same_nodes;
    same_succ = q.same_succ;
    same_indeg = q.same_indeg;
    same_members = q.same_members;
    same_done = q.same_done;
    same_parked = λ h. elim (false≢true (sym h)) [ ];
    still_out = λ h. elim (false≢true (sym h)) [ ];
  })
  any_move (chain m m') = chain (any_move m) (any_move m')
  any_move (revise id n n' e r) = revise id n n' e (record {
    was_open = r.was_open;
    is_open_still = r.is_open_still;
    started = r.started;
    no_defer = λ h. elim (false≢true (sym h)) [ ];
  })
  any_move (settle id status o m) = settle id status o (any_move m)
  any_move (waken m) = m

  pub stay : {b : Bool} (s : Scheduler A) → Moves b s s
  stay s = quiet (record {
    same_nodes = refl;
    same_succ = refl;
    same_indeg = refl;
    same_members = refl;
    same_done = refl;
    same_parked = λ h. refl;
    still_out = λ h. omega arith;
  })

  -- Either branch of a test.
  pub Run-if :
      {c : Bool} {s t u : Scheduler A} (b : Bool)
      → (b ≡ true → Moves c s t)
      → (b ≡ false → Moves c s u)
      → Moves c s (if b then t else u)
  Run-if true f g = f refl
  Run-if false f g = g refl

  pub log_record-Run :
      {b : Bool} (host : Host A) (rec : Record) (s : Scheduler A)
      → Moves b s (log_record host rec s)
  unfolding log_record
  log_record-Run host rec s =
      Run-if (host.accepts s.journal rec)
        (λ h. quiet (record {
          same_nodes = refl;
          same_succ = refl;
          same_indeg = refl;
          same_members = refl;
          same_done = refl;
          same_parked = λ h. refl;
          still_out = λ h. omega arith;
        }))
        (λ h. quiet (record {
          same_nodes = refl;
          same_succ = refl;
          same_indeg = refl;
          same_members = refl;
          same_done = refl;
          same_parked = λ h. refl;
          still_out = λ h. omega arith;
        }))

  test_at-some :
      (test : Life → Bool) (o : Option (Work A))
      → test_at test o ≡ true
      → (n : Work A) × (o ≡ some n) × (test n.life ≡ true)
  unfolding test_at
  test_at-some test none h = elim (false≢true h) [ ]
  test_at-some test (some n) h = (n, refl, h)

  pub test_life-some :
      (test : Life → Bool) (id : String) (s : Scheduler A)
      → test_life test id s ≡ true
      → (n : Work A) × (lookup id s.nodes ≡ some n) × (test n.life ≡ true)
  unfolding test_life
  test_life-some test id s h = test_at-some test (lookup id s.nodes) h

  pub passive_is_open :
      (id : String) (s : Scheduler A) → test_life is_passive id s ≡ true → is_open id s ≡ true
  unfolding is_open
  passive_is_open id s h =
      let (n, e, p) = test_life-some is_passive id s h in
      simp (test_life, test_at, e, passive-open n.life p) refl

  -- A push of a deferred node.
  pub push-Run :
      {b : Bool} (id : String) (s : Scheduler A)
      → test_life is_deferred id s ≡ true
      → Moves b s (push id s)
  unfolding push push_at
  push-Run id s h =
      let (n, e, p) = test_life-some is_deferred id s h in
      let (o, st) = deferred-started n.life p in
      rw (e, deferred-waiting n.life p)
        (chain
          (revise id n (record n { life = queued }) e
            (record {
              was_open = o;
              is_open_still = refl;
              started = sym st;
              no_defer = λ p d. elim (false≢true d) [ ];
            }))
          (quiet (record {
            same_nodes = refl;
            same_succ = refl;
            same_indeg = refl;
            same_members = refl;
            same_done = refl;
            same_parked = λ h. refl;
            still_out = λ h. omega arith;
          })))

  wake_all-Moves : (ws : List String) (s : Scheduler A) → Moves true s (wake_all ws s)
  unfolding wake_all
  wake_all-Moves [] s = stay s
  wake_all-Moves (w ∷ ws) s =
      Run-if (test_life is_deferred w s)
        (λ h. chain (push-Run w s h) (wake_all-Moves ws (push w s))) (λ h. wake_all-Moves ws s)

  pub wake_parked-Run : (s : Scheduler A) → Run s (wake_parked s)
  unfolding wake_parked
  wake_parked-Run s = waken (
      chain
        (quiet (record {
          same_nodes = refl;
          same_succ = refl;
          same_indeg = refl;
          same_members = refl;
          same_done = refl;
          same_parked = λ h. elim (false≢true (sym h)) [ ];
          still_out = λ h. omega arith;
        }))
        (wake_all-Moves s.wait_zero (record s { wait_zero = [] })))

  -- How a nested settlement is used: on an open node, and it is a run.
  abbrev pub Nests : (String → State → String → Scheduler A → Scheduler A) → Type 0
  Nests skip =
      (id : String) (state : State) (ancestor : String) (s : Scheduler A)
      → is_open id s ≡ true
      → Run s (skip id state ancestor s)

  module _ (skip : String → State → String → Scheduler A → Scheduler A) (nests : Nests skip) where
    pub skip_members-Run :
        (state : State) (ancestor : String) (ms : List String) (s : Scheduler A)
        → Run s (skip_members skip state ancestor ms s)
    unfolding skip_members
    skip_members-Run state ancestor [] s = stay s
    skip_members-Run state ancestor (m ∷ ms) s =
        Run-if (is_open m s)
          (λ h.
            chain (nests m state ancestor s h)
              (skip_members-Run state ancestor ms (skip m state ancestor s)))
          (λ h. skip_members-Run state ancestor ms s)

    pub cascade-Run :
        (id : String) (status : State) (s : Scheduler A) → Run s (cascade skip id status s)
    unfolding cascade
    cascade-Run id status s =
        Run-if (is_ok status) (λ h. stay s)
          (λ h.
            skip_members-Run (member_skip status id).0 (member_skip status id).1 (members_of id s)
              s)

    pub walk-Run :
        (root : String) (state : State) (fuel : ℕ) (visited queue : List String) (s : Scheduler A)
        → Run s (walk skip root state fuel visited queue s)
    unfolding walk
    walk-Run root state zero visited queue s = stay s
    walk-Run root state (suc fuel) visited [] s = stay s
    walk-Run root state (suc fuel) visited (id ∷ queue) s =
        Run-if (contains visited id) (λ h. walk-Run root state fuel visited queue s)
          (λ h.
            Run-if (test_life is_passive id s)
              (λ p.
                chain (nests id state root s (passive_is_open id s p))
                  (walk-Run root state fuel (id ∷ visited) _ (skip id state root s)))
              (λ p. walk-Run root state fuel (id ∷ visited) queue s))

    propagate-Run :
        (root : String) (state : State) (s : Scheduler A) → Run s (propagate skip root state s)
    unfolding propagate
    propagate-Run root state s =
        walk-Run root state (suc (length (succ_of root s) + total_succ s.succ)) [] (succ_of root s)
          s

    pub spread-Run :
        (id : String) (status : State) (s : Scheduler A) → Run s (spread skip id status s)
    unfolding spread
    spread-Run id failed s = propagate-Run id skipped_dependency s
    spread-Run id halted s = propagate-Run id skipped_halt s
    spread-Run id ok s = stay s
    spread-Run id skipped_condition s = stay s
    spread-Run id skipped_dependency s = stay s
    spread-Run id skipped_halt s = stay s

    pub finish-Run :
        (id : String) (status : State) (s : Scheduler A)
        → is_open id s ≡ true
        → Run s (finish skip id status s)
    unfolding finish
    finish-Run id status s h =
        chain
          (settle id status h (
            chain (cascade-Run id status (mark id status s))
              (spread-Run id status (cascade skip id status (mark id status s)))))
          (wake_parked-Run _)
