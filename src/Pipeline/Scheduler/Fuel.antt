-- ===== src/Pipeline/Scheduler/Fuel.antt =====
-- pipeline/scheduler.go: the fuel of a nested settlement. `fuel` is enough when it and the counter of
-- terminal nodes reach the number of nodes.
use faber.Common.{
  ℕ, zero, suc, ◌+◌, ◌≤◌, ◌≡◌, String, Bool, true, false, not, ◌&&◌, inl, inr, some, List, [], ◌∷◌,
  if◌then◌else◌, length, ltb, Table, lookup, delete, put, arith, Option-cases,
}
use mathlib.Core.Option.{none-ne-some}
use faber.Pipeline.Values.{State}
use faber.Pipeline.Scheduler.{
  queued, done, Work, Scheduler, is_done, is_waiting, is_pending, test_life, before, is_zero,
  or_zero, enqueue, set_node, push_at, push, mark_at, mark, lower_indeg, lower_all, release,
  succ_of,
}
use faber.Pipeline.Scheduler.Settle.{is_open}
use faber.Pipeline.Scheduler.Runs.{Moves, waken, quiet, chain, revise, settle, test_life-some}
use faber.Pipeline.Scheduler.Counts.{IsCounted, Run-IsCounted, ended-done}

module _ {A : Type 0} where
  length-delete : (k : String) (m : Table (Work A)) → length (delete k m) ≤ length m
  unfolding delete
  length-delete k [] = omega arith
  length-delete k ((j, w) ∷ m) = ground (arith, length-delete k m)

  length-delete_present :
      (k : String) (n : Work A) (m : Table (Work A))
      → lookup k m ≡ some n
      → suc (length (delete k m)) ≤ length m
  unfolding delete lookup
  length-delete_present k n [] e = elim (none-ne-some n e) [ ]
  length-delete_present k n ((j, w) ∷ m) e =
      ground (arith, length-delete k m, length-delete_present k n m)

  -- The nodes become no more, and the counter no less.
  pub record Nears (s t : Scheduler A) : Type 0 where
    pub size : length t.nodes ≤ length s.nodes
    pub count : s.done ≤ t.done

  near : (s : Scheduler A) → Nears s s
  near s = record { size = omega arith; count = omega arith }

  nearer : {s t u : Scheduler A} → Nears s t → Nears t u → Nears s u
  nearer a b = record {
    size = omega (arith, a.size, b.size);
    count = omega (arith, a.count, b.count);
  }

  if-Nears :
      {s : Scheduler A} (b : Bool) (t u : Scheduler A)
      → Nears s t
      → Nears s u
      → Nears s (if b then t else u)
  if-Nears true t u f g = f
  if-Nears false t u f g = g

  put-Nears :
      (id : String) (n n' : Work A) (s : Scheduler A)
      → lookup id s.nodes ≡ some n
      → Nears s (set_node id n' s)
  unfolding set_node put
  put-Nears id n n' s e = record {
    size = omega (arith, length-delete_present id n s.nodes e);
    count = omega arith;
  }

  push-Nears : (id : String) (s : Scheduler A) → Nears s (push id s)
  unfolding push push_at
  push-Nears id s = elim (Option-cases (lookup id s.nodes)) [
    | inl e ↦ rw e (near s)
    | inr (n, e) ↦ rw e (if-Nears (is_waiting n.life) _ s (waiting n e) (near s))
  ]
    where
      waiting :
          (n : Work A)
          → lookup id s.nodes ≡ some n
          → Nears s
              (record (set_node id (record n { life = queued }) s) { ready = enqueue id s.ready })
      waiting n e =
          let p = put-Nears id n (record n { life = queued }) s e in
          record { size = p.size; count = p.count }

  lower_all-Nears : (ds : List String) (s : Scheduler A) → Nears s (lower_all ds s)
  unfolding lower_all lower_indeg
  lower_all-Nears [] s = near s
  lower_all-Nears (d ∷ ds) s =
      let lowered = record s { indeg = put d (before (or_zero (lookup d s.indeg))) s.indeg } in
      let p = push-Nears d lowered in
      nearer
        (if-Nears (is_zero (before (or_zero (lookup d s.indeg))) && test_life is_pending d s)
          (push d lowered) lowered (record { size = p.size; count = p.count })
          (record { size = omega arith; count = omega arith }))
        (lower_all-Nears ds (lower_indeg d s))

  -- A settlement counts one more.
  pub mark-count :
      (id : String) (status : State) (s : Scheduler A)
      → is_open id s ≡ true
      → Nears s (mark id status s) × (suc s.done ≤ (mark id status s).done)
  unfolding mark mark_at is_open
  mark-count id status s h =
      let (n, e, o) = test_life-some (λ l. not (is_done l)) id s h in
      let p = put-Nears id n (record n { life = done; status = status }) s e in
      rw e (record { size = p.size; count = omega arith }, omega arith)

  pub Run-Nears : {b : Bool} {s t : Scheduler A} → Moves b s t → Nears s t
  unfolding release
  Run-Nears (quiet q) = record {
    size = rw (q.same_nodes) (omega arith);
    count = rw (q.same_done) (omega arith);
  }
  Run-Nears (chain r r') = nearer (Run-Nears r) (Run-Nears r')
  Run-Nears (revise {s = s} id n n' e r) = put-Nears id n n' s e
  Run-Nears (settle {s = s} {t = t} id status o r) =
      nearer (mark-count id status s o).0 (nearer (Run-Nears r) (lower_all-Nears (succ_of id t) t))
  Run-Nears (waken m) = Run-Nears m

  -- Enough fuel for the settlements that are still possible.
  pub record IsFueled (fuel : ℕ) (s : Scheduler A) : Type 0 where
    pub counted : IsCounted s
    pub enough : length s.nodes ≤ fuel + s.done

  pub Run-IsFueled :
      {b : Bool} {s t : Scheduler A} (fuel : ℕ) → Moves b s t → IsFueled fuel s → IsFueled fuel t
  Run-IsFueled fuel r f =
      let n = Run-Nears r in
      record {
        counted = Run-IsCounted r f.counted;
        enough = omega (arith, n.size, n.count, f.enough);
      }

  -- An open node leaves some fuel.
  pub open-fuel :
      (fuel : ℕ) (id : String) (s : Scheduler A) → is_open id s ≡ true → IsFueled fuel s → 1 ≤ fuel
  unfolding is_open
  open-fuel (suc fuel) id s h f = omega arith
  open-fuel zero id s h f =
      let (n, e, o) = test_life-some (λ l. not (is_done l)) id s h in
      ground (arith, ended-done s f.counted (full f.enough) id n e, o)
    where
      full : length s.nodes ≤ 0 + s.done → ltb s.done (length s.nodes) ≡ false
      full k = ground arith
