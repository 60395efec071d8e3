-- ===== src/Pipeline/Scheduler/Counts.antt =====
-- pipeline/scheduler.go: the counter by which the loop of run knows that it is finished.
use faber.Common.{
  ℕ, suc, ◌+◌, ◌≤◌, ◌≡◌, refl, String, Bool, true, false, not, ◌&&◌, inl, inr, some, List, [], ◌∷◌,
  if◌then◌else◌, length, ltb, eq_iff, Table, lookup, delete, put, IsUnique, put-IsUnique,
  delete_absent, arith, Option-cases,
}
use mathlib.Core.Option.{none-ne-some}
use faber.Pipeline.Values.{State}
use faber.Pipeline.Scheduler.{
  Life, queued, done, Work, Scheduler, is_done, is_waiting, is_pending, test_life, or_zero, before,
  is_zero, enqueue, set_node, push_at, push, mark_at, mark, lower_indeg, lower_all, release,
  succ_of,
}
use faber.Pipeline.Scheduler.Settle.{is_open}
use faber.Pipeline.Scheduler.Runs.{Moves, waken, quiet, chain, revise, settle, test_life-some}
use faber.Pipeline.Scheduler.Terminal.{is_open-false, waiting-open}

unfoldable is_done_flag : Life → ℕ
is_done_flag l = if is_done l then 1 else 0

module _ {A : Type 0} where
  unfoldable pub count_done : Table (Work A) → ℕ
  unfolding is_done_flag
  count_done [] = 0
  count_done ((id, n) ∷ m) = is_done_flag n.life + count_done m

  -- The counter of terminal nodes is right, and no id stands twice.
  pub record IsCounted (s : Scheduler A) : Type 0 where
    pub unique : IsUnique s.nodes
    pub counted : s.done ≡ count_done s.nodes

  count_done-delete :
      (id : String) (n : Work A) (m : Table (Work A))
      → IsUnique m
      → lookup id m ≡ some n
      → is_done_flag n.life + count_done (delete id m) ≡ count_done m
  unfolding count_done lookup delete
  count_done-delete id n [] u e = elim (none-ne-some n e) [ ]
  count_done-delete id n ((j, w) ∷ m) u e =
      ground (arith, eq_iff j id, delete_absent id m, count_done-delete id n m u.1)

  put-counted :
      (id : String) (n n' : Work A) (s : Scheduler A)
      → lookup id s.nodes ≡ some n
      → is_done n.life ≡ false
      → IsUnique s.nodes
      → count_done (put id n' s.nodes) ≡ is_done_flag n'.life + count_done s.nodes
  unfolding put count_done is_done_flag
  put-counted id n n' s e h u = ground (arith, count_done-delete id n s.nodes u e)

  revise-IsCounted :
      (id : String) (n n' : Work A) (s : Scheduler A)
      → lookup id s.nodes ≡ some n
      → is_done n.life ≡ false
      → is_done n'.life ≡ false
      → IsCounted s
      → IsCounted (set_node id n' s)
  unfolding set_node is_done_flag
  revise-IsCounted id n n' s e h h' c = record {
    unique = put-IsUnique id n' s.nodes c.unique;
    counted = ground (arith, put-counted id n n' s e h c.unique, c.counted);
  }

  pub push-IsCounted : (id : String) (s : Scheduler A) → IsCounted s → IsCounted (push id s)
  unfolding push push_at
  push-IsCounted id s c = elim (Option-cases (lookup id s.nodes)) [
    | inl e ↦ rw e c
    | inr (n, e) ↦ rw e (go n e (is_waiting n.life) refl)
  ]
    where
      go :
          (n : Work A)
          → lookup id s.nodes ≡ some n
          → (b : Bool) → is_waiting n.life ≡ b
          → IsCounted (
              if b
              then record (set_node id (record n { life = queued }) s) {
                ready = enqueue id s.ready;
              }
              else s)
      go n e true h =
          let r =
            revise-IsCounted id n (record n { life = queued }) s e (waiting-open n.life h) refl c in
          record { unique = r.unique; counted = r.counted }
      go n e false h = c

  if-IsCounted :
      (b : Bool) (s t : Scheduler A) → IsCounted s → IsCounted t → IsCounted (if b then s else t)
  if-IsCounted true s t c c' = c
  if-IsCounted false s t c c' = c'

  lower_indeg-IsCounted : (d : String) (s : Scheduler A) → IsCounted s → IsCounted (lower_indeg d s)
  unfolding lower_indeg
  lower_indeg-IsCounted d s c =
      let lowered = record s { indeg = put d (before (or_zero (lookup d s.indeg))) s.indeg } in
      let c' : IsCounted lowered = record { unique = c.unique; counted = c.counted } in
      if-IsCounted (is_zero (before (or_zero (lookup d s.indeg))) && test_life is_pending d s)
        (push d lowered) lowered (push-IsCounted d lowered c') c'

  lower_all-IsCounted :
      (ds : List String) (s : Scheduler A) → IsCounted s → IsCounted (lower_all ds s)
  unfolding lower_all
  lower_all-IsCounted [] s c = c
  lower_all-IsCounted (d ∷ ds) s c =
      lower_all-IsCounted ds (lower_indeg d s) (lower_indeg-IsCounted d s c)

  marked-IsCounted :
      (id : String) (status : State) (n : Work A) (s : Scheduler A)
      → lookup id s.nodes ≡ some n
      → is_done n.life ≡ false
      → IsCounted s
      → IsCounted (mark_at id status (some n) s)
  unfolding mark_at set_node is_done_flag
  marked-IsCounted id status n s e o c =
      let n' : Work A = record n { life = done; status = status } in
      record {
        unique = put-IsUnique id n' s.nodes c.unique;
        counted = ground (arith, put-counted id n n' s e o c.unique, c.counted);
      }

  pub mark-IsCounted :
      (id : String) (status : State) (s : Scheduler A)
      → is_open id s ≡ true
      → IsCounted s
      → IsCounted (mark id status s)
  unfolding mark is_open
  mark-IsCounted id status s h c =
      let (n, e, o) = test_life-some (λ l. not (is_done l)) id s h in
      rw e (marked-IsCounted id status n s e (is_open-false n.life o) c)

  pub Run-IsCounted : {b : Bool} {s t : Scheduler A} → Moves b s t → IsCounted s → IsCounted t
  unfolding release
  Run-IsCounted (quiet q) c = record {
    unique = rw (q.same_nodes) (c.unique);
    counted = rw (q.same_nodes, q.same_done) (c.counted);
  }
  Run-IsCounted (chain r r') c = Run-IsCounted r' (Run-IsCounted r c)
  Run-IsCounted (revise {s = s} id n n' e r) c =
      revise-IsCounted id n n' s e r.was_open r.is_open_still c
  Run-IsCounted (settle {s = s} {t = t} id status o r) c =
      lower_all-IsCounted (succ_of id t) t (Run-IsCounted r (mark-IsCounted id status s o c))
  Run-IsCounted (waken m) c = Run-IsCounted m c

  count_done_bound : (m : Table (Work A)) → count_done m ≤ length m
  unfolding count_done is_done_flag
  count_done_bound [] = omega arith
  count_done_bound ((j, w) ∷ m) = ground (arith, count_done_bound m)

  rest_full :
      (w : Work A) (m : Table (Work A))
      → suc (length m) ≤ is_done_flag w.life + count_done m
      → length m ≤ count_done m
  unfolding is_done_flag
  rest_full w m h = ground arith

  all-done :
      (m : Table (Work A))
      → length m ≤ count_done m
      → (p : String) (n : Work A) → lookup p m ≡ some n
      → is_done n.life ≡ true
  unfolding count_done lookup is_done_flag
  all-done [] h p n e = elim (none-ne-some n e) [ ]
  all-done ((j, w) ∷ m) h p n e =
      ground (arith, count_done_bound m, all-done m (rest_full w m h) p n)

  -- The test on which the loop of run ends tells that every node is terminal.
  pub ended-done :
      (s : Scheduler A)
      → IsCounted s
      → ltb s.done (length s.nodes) ≡ false
      → (p : String) (n : Work A) → lookup p s.nodes ≡ some n
      → is_done n.life ≡ true
  ended-done s c h = all-done s.nodes (ground (arith, c.counted))
