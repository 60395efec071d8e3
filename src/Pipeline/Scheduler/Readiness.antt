-- ===== src/Pipeline/Scheduler/Readiness.antt =====
-- pipeline/scheduler.go: the counts of unmet dependencies, and the nodes that have started. `waits`
-- is how many edges a node still waits for.
pub mod Blocked
pub mod Unmet
pub mod Edges
pub mod Runs
pub mod Seeds
use faber.Common.{
  ℕ, zero, suc, ◌+◌, ◌≤◌, ◌≡◌, refl, sym, ◌∙◌, ap, subst, String, Bool, true, false, not, ◌&&◌, inl,
  inr, Option, none, some, List, [], ◌∷◌, if◌then◌else◌, ◌==◌, str_eq, str_eq_self, eq_iff, Table,
  lookup, put, lookup-put, arith, Option-cases, Bool-cases,
}
use mathlib.Core.Option.{some-injective}
use faber.Metering.Cost.{ℤ, pos}
use faber.Pipeline.Scheduler.{
  Life, pending, queued, Work, Scheduler, is_done, is_waiting, is_pending, test_life, test_at,
  or_zero, before, is_zero, enqueue, set_node, push_at, push, lower_indeg, lower_all,
}
use faber.Pipeline.Scheduler.Runs.{IsRevision, is_started, test_life-some}

unfoldable pub occurrences : String → List String → ℕ
occurrences d [] = 0
occurrences d (x ∷ xs) = (if str_eq x d then 1 else 0) + occurrences d xs

before-suc : (z : ℤ) (n : ℕ) → z ≡ pos (suc n) → before z ≡ pos n
unfolding before
before-suc z n e = rw e refl

zero_at : (z : ℤ) (b : Bool) (m : ℕ) → z ≡ pos m → is_zero z && b ≡ true → m ≡ 0
unfolding is_zero
zero_at z b m e h = ground arith

module _ {A : Type 0} where
  -- The in-degrees are the counts, and a node that has started waits for nothing.
  pub record Tracks (waits : String → ℕ) (s : Scheduler A) : Type 0 where
    pub indegrees : (d : String) → or_zero (lookup d s.indeg) ≡ pos (waits d)
    pub ready :
        (d : String) (n : Work A)
        → lookup d s.nodes ≡ some n
        → is_started n.life ≡ true
        → waits d ≡ 0

  pub Tracks-ext :
      (waits waits' : String → ℕ) (s : Scheduler A)
      → ((x : String) → waits x ≡ waits' x)
      → Tracks waits s
      → Tracks waits' s
  Tracks-ext waits waits' s same t = record {
    indegrees = λ d. t.indegrees d ∙ ap pos (same d);
    ready = λ d n e h. sym (same d) ∙ t.ready d n e h;
  }

  -- A node is put in place of another that had started if it has, or that waits for nothing.
  pub put-Tracks :
      (waits : String → ℕ) (id : String) (n' : Work A) (s : Scheduler A)
      → (is_started n'.life ≡ true → waits id ≡ 0)
      → Tracks waits s
      → Tracks waits (set_node id n' s)
  unfolding set_node
  put-Tracks waits id n' s free t = record {
    indegrees = t.indegrees;
    ready = λ d n e h. go d n h (str_eq id d) refl (sym (lookup-put id d n' s.nodes) ∙ e);
  }
    where
      go :
          (d : String) (n : Work A)
          → is_started n.life ≡ true
          → (b : Bool) → str_eq id d ≡ b
          → (if b then some n' else lookup d s.nodes) ≡ some n
          → waits d ≡ 0
      go d n h true q e =
          subst (λ x. waits x ≡ 0) ((eq_iff id d).0 q)
            (free (subst (λ w. is_started w.life ≡ true) (sym (some-injective _ _ e)) h))
      go d n h false q e = t.ready d n e h

  pub push-Tracks :
      (waits : String → ℕ) (id : String) (s : Scheduler A)
      → waits id ≡ 0
      → Tracks waits s
      → Tracks waits (push id s)
  unfolding push push_at
  push-Tracks waits id s z t = elim (Option-cases (lookup id s.nodes)) [
    | inl e ↦ rw e t
    | inr (n, e) ↦ rw e (go n (is_waiting n.life))
  ]
    where
      go :
          (n : Work A) (b : Bool)
          → Tracks waits (
              if b
              then record (set_node id (record n { life = queued }) s) {
                ready = enqueue id s.ready;
              }
              else s)
      go n true =
          let t' = put-Tracks waits id (record n { life = queued }) s (λ h. z) t in
          record { indegrees = t'.indegrees; ready = t'.ready }
      go n false = t

  module _ (waits waits' : String → ℕ) (d : String) (s : Scheduler A)
      (less : (x : String) → waits x ≡ (if str_eq d x then 1 else 0) + waits' x)
      (t : Tracks waits s) where
    pub lowered_at_d : before (or_zero (lookup d s.indeg)) ≡ pos (waits' d)
    lowered_at_d =
        before-suc _ (waits' d) (t.indegrees d ∙ ap pos (ground (arith, less d, str_eq_self d)))

    lowered-Tracks :
        Tracks waits' (record s { indeg = put d (before (or_zero (lookup d s.indeg))) s.indeg })
    unfolding or_zero
    lowered-Tracks = record {
      indegrees = λ x. ap or_zero (lookup-put d x _ s.indeg) ∙ at x (str_eq d x) refl;
      ready = λ x n e h. ground (arith, less x, t.ready x n e h);
    }
      where
        at :
            (x : String) (b : Bool)
            → str_eq d x ≡ b
            → or_zero (if b then some (before (or_zero (lookup d s.indeg))) else lookup x s.indeg)
              ≡ pos (waits' x)
        at x true q = lowered_at_d ∙ ap (λ k. pos (waits' k)) ((eq_iff d x).0 q)
        at x false q = t.indegrees x ∙ ap pos (ground (arith, less x, q))

    if-Tracks :
        (b : Bool) (u v : Scheduler A)
        → (b ≡ true → Tracks waits' u)
        → Tracks waits' v
        → Tracks waits' (if b then u else v)
    if-Tracks true u v f g = f refl
    if-Tracks false u v f g = g

    -- One turn of the loop: the edge that was counted for `d` is there no more.
    pub lower_indeg-Tracks : Tracks waits' (lower_indeg d s)
    unfolding lower_indeg
    lower_indeg-Tracks =
        let z = before (or_zero (lookup d s.indeg)) in
        let lowered = record s { indeg = put d z s.indeg } in
        let b = test_life is_pending d s in
        if-Tracks (is_zero z && b) (push d lowered) lowered
          (λ h. push-Tracks waits' d lowered (zero_at z b (waits' d) lowered_at_d h) lowered-Tracks)
          lowered-Tracks

  -- The whole loop, over the edges that are counted apart.
  pub lower_all-Tracks :
      (waits : String → ℕ) (ds : List String) (s : Scheduler A)
      → Tracks (λ x. occurrences x ds + waits x) s
      → Tracks waits (lower_all ds s)
  unfolding lower_all occurrences
  lower_all-Tracks waits [] s t = record {
    indegrees = λ d. t.indegrees d ∙ ap pos (omega arith);
    ready = λ d n e h. omega (arith, t.ready d n e h);
  }
  lower_all-Tracks waits (d ∷ ds) s t =
      lower_all-Tracks waits ds (lower_indeg d s)
        (lower_indeg-Tracks _ (λ x. occurrences x ds + waits x) d s (λ x. omega arith) t)
