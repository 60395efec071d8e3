-- ===== src/Pipeline/Scheduler/Progress.antt =====
-- pipeline/scheduler.go: what an open node waits for, down to a node that has started. That a
-- graph has no cycle is a rank of the ids.
use faber.Common.{
  ℕ, zero, suc, ◌+◌, ◌≤◌, ◌<◌, ◌≡◌, refl, sym, ◌∙◌, subst, String, Bool, true, false, inl, inr, ◌⊎◌,
  none, some, List, [], ◌∷◌, if◌then◌else◌, str_eq, str_eq_self, eq_iff, Table, lookup, IsUnique,
  In, arith, Bool-cases,
}
use mathlib.Core.Bool.{false≢true}
use faber.Failure.Skips.{contains}
use faber.Pipeline.Scheduler.{
  Life, pending, queued, slot_wait, running, deferred, done, Work, Scheduler, Host, is_done,
  is_pending, list_or_nil, succ_of,
}
use faber.Pipeline.Scheduler.Runs.{is_started}
use faber.Pipeline.Scheduler.Readiness.{occurrences}
use faber.Pipeline.Scheduler.Readiness.Unmet.{unmet}
use faber.Pipeline.Scheduler.Readiness.Edges.{IsSettled, IsOrdered}
use faber.Pipeline.Scheduler.Presence.{Has, Run-Has, seed_from-Has}
use faber.Pipeline.Scheduler.Events.{sorted_ids, seed}
use faber.Pipeline.Scheduler.Reached.{IsFresh, Turn-Run, Reached, seeded, turn, Reached-Between}

one_le_zero : 1 ≤ 0 → ⊥
one_le_zero h = omega arith

none_below : (a : ℕ) → a < 0 → ⊥
none_below a h = omega arith

below : (a b k : ℕ) → a < b → b < suc k → a < k
below a b k h l = omega arith

occurrences-In : (d : String) (ds : List String) → 1 ≤ occurrences d ds → In d ds
unfolding occurrences
occurrences-In d [] h = elim (one_le_zero h) [ ]
occurrences-In d (x ∷ xs) h = elim (Bool-cases (str_eq x d)) [
  | inl q ↦ inl ((eq_iff x d).0 q)
  | inr q ↦ inr (occurrences-In d xs (ground (arith, q)))
]

positive_sum : (a b : ℕ) → 1 ≤ a + b → (1 ≤ a) ⊎ (1 ≤ b)
positive_sum zero b h = inr (omega arith)
positive_sum (suc a) b h = inl (omega arith)

-- An edge of the rest of the table.
later_edge :
    (q p d : String) (ds : List String) (succ : Table (List String))
    → lookup q succ ≡ none
    → In d (list_or_nil (lookup p succ))
    → In d (list_or_nil (lookup p ((q, ds) ∷ succ)))
unfolding lookup list_or_nil
later_edge q p d ds succ u i = go (str_eq q p) refl
  where
    go : (b : Bool) → str_eq q p ≡ b → In d (list_or_nil (if b then some ds else lookup p succ))
    go true e =
        elim (subst (λ o. In d (list_or_nil o))
          (subst (λ k. lookup k succ ≡ none) ((eq_iff q p).0 e) u) i) [ ]
    go false e = i

first_edge :
    (q d : String) (ds : List String) (succ : Table (List String))
    → In d ds
    → In d (list_or_nil (lookup q ((q, ds) ∷ succ)))
unfolding lookup list_or_nil
first_edge q d ds succ i = rw (str_eq_self q) i

-- An edge that is not met comes from an id that is not released.
unmet-source :
    (released : List String) (succ : Table (List String)) (d : String)
    → IsUnique succ
    → 1 ≤ unmet released succ d
    → (p : String) × (contains released p ≡ false) × In d (list_or_nil (lookup p succ))
unfolding unmet
unmet-source released [] d u h = elim (one_le_zero h) [ ]
unmet-source released ((q, ds) ∷ succ) d u h = elim (Bool-cases (contains released q)) [
  | inl c ↦
      let (p, f, i) = unmet-source released succ d u.1 (ground (arith, c)) in
      (p, f, later_edge q p d ds succ u.0 i)
  | inr c ↦ elim (positive_sum (occurrences d ds) (unmet released succ d) (ground (arith, c))) [
    | inl k ↦ (q, c, first_edge q d ds succ (occurrences-In d ds k))
    | inr k ↦
        let (p, f, i) = unmet-source released succ d u.1 k in (p, f, later_edge q p d ds succ u.0 i)
  ]
]

open_life : (l : Life) → is_done l ≡ false → (is_started l ≡ true) ⊎ (is_pending l ≡ true)
open_life pending h = inr refl
open_life queued h = inl refl
open_life slot_wait h = inl refl
open_life running h = inl refl
open_life deferred h = inl refl
open_life done h = elim (false≢true (sym h)) [ ]

module _ {A : Type 0} where
  Reached-Has :
      {host : Host A} {s0 s : Scheduler A} (p : String) → Reached host s0 s → Has p s0 → Has p s
  unfolding seed
  Reached-Has {s0 = s0} p seeded h = seed_from-Has p (sorted_ids s0.nodes) s0 h
  Reached-Has p (turn r t) h = Run-Has p (Turn-Run t) (Reached-Has p r h)

  -- A node that has started.
  abbrev pub IsStarted : String → Scheduler A → Type 0
  IsStarted e s = (w : Work A) × (lookup e s.nodes ≡ some w) × (is_started w.life ≡ true)

  module _ (s : Scheduler A) (released : List String) (ordered : IsOrdered released s)
      (complete : (p : String) → IsSettled p s → contains released p ≡ true) (rank : String → ℕ)
      (up : (p d : String) → In d (succ_of p s) → rank p < rank d)
      (known : (p d : String) → In d (succ_of p s) → Has p s) where
    -- From a node that is open, down the edges that are not met.
    climb :
        (k : ℕ) (d : String) (n : Work A)
        → rank d < k
        → lookup d s.nodes ≡ some n
        → is_done n.life ≡ false
        → (e : String) × IsStarted e s
    unfolding succ_of
    climb zero d n l e h = elim (none_below (rank d) l) [ ]
    climb (suc k) d n l e h = elim (open_life n.life h) [
      | inl st ↦ (d, (n, e, st))
      | inr p ↦
          let (q, f, i) = unmet-source released s.succ d ordered.unique (ordered.blocked d n e p) in
          let (m, g) = known q d i in
          climb k q m (below (rank q) (rank d) k (up q d i) l) g (unsettled q m f g)
    ]
      where
        unsettled :
            (q : String) (m : Work A)
            → contains released q ≡ false
            → lookup q s.nodes ≡ some m
            → is_done m.life ≡ false
        unsettled q m f g = elim (Bool-cases (is_done m.life)) [
          | inl c ↦ elim (false≢true (sym f ∙ complete q (m, g, c))) [ ]
          | inr c ↦ c
        ]

  -- From a fresh graph without a cycle, whose edges come from its nodes: as long as some node is not
  -- terminal, some node is queued, waits for a slot, runs or is deferred.
  pub Reached-progress :
      {host : Host A} {s0 s : Scheduler A}
      → IsFresh s0
      → Reached host s0 s
      → (rank : String → ℕ) → ((p d : String) → In d (succ_of p s0) → rank p < rank d)
      → ((p d : String) → In d (succ_of p s0) → Has p s0)
      → (d : String) (n : Work A) → lookup d s.nodes ≡ some n
      → is_done n.life ≡ false
      → (e : String) × IsStarted e s
  unfolding succ_of
  Reached-progress {s = s} f r rank up known d n e h =
      let b = Reached-Between f r in
      climb s b.released b.ordered b.complete rank
        (λ p d i. up p d (subst (λ g. In d (list_or_nil (lookup p g))) b.edges i))
        (λ p d i.
          Reached-Has p r (known p d (subst (λ g. In d (list_or_nil (lookup p g))) b.edges i)))
        (suc (rank d)) d n (omega arith) e h
