-- ===== src/Pipeline/Scheduler/Readiness/Unmet.antt =====
-- pipeline/graph.go: the edges that a run has not met. `released` lists the ids whose successors were
-- told; an edge from any other id is waited for.
use faber.Common.{
  ℕ, ◌+◌, ◌≤◌, ◌≡◌, refl, String, Bool, true, false, inl, inr, none, some, List, [], ◌∷◌,
  if◌then◌else◌, str_eq, str_eq_self, eq_iff, Table, lookup, IsUnique, In, arith,
}
use faber.Failure.Skips.{contains}
use faber.Pipeline.Scheduler.{list_or_nil}
use faber.Pipeline.Scheduler.Readiness.{occurrences}

-- How many edges into `d` come from an id that is not released.
unfoldable pub unmet : List String → Table (List String) → String → ℕ
unfolding contains occurrences
unmet released [] d = 0
unmet released ((p, ds) ∷ succ) d =
    (if contains released p then 0 else occurrences d ds) + unmet released succ d

-- Release leaves the edges of other ids.
unmet_absent :
    (id : String) (released : List String) (succ : Table (List String)) (d : String)
    → lookup id succ ≡ none
    → unmet (id ∷ released) succ d ≡ unmet released succ d
unfolding unmet lookup contains
unmet_absent id released [] d h = refl
unmet_absent id released ((p, ds) ∷ succ) d h =
    ground (arith, eq_iff p id, eq_iff id p, unmet_absent id released succ d)

-- The edges of an id that is released now are met.
pub unmet-release :
    (id : String) (released : List String) (succ : Table (List String)) (d : String)
    → IsUnique succ
    → contains released id ≡ false
    → unmet released succ d
      ≡ occurrences d (list_or_nil (lookup id succ)) + unmet (id ∷ released) succ d
unfolding unmet lookup contains list_or_nil occurrences
unmet-release id released [] d u h = refl
unmet-release id released ((p, ds) ∷ succ) d u h = ground (
  arith,
  eq_iff p id,
  eq_iff id p,
  str_eq_self id,
  unmet_absent id released succ d,
  unmet-release id released succ d u.1,
)

In-occurrences : (d : String) (ds : List String) → In d ds → 1 ≤ occurrences d ds
unfolding occurrences
In-occurrences d [] i = elim i [ ]
In-occurrences d (x ∷ xs) (inl e) = ground (arith, eq_iff x d)
In-occurrences d (x ∷ xs) (inr i) = ground (arith, In-occurrences d xs i)

pub occurs-unmet :
    (released : List String) (succ : Table (List String)) (p d : String)
    → IsUnique succ
    → In d (list_or_nil (lookup p succ))
    → unmet released succ d ≡ 0
    → contains released p ≡ true
unfolding unmet lookup list_or_nil occurrences
occurs-unmet released [] p d u i h = elim i [ ]
occurs-unmet released ((q, ds) ∷ succ) p d u i h =
    go (str_eq q p) refl i (λ j. occurs-unmet released succ p d u.1 j (ground arith))
  where
    go :
        (b : Bool)
        → str_eq q p ≡ b
        → In d (list_or_nil (if b then some ds else lookup p succ))
        → (In d (list_or_nil (lookup p succ)) → contains released p ≡ true)
        → contains released p ≡ true
    go true e j later = ground (arith, In-occurrences d ds j, eq_iff q p)
    go false e j later = later j

pub contains-other :
    (id p : String) (xs : List String) → str_eq id p ≡ false → contains (id ∷ xs) p ≡ contains xs p
unfolding contains
contains-other id p xs h = rw h refl
