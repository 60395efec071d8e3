-- ===== src/Pipeline/Graph/Wiring.antt =====
-- pipeline/graph.go: the agreement of the successors, the pairs and the in-degrees, and one more
-- edge.
use faber.Common.{
  ℕ, suc, ◌+◌, ◌≤◌, ◌≡◌, refl, sym, ◌∙◌, ap, String, Bool, true, false, inl, inr, some, List, [],
  ◌∷◌, ◌++◌, if◌then◌else◌, str_eq, eq_iff, Table, lookup, delete, put, lookup-put, delete_absent,
  IsUnique, put-IsUnique, arith, Bool-cases,
}
use faber.Metering.Cost.{pos}
use faber.Failure.Skips.{contains}
use faber.Pipeline.Scheduler.{list_or_nil, or_zero}
use faber.Pipeline.Scheduler.Readiness.{occurrences}
use faber.Pipeline.Scheduler.Readiness.Unmet.{unmet}
use faber.Pipeline.Graph.{Graph, new_graph, next, edge}

-- No successor is listed twice, and the in-degrees count the successor entries.
pub record IsWired (g : Graph) : Type 0 where
  pub unique : IsUnique g.succ
  pub indegrees : (d : String) → or_zero (lookup d g.indeg) ≡ pos (unmet [] g.succ d)
  pub paired :
      (p d : String)
      → contains (list_or_nil (lookup p g.pair)) d ≡ contains (list_or_nil (lookup p g.succ)) d
  pub once : (p d : String) → occurrences d (list_or_nil (lookup p g.succ)) ≤ 1

unmet-delete :
    (p : String) (succ : Table (List String)) (d : String)
    → IsUnique succ
    → unmet [] succ d ≡ occurrences d (list_or_nil (lookup p succ)) + unmet [] (delete p succ) d
unfolding unmet lookup delete list_or_nil occurrences contains
unmet-delete p [] d u = refl
unmet-delete p ((q, ds) ∷ succ) d u =
    ground (arith, eq_iff q p, delete_absent p succ, unmet-delete p succ d u.1)

occurrences-snoc :
    (d x : String) (xs : List String)
    → occurrences d (xs ++ x ∷ []) ≡ occurrences d xs + (if str_eq x d then 1 else 0)
unfolding occurrences
occurrences-snoc d x [] = omega arith
occurrences-snoc d x (y ∷ ys) = omega (arith, occurrences-snoc d x ys)

contains-snoc : (d x : String) (xs : List String) → contains (xs ++ x ∷ []) d ≡ contains (x ∷ xs) d
unfolding contains
contains-snoc d x [] = refl
contains-snoc d x (y ∷ ys) = ground (arith, contains-snoc d x ys)

absent-occurrences : (d : String) (xs : List String) → contains xs d ≡ false → occurrences d xs ≡ 0
unfolding contains occurrences
absent-occurrences d [] h = refl
absent-occurrences d (x ∷ xs) h = ground (arith, absent-occurrences d xs)

pub new_graph-IsWired : IsWired new_graph
unfolding new_graph unmet lookup list_or_nil occurrences or_zero contains
new_graph-IsWired = record {
  unique = tt;
  indegrees = λ d. refl;
  paired = λ p d. refl;
  once = λ p d. omega arith;
}

pub list-put :
    (k p : String) (v : List String) (m : Table (List String))
    → list_or_nil (lookup p (put k v m)) ≡ (if str_eq k p then v else list_or_nil (lookup p m))
unfolding list_or_nil
list-put k p v m = ap list_or_nil (lookup-put k p v m) ∙ go (str_eq k p)
  where
    go :
        (b : Bool)
        → list_or_nil (if b then some v else lookup p m)
          ≡ (if b then v else list_or_nil (lookup p m))
    go true = refl
    go false = refl

next_pos : (n : ℕ) → next (pos n) ≡ pos (suc n)
unfolding next
next_pos n = refl

-- One more edge, that is not there yet.
module _ (from to : String) (g : Graph) (w : IsWired g)
    (fresh : contains (list_or_nil (lookup from g.pair)) to ≡ false) where
  abbrev told : List String
  told = list_or_nil (lookup from g.succ)

  counts_more :
      (d : String)
      → unmet [] (put from (told ++ to ∷ []) g.succ) d
        ≡ (if str_eq to d then 1 else 0) + unmet [] g.succ d
  unfolding put unmet contains
  counts_more d = omega (arith, unmet-delete from g.succ d w.unique, occurrences-snoc d to told)

  raised :
      (d : String)
      → or_zero (lookup d (put to (next (or_zero (lookup to g.indeg))) g.indeg))
        ≡ pos (unmet [] (put from (told ++ to ∷ []) g.succ) d)
  unfolding or_zero
  raised d = ap or_zero (lookup-put to d _ g.indeg) ∙ at (str_eq to d) refl
    where
      at :
          (b : Bool)
          → str_eq to d ≡ b
          → or_zero (if b then some (next (or_zero (lookup to g.indeg))) else lookup d g.indeg)
            ≡ pos (unmet [] (put from (told ++ to ∷ []) g.succ) d)
      at true q =
          ap next (w.indegrees to)
          ∙ (next_pos (unmet [] g.succ to)
              ∙ (ap (λ k. pos (suc (unmet [] g.succ k))) ((eq_iff to d).0 q)
                  ∙ ap pos (ground (arith, counts_more d, q))))
      at false q = w.indegrees d ∙ ap pos (ground (arith, counts_more d, q))

  pairs_more :
      (p d : String)
      → contains
          (list_or_nil (lookup p (put from (to ∷ list_or_nil (lookup from g.pair)) g.pair)))
          d
        ≡ contains (list_or_nil (lookup p (put from (told ++ to ∷ []) g.succ))) d
  unfolding contains
  pairs_more p d =
      rw
        (
          list-put from p (to ∷ list_or_nil (lookup from g.pair)) g.pair,
          list-put from p (told ++ to ∷ []) g.succ,
        )
        (at (str_eq from p))
    where
      at :
          (b : Bool)
          → contains
              (if b then to ∷ list_or_nil (lookup from g.pair) else list_or_nil (lookup p g.pair))
              d
            ≡ contains (if b then told ++ to ∷ [] else list_or_nil (lookup p g.succ)) d
      at true = ground (arith, w.paired from d, contains-snoc d to told)
      at false = w.paired p d

  still_once :
      (p d : String)
      → occurrences d (list_or_nil (lookup p (put from (told ++ to ∷ []) g.succ))) ≤ 1
  still_once p d = rw (list-put from p (told ++ to ∷ []) g.succ) (at (str_eq from p))
    where
      at :
          (b : Bool)
          → occurrences d (if b then told ++ to ∷ [] else list_or_nil (lookup p g.succ)) ≤ 1
      at true = ground (
        arith,
        occurrences-snoc d to told,
        w.once from d,
        eq_iff to d,
        absent-occurrences to told (sym (w.paired from to) ∙ fresh),
      )
      at false = w.once p d

  fresh-IsWired : IsWired (edge from to g)
  unfolding edge
  fresh-IsWired = rw fresh (record {
    unique = put-IsUnique from _ g.succ w.unique;
    indegrees = raised;
    paired = pairs_more;
    once = still_once;
  })

pub edge-IsWired : (from to : String) (g : Graph) → IsWired g → IsWired (edge from to g)
unfolding edge
edge-IsWired from to g w = elim (Bool-cases (contains (list_or_nil (lookup from g.pair)) to)) [
  | inl old ↦ rw old w
  | inr fresh ↦ fresh-IsWired from to g w fresh
]
