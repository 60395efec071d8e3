-- ===== src/Pipeline/Scheduler/Walks.antt =====
-- pipeline/scheduler.go: the loop of propagate without fuel, as a relation of its rounds.
use faber.Common.{
  ℕ, zero, suc, ◌+◌, ◌<◌, ◌≡◌, refl, sym, ◌∙◌, subst, String, Bool, true, false, not, none, List,
  [], ◌∷◌, ◌++◌, if◌then◌else◌, length, length-append, str_eq_self, eq_iff, Table, lookup, IsUnique,
  arith,
}
use faber.Failure.Skips.{contains}
use faber.Pipeline.Values.{State}
use faber.Pipeline.Scheduler.{
  Scheduler, Host, set_node, is_done, is_passive, list_or_nil, succ_of, test_life, release,
}
use faber.Pipeline.Scheduler.Settle.{is_open, total_succ, walk, propagate, skipping}
use faber.Pipeline.Scheduler.Runs.{
  Moves, waken, quiet, chain, revise, settle, Nests, test_life-some, passive_is_open,
}
use faber.Pipeline.Scheduler.Runs.Settled.{skipping-Nests}
use faber.Pipeline.Scheduler.Readiness.Edges.{lower_all-succ}
use faber.Pipeline.Scheduler.Readiness.Runs.{mark-succ}

none_below : (a : ℕ) → a < 0 → ⊥
none_below a h = omega arith

-- The successors that a walk may still queue.
unvisited : List String → Table (List String) → ℕ
unfolding contains
unvisited visited [] = 0
unvisited visited ((p, ds) ∷ succ) =
    (if contains visited p then 0 else length ds) + unvisited visited succ

unvisited_total : (succ : Table (List String)) → unvisited [] succ ≡ total_succ succ
unfolding unvisited total_succ contains
unvisited_total [] = refl
unvisited_total ((p, ds) ∷ succ) = omega (arith, unvisited_total succ)

unvisited_absent :
    (id : String) (visited : List String) (succ : Table (List String))
    → lookup id succ ≡ none
    → unvisited (id ∷ visited) succ ≡ unvisited visited succ
unfolding unvisited lookup contains
unvisited_absent id visited [] h = refl
unvisited_absent id visited ((p, ds) ∷ succ) h =
    ground (arith, eq_iff p id, eq_iff id p, unvisited_absent id visited succ)

unvisited-visit :
    (id : String) (visited : List String) (succ : Table (List String))
    → IsUnique succ
    → contains visited id ≡ false
    → unvisited visited succ ≡ length (list_or_nil (lookup id succ)) + unvisited (id ∷ visited) succ
unfolding unvisited lookup contains list_or_nil
unvisited-visit id visited [] u h = refl
unvisited-visit id visited ((p, ds) ∷ succ) u h = ground (
  arith,
  eq_iff p id,
  eq_iff id p,
  str_eq_self id,
  unvisited_absent id visited succ,
  unvisited-visit id visited succ u.1,
)

module _ {A : Type 0} where
  pub Run-succ : {b : Bool} {s t : Scheduler A} → Moves b s t → t.succ ≡ s.succ
  unfolding release set_node is_open
  Run-succ (quiet q) = q.same_succ
  Run-succ (chain r r') = Run-succ r' ∙ Run-succ r
  Run-succ (revise id n n' e r) = refl
  Run-succ (settle {s = s} {t = t} id status o r) =
      let (n, e, k) = test_life-some (λ l. not (is_done l)) id s o in
      lower_all-succ (succ_of id t) t ∙ (Run-succ r ∙ mark-succ id status n s e)
  Run-succ (waken m) = Run-succ m

  module _ (skip : String → State → String → Scheduler A → Scheduler A) (root : String)
      (state : State) where
    -- The rounds of the loop: the ids visited, the queue, and the states before and after.
    pub data Walked : List String → List String → Scheduler A → Scheduler A → Type 0 where
      over : (visited : List String) (s : Scheduler A) → Walked visited [] s s
      again :
          {visited queue : List String} {s t : Scheduler A} (id : String)
          → contains visited id ≡ true
          → Walked visited queue s t
          → Walked visited (id ∷ queue) s t
      beyond :
          {visited queue : List String} {s t : Scheduler A} (id : String)
          → contains visited id ≡ false
          → test_life is_passive id s ≡ false
          → Walked (id ∷ visited) queue s t
          → Walked visited (id ∷ queue) s t
      taken :
          {visited queue : List String} {s t : Scheduler A} (id : String)
          → contains visited id ≡ false
          → test_life is_passive id s ≡ true
          → Walked
              (id ∷ visited)
              (queue ++ succ_of id (skip id state root s))
              (skip id state root s)
              t
          → Walked visited (id ∷ queue) s t

    if-Walked :
        {visited queue : List String} {s : Scheduler A} (b : Bool) (t u : Scheduler A)
        → (b ≡ true → Walked visited queue s t)
        → (b ≡ false → Walked visited queue s u)
        → Walked visited queue s (if b then t else u)
    if-Walked true t u f g = f refl
    if-Walked false t u f g = g refl

    walk-Walked :
        Nests skip
        → (fuel : ℕ) (visited queue : List String) (s : Scheduler A) → IsUnique s.succ
        → length queue + unvisited visited s.succ < fuel
        → Walked visited queue s (walk skip root state fuel visited queue s)
    unfolding walk succ_of
    walk-Walked nests zero visited queue s u h =
        elim (none_below (length queue + unvisited visited s.succ) h) [ ]
    walk-Walked nests (suc fuel) visited [] s u h = over visited s
    walk-Walked nests (suc fuel) visited (id ∷ queue) s u h =
        if-Walked (contains visited id) _ _
          (λ c. again id c (walk-Walked nests fuel visited queue s u (omega (arith, h))))
          (λ c.
            let v = unvisited-visit id visited s.succ u c in
            if-Walked (test_life is_passive id s) _ _
              (λ p.
                let s' = skip id state root s in
                let same = Run-succ (nests id state root s (passive_is_open id s p)) in
                taken id c p (
                  walk-Walked nests fuel (id ∷ visited) (queue ++ succ_of id s') s'
                    (subst IsUnique (sym same) u)
                    (subst
                      (λ g.
                        length (queue ++ list_or_nil (lookup id g)) + unvisited (id ∷ visited) g
                        < fuel)
                      (sym same)
                      (omega (arith, length-append queue (list_or_nil (lookup id s.succ)), v, h)))))
              (λ p.
                beyond id c p
                  (walk-Walked nests fuel (id ∷ visited) queue s u (omega (arith, v, h)))))

  -- The loop of propagate ends before its fuel does: what propagate returns is what the rounds of
  -- the loop, which have no fuel, lead to from the root's successors. The keys of the successor
  -- table are taken to be different.
  pub propagate-Walked :
      (host : Host A) (root : String) (state : State) (s0 s : Scheduler A)
      → IsUnique s.succ
      → Walked
          (skipping host s0)
          root
          state
          []
          (succ_of root s)
          s
          (propagate (skipping host s0) root state s)
  unfolding propagate
  propagate-Walked host root state s0 s u =
      walk-Walked (skipping host s0) root state (skipping-Nests host s0)
        (suc (length (succ_of root s) + total_succ s.succ)) [] (succ_of root s) s u
        (omega (arith, unvisited_total s.succ))
