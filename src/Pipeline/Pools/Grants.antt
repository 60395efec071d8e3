-- ===== src/Pipeline/Pools/Grants.antt =====
-- pipeline/scheduler.go: the boxes that run at once, over any launches and settlements of drain and
-- of the workers' events.
use faber.Common.{
  ℕ, ◌≤◌, ◌<◌, String, ◌≡◌, refl, sym, ap, subst, ◌≢◌, Bool, true, false, not, Option, none, some,
  List, [], ◌∷◌, ◌++◌, map, arith, if◌then◌else◌, length, length-append,
}
use faber.Pipeline.Pools.{
  held_by, Pool, ExecNode, Slots, Hold, by_slot, by_generate, by_lane, is_free, is_slot_free,
  pool_of, lane_of, gen_pool, lane_pool, hold_reason, lower, take_slot, release_slot, take_pools,
  release_pools,
}
use faber.Pipeline.Pools.Tallies.{count, AreTallied, raise-AreTallied, lower-AreTallied}

abbrev pub generates : List ExecNode → List String
generates ns = map (λ n. n.gen) ns

abbrev pub lanes_of : List ExecNode → List String
lanes_of ns = map (λ n. lane_of n.template) ns

-- No box runs.
pub record IsIdle (s : Slots) : Type 0 where
  pub slots : s.slots_used ≡ 0
  pub gens : (g : String) (p : Pool) → pool_of g s.gen_pools ≡ some p → p.used ≡ 0
  pub lanes : (g : String) (p : Pool) → pool_of g s.lanes ≡ some p → p.used ≡ 0

-- The launches of drain and the settlements of running boxes, in any order.
pub data Reach : Slots → List ExecNode → Type 0 where
  idle : (s : Slots) → IsIdle s → Reach s []
  launching :
      (s : Slots) (n : ExecNode) (running : List ExecNode)
      → Reach s running
      → hold_reason s n ≡ none
      → Reach (take_pools s n) (n ∷ running)
  settling :
      (s : Slots) (n : ExecNode) (xs ys : List ExecNode)
      → Reach s (xs ++ n ∷ ys)
      → Reach (release_pools s (some n)) (xs ++ ys)

-- The bounds count the running boxes, and no bound is passed.
pub record IsCounted (s : Slots) (running : List ExecNode) : Type 0 where
  pub slots : 0 < s.max_par → s.slots_used ≡ length running
  pub within : 0 < s.max_par → s.slots_used ≤ s.max_par
  pub gens : AreTallied s.gen_pools (generates running)
  pub lanes : AreTallied s.lanes (lanes_of running)

map-append {ℓ κ} :
    {A : Type ℓ} {B : Type κ} (f : A → B) (xs ys : List A) → map f (xs ++ ys) ≡ map f xs ++ map f ys
map-append f [] ys = refl
map-append f (x ∷ xs) ys = ap (◌∷◌ (f x)) (map-append f xs ys)

unless_none :
    (b : Bool) (o rest : Option Hold)
    → (b ≡ false → o ≢ none)
    → (if not b then o else rest) ≡ none
    → (b ≡ true) × (rest ≡ none)
unless_none true o rest h e = (refl, e)
unless_none false o rest h e = elim (h refl e) [ ]

held_by-some :
    (hold : String → ℕ → ℕ → Hold) (name : String) (o : Option Pool)
    → is_free o ≡ false
    → held_by hold name o ≢ none
unfolding is_free held_by
held_by-some hold name none h = λ e. ground arith
held_by-some hold name (some p) h = λ e. ground arith

-- What keeps a node from launching, as three tests.
pub hold_reason-none :
    (s : Slots) (n : ExecNode)
    → hold_reason s n ≡ none
    → (is_slot_free s ≡ true) × (is_free (gen_pool s n) ≡ true) × (is_free (lane_pool s n) ≡ true)
unfolding hold_reason
hold_reason-none s n h =
    let (a, i) =
      unless_none (is_slot_free s) (some (by_slot s.slots_used s.max_par)) _ (λ _ e. ground arith)
        h in
    let (b, j) =
      unless_none (is_free (gen_pool s n)) (held_by by_generate n.gen (gen_pool s n)) _
        (held_by-some by_generate n.gen (gen_pool s n)) i in
    let (c, k) =
      unless_none (is_free (lane_pool s n)) (held_by by_lane (lane_of n.template) (lane_pool s n))
        none (held_by-some by_lane (lane_of n.template) (lane_pool s n)) j in
    (a, b, c)

idle-IsCounted : (s : Slots) → IsIdle s → IsCounted s []
unfolding count
idle-IsCounted s h = record {
  slots = λ b. h.slots;
  within = λ b. omega (arith, h.slots);
  gens = λ g p e. record { tallied = h.gens g p e; bounded = λ b. omega (arith, h.gens g p e) };
  lanes = λ g p e. record { tallied = h.lanes g p e; bounded = λ b. omega (arith, h.lanes g p e) };
}

launch-IsCounted :
    (s : Slots) (n : ExecNode) (running : List ExecNode)
    → hold_reason s n ≡ none
    → IsCounted s running
    → IsCounted (take_pools s n) (n ∷ running)
unfolding take_pools take_slot is_slot_free gen_pool lane_pool
launch-IsCounted s n running h c =
    let free = hold_reason-none s n h in
    record {
      slots = λ b. ground (arith, c.slots, free.0);
      within = λ b. ground (arith, c.within, free.0);
      gens = raise-AreTallied n.gen s.gen_pools (generates running) free.1 c.gens;
      lanes = raise-AreTallied (lane_of n.template) s.lanes (lanes_of running) free.2 c.lanes;
    }

settle-IsCounted :
    (s : Slots) (n : ExecNode) (xs ys : List ExecNode)
    → IsCounted s (xs ++ n ∷ ys)
    → IsCounted (release_pools s (some n)) (xs ++ ys)
unfolding release_pools release_slot
settle-IsCounted s n xs ys c =
    let long = length-append xs (n ∷ ys) in
    let short = length-append xs ys in
    record {
      slots = λ b. ground (arith, c.slots, long, short);
      within = λ b. ground (arith, c.within, c.slots, long);
      gens = subst (AreTallied (lower n.gen s.gen_pools)) (sym (map-append (λ m. m.gen) xs ys)) (
          lower-AreTallied n.gen s.gen_pools (generates xs) (generates ys)
            (subst (AreTallied s.gen_pools) (map-append (λ m. m.gen) xs (n ∷ ys)) c.gens));
      lanes =
          subst (AreTallied (lower (lane_of n.template) s.lanes))
            (sym (map-append (λ m. lane_of m.template) xs ys))
            (lower-AreTallied (lane_of n.template) s.lanes (lanes_of xs) (lanes_of ys) (
              subst (AreTallied s.lanes) (map-append (λ m. lane_of m.template) xs (n ∷ ys))
                c.lanes));
    }

-- Over any launches and settlements from an idle scheduler, the slot and each pool count exactly
-- the running boxes that use them, and none of these counts is over its bound.
pub concurrency_bounded :
    (s : Slots) (running : List ExecNode) → Reach s running → IsCounted s running
concurrency_bounded _ _ (idle s h) = idle-IsCounted s h
concurrency_bounded _ _ (launching s n running r h) =
    launch-IsCounted s n running h (concurrency_bounded s running r)
concurrency_bounded _ _ (settling s n xs ys r) =
    settle-IsCounted s n xs ys (concurrency_bounded s (xs ++ n ∷ ys) r)
