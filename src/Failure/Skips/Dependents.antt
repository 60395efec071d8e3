-- ===== src/Failure/Skips/Dependents.antt =====
-- failure/policy.go: SkipSet against the transitive dependents.
use faber.Common.{
  ℕ, zero, suc, ◌+◌, ◌≤◌, ◌<◌, String, ◌≡◌, refl, sym, ◌↔◌, ◌⊎◌, inl, inr, Bool, true, false, List,
  [], ◌∷◌, if◌then◌else◌, length, In, arith, Bool-cases, subst,
}
use faber.Failure.Skips.{
  Edge, Ir, dependencies, successors, contains, mark, walk, without, enough_fuel, skip_set,
}
use faber.Failure.Skips.Marks.{
  contains-In, In-contains, mark-IsMarked, successors-targets, fresh, mark-fresh,
}

-- A dependent of one of the roots, over any number of edges and reads.
pub data Dependent (deps : List Edge) (roots : List String) : String → Type 0 where
  direct :
      {x : String} (r : String) → In r roots → In x (successors deps r) → Dependent deps roots x
  through :
      {x : String} (y : String)
      → Dependent deps roots y
      → In x (successors deps y)
      → Dependent deps roots x

module _ (deps : List Edge) (roots : List String) where
  record Inv (skip queue : List String) : Type 0 where
    sound : (x : String) → In x skip → Dependent deps roots x
    waiting : (x : String) → In x queue → In x roots ⊎ Dependent deps roots x
    closed :
        (x : String)
        → In x roots ⊎ In x skip
        → In x queue ⊎ ((y : String) → In y (successors deps x) → In y skip)

  mark-Inv :
      (id : String) (skip queue : List String)
      → Inv skip (id ∷ queue)
      → let (skip', queue') = mark (successors deps id) skip queue in Inv skip' queue'
  mark-Inv id skip queue v =
      let m = mark-IsMarked (successors deps id) skip queue in
      let from_id : (x : String) → In x (successors deps id) → Dependent deps roots x = (λ x h.
        elim (v.waiting id (inl refl)) [ inl r ↦ direct id r h | inr d ↦ through id d h ]) in
      record {
        sound = λ x h. elim (m.origin x h) [ inl a ↦ v.sound x a | inr b ↦ from_id x b ];
        waiting = λ x h. elim (m.queue_origin x h) [
          | inl q ↦ v.waiting x (inr q)
          | inr b ↦ inr (from_id x b)
        ];
        closed = λ x h.
            let before : In x (mark (successors deps id) skip queue).1 ⊎ (In x roots ⊎ In x skip) =
              elim h [
                | inl r ↦ inr (inl r)
                | inr s ↦ elim (m.queued x s) [ inl old ↦ inr (inr old) | inr q ↦ inl q ]
              ] in
            elim before [
              | inl q ↦ inl q
              | inr known ↦ elim (v.closed x known) [
                | inl (inl e) ↦
                    inr (λ y s. m.marked y (subst (λ k. In y (successors deps k)) (sym e) s))
                | inl (inr q) ↦ inl (m.stays x q)
                | inr done ↦ inr (λ y s. m.kept y (done y s))
              ]
            ];
      }

  walk-Inv :
      (fuel : ℕ) (skip queue : List String)
      → length queue + fresh deps skip < fuel
      → Inv skip queue
      → Inv (walk fuel deps skip queue) []
  unfolding walk
  walk-Inv zero skip queue f v = elim f [ ]
  walk-Inv (suc fuel) skip [] f v = v
  walk-Inv (suc fuel) skip (id ∷ queue) f v =
      let (skip', queue') = mark (successors deps id) skip queue in
      walk-Inv fuel skip' queue'
        (omega (
          arith,
          mark-fresh deps (successors deps id) skip queue (λ x h. successors-targets deps id x h),
        ))
        (mark-Inv id skip queue v)

  walk_complete :
      (final : List String) → Inv final [] → {x : String} → Dependent deps roots x → In x final
  walk_complete final v {x} (direct r m h) = elim (v.closed r (inl m)) [
    | inl q ↦ elim q [ ]
    | inr all ↦ all x h
  ]
  walk_complete final v {x} (through y d h) = elim (v.closed y (inr (walk_complete final v d))) [
    | inl q ↦ elim q [ ]
    | inr all ↦ all x h
  ]

  start-Inv : Inv [] roots
  start-Inv = record {
    sound = λ x h. elim h [ ];
    waiting = λ x h. inl h;
    closed = λ x h. elim h [ inl r ↦ inl r | inr n ↦ elim n [ ] ];
  }

fresh-le-length : (deps : List Edge) (skip : List String) → fresh deps skip ≤ length deps
unfolding fresh
fresh-le-length [] skip = omega arith
fresh-le-length (e ∷ es) skip = ground (arith, fresh-le-length es skip)

without-In :
    (failed xs : List String) (x : String) → In x (without failed xs) → In x xs × (¬ In x failed)
unfolding without
without-In failed [] x h = elim h [ ]
without-In failed (y ∷ ys) x h = elim (Bool-cases (contains failed y)) [
  | inl out ↦ let (a, b) = without-In failed ys x (rw out at h) in (inr a, b)
  | inr stay ↦ elim (keep stay h) [
    | inl e ↦ (
      inl e,
      λ f. false_true (subst (λ k. contains failed k ≡ true) (sym e) (In-contains failed x f)) stay,
    )
    | inr t ↦ let (a, b) = without-In failed ys x t in (inr a, b)
  ]
]
  where
    keep :
        contains failed y ≡ false
        → In x (if contains failed y then without failed ys else y ∷ without failed ys)
        → (y ≡ x) ⊎ In x (without failed ys)
    keep stay k = rw stay at k

    false_true : {b : Bool} → b ≡ true → b ≡ false → ⊥
    false_true p q = cc

In-without :
    (failed xs : List String) (x : String) → In x xs → ¬ In x failed → In x (without failed xs)
unfolding without
In-without failed [] x h n = h
In-without failed (y ∷ ys) x (inl e) n = elim (Bool-cases (contains failed y)) [
  | inl out ↦ absurd (n (subst (λ k. In k failed) e (contains-In failed y out)))
  | inr stay ↦ rw stay (inl e)
]
In-without failed (y ∷ ys) x (inr t) n = elim (Bool-cases (contains failed y)) [
  | inl out ↦ rw out (In-without failed ys x t n)
  | inr stay ↦ rw stay (inr (In-without failed ys x t n))
]

-- The skip set of failed nodes holds exactly their transitive dependents, over edges and condition
-- reads, that did not fail themselves.
pub skip_set_iff :
    (ir : Ir) (failed : List String) (x : String)
    → In x (skip_set ir failed) ↔ (Dependent (dependencies ir) failed x × (¬ In x failed))
unfolding skip_set
skip_set_iff ir failed x =
    let deps = dependencies ir in
    let done : Inv deps failed (walk (enough_fuel deps failed) deps [] failed) [] =
      walk-Inv deps failed (enough_fuel deps failed) [] failed
        (omega (arith, fresh-le-length deps [])) (start-Inv deps failed) in
    (
      λ h. let (a, b) = without-In failed _ x h in (done.sound x a, b),
      λ (d, n). In-without failed _ x (walk_complete deps failed _ done d) n,
    )
