-- ===== src/Failure/Skips/Marks.antt =====
-- failure/policy.go: one round of SkipSet's loop.
use faber.Common.{
  ℕ, ◌+◌, ◌≤◌, String, ◌≡◌, refl, ◌⊎◌, inl, inr, true, false, List, [], ◌∷◌, ◌++◌, eq_iff,
  if◌then◌else◌, length, length-append, In, arith, Bool-cases, subst,
}
use faber.Failure.Skips.{Edge, successors, contains, mark}

pub contains-In : (xs : List String) (x : String) → contains xs x ≡ true → In x xs
unfolding contains
contains-In [] x h = cc
contains-In (y ∷ ys) x h = ground (arith, eq_iff y x, contains-In ys x)

pub In-contains : (xs : List String) (x : String) → In x xs → contains xs x ≡ true
unfolding contains
In-contains [] x h = elim h [ ]
In-contains (y ∷ ys) x h = ground (arith, eq_iff y x, In-contains ys x)

pub In-append_left : (x : String) (xs ys : List String) → In x xs → In x (xs ++ ys)
In-append_left x [] ys h = elim h [ ]
In-append_left x (y ∷ xs) ys (inl e) = inl e
In-append_left x (y ∷ xs) ys (inr h) = inr (In-append_left x xs ys h)

pub In-append_right : (x : String) (xs ys : List String) → In x ys → In x (xs ++ ys)
In-append_right x [] ys h = h
In-append_right x (y ∷ xs) ys h = inr (In-append_right x xs ys h)

In-append : (x : String) (xs ys : List String) → In x (xs ++ ys) → In x xs ⊎ In x ys
In-append x [] ys h = inr h
In-append x (y ∷ xs) ys (inl e) = inl (inl e)
In-append x (y ∷ xs) ys (inr h) = elim (In-append x xs ys h) [ inl a ↦ inl (inr a) | inr b ↦ inr b ]

-- What one round of marking does: the old ids stay, the successors are skipped, what is new is a
-- successor, and every id newly skipped is queued.
pub record IsMarked (nexts skip queue : List String) (out : List String × List String)
    : Type 0 where
  pub kept : (x : String) → In x skip → In x out.0
  pub marked : (x : String) → In x nexts → In x out.0
  pub origin : (x : String) → In x out.0 → In x skip ⊎ In x nexts
  pub queued : (x : String) → In x out.0 → In x skip ⊎ In x out.1
  pub stays : (x : String) → In x queue → In x out.1
  pub queue_origin : (x : String) → In x out.1 → In x queue ⊎ In x nexts

pub mark-IsMarked :
    (nexts skip queue : List String) → IsMarked nexts skip queue (mark nexts skip queue)
unfolding mark
mark-IsMarked [] skip queue = record {
  kept = λ x h. h;
  marked = λ x h. elim h [ ];
  origin = λ x h. inl h;
  queued = λ x h. inl h;
  stays = λ x h. h;
  queue_origin = λ x h. inl h;
}
mark-IsMarked (n ∷ ns) skip queue = elim (Bool-cases (contains skip n)) [
  | inl old ↦
      let m = mark-IsMarked ns skip queue in
      rw old (record {
        kept = m.kept;
        marked = λ x h. elim h [
          | inl e ↦ m.kept x (subst (λ k. In k skip) e (contains-In skip n old))
          | inr t ↦ m.marked x t
        ];
        origin = λ x h. elim (m.origin x h) [ inl a ↦ inl a | inr b ↦ inr (inr b) ];
        queued = m.queued;
        stays = m.stays;
        queue_origin = λ x h. elim (m.queue_origin x h) [ inl a ↦ inl a | inr b ↦ inr (inr b) ];
      })
  | inr new ↦
      let m = mark-IsMarked ns (n ∷ skip) (queue ++ n ∷ []) in
      rw new (record {
        kept = λ x h. m.kept x (inr h);
        marked = λ x h. elim h [ inl e ↦ m.kept x (inl e) | inr t ↦ m.marked x t ];
        origin = λ x h. elim (m.origin x h) [
          | inl (inl e) ↦ inr (inl e)
          | inl (inr a) ↦ inl a
          | inr b ↦ inr (inr b)
        ];
        queued = λ x h. elim (m.queued x h) [
          | inl (inl e) ↦ inr (m.stays x (In-append_right x queue (n ∷ []) (inl e)))
          | inl (inr a) ↦ inl a
          | inr b ↦ inr b
        ];
        stays = λ x h. m.stays x (In-append_left x queue (n ∷ []) h);
        queue_origin = λ x h. elim (m.queue_origin x h) [
          | inl a ↦ elim (In-append x queue (n ∷ []) a) [
            | inl q ↦ inl q
            | inr (inl e) ↦ inr (inl e)
            | inr (inr t) ↦ elim t [ ]
          ]
          | inr b ↦ inr (inr b)
        ];
      })
]

pub targets : List Edge → List String
targets [] = []
targets (e ∷ es) = e.to ∷ targets es

pub successors-targets :
    (deps : List Edge) (id x : String) → In x (successors deps id) → In x (targets deps)
unfolding successors targets
successors-targets [] id x h = h
successors-targets (e ∷ es) id x h = ground (arith, successors-targets es id x)

-- How many edges lead to an id that is not yet skipped.
unfoldable pub fresh : List Edge → List String → ℕ
fresh [] skip = 0
fresh (e ∷ es) skip = (if contains skip e.to then 0 else 1) + fresh es skip

fresh-cons-le :
    (deps : List Edge) (n : String) (skip : List String) → fresh deps (n ∷ skip) ≤ fresh deps skip
unfolding fresh contains
fresh-cons-le [] n skip = omega arith
fresh-cons-le (e ∷ es) n skip = ground (arith, fresh-cons-le es n skip)

fresh-cons :
    (deps : List Edge) (n : String) (skip : List String)
    → In n (targets deps)
    → contains skip n ≡ false
    → fresh deps (n ∷ skip) + 1 ≤ fresh deps skip
unfolding fresh contains targets
fresh-cons [] n skip h new = elim h [ ]
fresh-cons (e ∷ es) n skip h new =
    ground (arith, eq_iff n e.to, fresh-cons es n skip, fresh-cons-le es n skip)

pub mark-fresh :
    (deps : List Edge) (nexts skip queue : List String)
    → ((x : String) → In x nexts → In x (targets deps))
    → let (skip', queue') = mark nexts skip queue in
      length queue' + fresh deps skip' ≤ length queue + fresh deps skip
unfolding mark
mark-fresh deps [] skip queue h = omega arith
mark-fresh deps (n ∷ ns) skip queue h = elim (Bool-cases (contains skip n)) [
  | inl old ↦ rw old (mark-fresh deps ns skip queue (λ x m. h x (inr m)))
  | inr new ↦ rw new (
      omega (
        arith,
        mark-fresh deps ns (n ∷ skip) (queue ++ n ∷ []) (λ x m. h x (inr m)),
        fresh-cons deps n skip (h n (inl refl)) new,
        length-append queue (n ∷ []),
      ))
]
