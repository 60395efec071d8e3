-- ===== src/Pipeline/Scheduler/Readiness/Blocked.antt =====
-- pipeline/scheduler.go: the nodes that are pending, which wait for an edge that is not met.
use faber.Common.{
  ℕ, ◌+◌, ◌≤◌, ◌≡◌, refl, sym, ◌∙◌, subst, String, Bool, true, false, ◌&&◌, inl, inr, Option, none,
  some, List, [], ◌∷◌, if◌then◌else◌, str_eq, eq_iff, lookup, put, lookup-put, arith, Option-cases,
  Bool-cases,
}
use mathlib.Core.Bool.{false≢true}
use mathlib.Core.Option.{some-injective, none-ne-some}
use faber.Metering.Cost.{ℤ, pos}
use faber.Pipeline.Scheduler.{
  Life, queued, Work, Scheduler, is_waiting, is_pending, test_life, test_at, or_zero, before,
  is_zero, enqueue, set_node, push_at, push, lower_indeg, lower_all,
}
use faber.Pipeline.Scheduler.Readiness.{occurrences, Tracks, lowered_at_d, lower_indeg-Tracks}

nonzero_at : (z : ℤ) (b : Bool) (m : ℕ) → z ≡ pos m → is_zero z && b ≡ false → b ≡ true → 1 ≤ m
unfolding is_zero
nonzero_at z b m e h k = ground arith

module _ {A : Type 0} where
  test_life-true :
      (test : Life → Bool) (id : String) (n : Work A) (s : Scheduler A)
      → lookup id s.nodes ≡ some n
      → test n.life ≡ true
      → test_life test id s ≡ true
  unfolding test_life test_at
  test_life-true test id n s e h = rw e h

  -- A node that is pending waits for an edge.
  abbrev pub Blocks : (String → ℕ) → Scheduler A → Type 0
  Blocks waits s =
      (d : String) (n : Work A) → lookup d s.nodes ≡ some n → is_pending n.life ≡ true → 1 ≤ waits d

  pub put-Blocks :
      (waits : String → ℕ) (id : String) (n' : Work A) (s : Scheduler A)
      → (is_pending n'.life ≡ true → 1 ≤ waits id)
      → Blocks waits s
      → Blocks waits (set_node id n' s)
  unfolding set_node
  put-Blocks waits id n' s held b d n e h =
      go (str_eq id d) refl (sym (lookup-put id d n' s.nodes) ∙ e)
    where
      go :
          (c : Bool)
          → str_eq id d ≡ c
          → (if c then some n' else lookup d s.nodes) ≡ some n
          → 1 ≤ waits d
      go true q f =
          subst (λ x. 1 ≤ waits x) ((eq_iff id d).0 q)
            (held (subst (λ w. is_pending w.life ≡ true) (sym (some-injective _ _ f)) h))
      go false q f = b d n f h

  pub push-Blocks :
      (waits : String → ℕ) (id : String) (s : Scheduler A)
      → Blocks waits s
      → Blocks waits (push id s)
  unfolding push push_at
  push-Blocks waits id s b = elim (Option-cases (lookup id s.nodes)) [
    | inl e ↦ rw e b
    | inr (n, e) ↦ rw e (go n (is_waiting n.life))
  ]
    where
      go :
          (n : Work A) (c : Bool)
          → Blocks waits (
              if c
              then record (set_node id (record n { life = queued }) s) {
                ready = enqueue id s.ready;
              }
              else s)
      go n true = put-Blocks waits id (record n { life = queued }) s (λ h. ground arith) b
      go n false = b

  not_queued :
      (d x : String) (w n : Work A) (s : Scheduler A) (c : Bool)
      → str_eq d x ≡ c
      → is_pending w.life ≡ false
      → (if c then some w else lookup x s.nodes) ≡ some n
      → is_pending n.life ≡ true
      → (str_eq d x ≡ false) × (lookup x s.nodes ≡ some n)
  not_queued d x w n s true q p f h =
      elim (false≢true
        (sym p ∙ subst (λ k. is_pending k.life ≡ true) (sym (some-injective _ _ f)) h)) [ ]
  not_queued d x w n s false q p f h = (q, f)

  -- A push leaves no pending node of that id.
  pub pushed_pending :
      (d x : String) (n : Work A) (s : Scheduler A)
      → lookup x (push d s).nodes ≡ some n
      → is_pending n.life ≡ true
      → (str_eq d x ≡ false) × (lookup x s.nodes ≡ some n)
  unfolding push push_at set_node
  pushed_pending d x n s f h = at (lookup d s.nodes) refl f
    where
      Goal : Type 0
      Goal = (str_eq d x ≡ false) × (lookup x s.nodes ≡ some n)

      waits_not : (l : Life) → is_waiting l ≡ false → is_pending l ≡ false
      waits_not l e = ground arith

      if_waiting :
          (w : Work A)
          → lookup d s.nodes ≡ some w
          → (c : Bool) → is_waiting w.life ≡ c
          → lookup x
              (if c
                then record (set_node d (record w { life = queued }) s) {
                  ready = enqueue d s.ready;
                }
                else s).nodes
            ≡ some n
          → Goal
      if_waiting w e true q g =
          not_queued d x (record w { life = queued }) n s (str_eq d x) refl refl
            (sym (lookup-put d x _ s.nodes) ∙ g) h
      if_waiting w e false q g =
          not_queued d x w n s (str_eq d x) refl (waits_not w.life q)
            (sym (same_at w e (str_eq d x) refl) ∙ g) h
        where
          same_at :
              (w : Work A)
              → lookup d s.nodes ≡ some w
              → (c : Bool) → str_eq d x ≡ c
              → lookup x s.nodes ≡ (if c then some w else lookup x s.nodes)
          same_at w e true q = subst (λ k. lookup k s.nodes ≡ some w) ((eq_iff d x).0 q) e
          same_at w e false q = refl

      absent :
          lookup d s.nodes ≡ none → (c : Bool) → str_eq d x ≡ c → lookup x s.nodes ≡ some n → Goal
      absent e true q g =
          elim (none-ne-some n
            (sym (subst (λ k. lookup k s.nodes ≡ none) ((eq_iff d x).0 q) e) ∙ g)) [ ]
      absent e false q g = (q, g)

      at :
          (o : Option (Work A))
          → lookup d s.nodes ≡ o
          → lookup x (push_at d o s).nodes ≡ some n
          → Goal
      at none e g = absent e (str_eq d x) refl g
      at (some w) e g = if_waiting w e (is_waiting w.life) refl g

  module _ (waits waits' : String → ℕ) (d : String) (s : Scheduler A)
      (less : (x : String) → waits x ≡ (if str_eq d x then 1 else 0) + waits' x)
      (t : Tracks waits s) (b : Blocks waits s) where
    if-Blocks :
        (c : Bool) (u v : Scheduler A)
        → (c ≡ true → Blocks waits' u)
        → (c ≡ false → Blocks waits' v)
        → Blocks waits' (if c then u else v)
    if-Blocks true u v f g = f refl
    if-Blocks false u v f g = g refl

    unmoved :
        (x : String) (n : Work A)
        → str_eq d x ≡ false
        → lookup x s.nodes ≡ some n
        → is_pending n.life ≡ true
        → 1 ≤ waits' x
    unmoved x n q e h = ground (arith, less x, b x n e h)

    left_alone :
        is_zero (before (or_zero (lookup d s.indeg))) && test_life is_pending d s ≡ false
        → (x : String) (n : Work A) → lookup x s.nodes ≡ some n
        → is_pending n.life ≡ true
        → 1 ≤ waits' x
    left_alone f x n e h = elim (Bool-cases (str_eq d x)) [
      | inl q ↦ last_edge ((eq_iff d x).0 q)
      | inr q ↦ unmoved x n q e h
    ]
      where
        last_edge : d ≡ x → 1 ≤ waits' x
        last_edge dx =
            let there =
              test_life-true is_pending d n s (subst (λ k. lookup k s.nodes ≡ some n) (sym dx) e)
                h in
            subst (λ k. 1 ≤ waits' k) dx
              (nonzero_at _ _ (waits' d) (lowered_at_d waits waits' d s less t) f there)

    -- The loop pushes a pending node whose last edge is met.
    lower_indeg-Blocks : Blocks waits' (lower_indeg d s)
    unfolding lower_indeg
    lower_indeg-Blocks =
        let z = before (or_zero (lookup d s.indeg)) in
        let lowered = record s { indeg = put d z s.indeg } in
        if-Blocks (is_zero z && test_life is_pending d s) (push d lowered) lowered
          (λ c x n e h. let (q, f) = pushed_pending d x n lowered e h in unmoved x n q f h)
          left_alone

  pub lower_all-Blocks :
      (waits : String → ℕ) (ds : List String) (s : Scheduler A)
      → Tracks (λ x. occurrences x ds + waits x) s
      → Blocks (λ x. occurrences x ds + waits x) s
      → Blocks waits (lower_all ds s)
  unfolding lower_all occurrences
  lower_all-Blocks waits [] s t b = λ d n e h. omega (arith, b d n e h)
  lower_all-Blocks waits (d ∷ ds) s t b =
      lower_all-Blocks waits ds (lower_indeg d s)
        (lower_indeg-Tracks _ (λ x. occurrences x ds + waits x) d s (λ x. omega arith) t)
        (lower_indeg-Blocks _ (λ x. occurrences x ds + waits x) d s (λ x. omega arith) t b)
