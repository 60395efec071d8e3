-- ===== src/Pipeline/Scheduler/Readiness/Seeds.antt =====
-- pipeline/scheduler.go: the first loop of run, which pushes the nodes that wait for nothing.
use faber.Common.{
  ℕ, ◌≤◌, ◌≡◌, refl, sym, ◌∙◌, subst, String, Bool, true, false, inl, inr, ◌⊎◌, some, List, [], ◌∷◌,
  if◌then◌else◌, str_lt, str_eq, str_eq_self, eq_iff, Table, lookup, In, arith,
}
use mathlib.Core.Bool.{false≢true}
use mathlib.Core.Option.{none-ne-some}
use faber.Metering.Cost.{ℤ, pos}
use faber.Pipeline.Scheduler.{Work, Scheduler, is_pending, or_zero, is_zero, enqueue, push}
use faber.Pipeline.Scheduler.Events.{sorted_ids, seed_from, seed}
use faber.Pipeline.Scheduler.Terminal.{Keeps, push-Mirrors}
use faber.Pipeline.Scheduler.Counts.{IsCounted, push-IsCounted}
use faber.Pipeline.Scheduler.Readiness.Edges.{push_at-succ}
use faber.Pipeline.Scheduler.Readiness.{Tracks, push-Tracks}
use faber.Pipeline.Scheduler.Readiness.Blocked.{Blocks, pushed_pending}

In-enqueue : (d id : String) (ids : List String) → (id ≡ d) ⊎ In d ids → In d (enqueue id ids)
unfolding enqueue
In-enqueue d id [] i = i
In-enqueue d id (x ∷ xs) i = In-if (str_lt x id) (behind (λ k. In-enqueue d id xs k) i) i
  where
    In-if :
        (b : Bool)
        → In d (x ∷ enqueue id xs)
        → In d (id ∷ x ∷ xs)
        → In d (if b then x ∷ enqueue id xs else id ∷ x ∷ xs)
    In-if true i j = i
    In-if false i j = j

    behind :
        ((id ≡ d) ⊎ In d xs → In d (enqueue id xs))
        → (id ≡ d) ⊎ In d (x ∷ xs)
        → In d (x ∷ enqueue id xs)
    behind later (inl e) = inr (later (inl e))
    behind later (inr (inl e)) = inl e
    behind later (inr (inr j)) = inr (later (inr j))

In-sorted_ids :
    {A : Type 0} (d : String) (n : Work A) (nodes : Table (Work A))
    → lookup d nodes ≡ some n
    → In d (sorted_ids nodes)
unfolding sorted_ids lookup
In-sorted_ids d n [] e = elim (none-ne-some n e) [ ]
In-sorted_ids d n ((j, w) ∷ nodes) e =
    In-enqueue d j (sorted_ids nodes) (go (str_eq j d) refl e (λ f. In-sorted_ids d n nodes f))
  where
    go :
        (b : Bool)
        → str_eq j d ≡ b
        → (if b then some w else lookup d nodes) ≡ some n
        → (lookup d nodes ≡ some n → In d (sorted_ids nodes))
        → (j ≡ d) ⊎ In d (sorted_ids nodes)
    go true q f later = inl ((eq_iff j d).0 q)
    go false q f later = inr (later f)

is_zero_waits : (z : ℤ) (m : ℕ) → z ≡ pos m → is_zero z ≡ true → m ≡ 0
unfolding is_zero
is_zero_waits z m e h = ground arith

nonzero_waits : (z : ℤ) (m : ℕ) → z ≡ pos m → is_zero z ≡ false → 1 ≤ m
unfolding is_zero
nonzero_waits z m e h = ground arith

module _ {A : Type 0} where
  -- Each pending node waits for an edge, or is still to be looked at.
  abbrev BlocksBut : List String → (String → ℕ) → Scheduler A → Type 0
  BlocksBut ids waits s =
      (d : String) (n : Work A)
      → lookup d s.nodes ≡ some n
      → is_pending n.life ≡ true
      → (1 ≤ waits d) ⊎ In d ids

  pub record Seeded (waits : String → ℕ) (s : Scheduler A) : Type 0 where
    pub tracks : Tracks waits s
    pub blocks : Blocks waits s

  if-Seeded :
      {waits : String → ℕ} (b : Bool) (s t : Scheduler A)
      → (b ≡ true → Seeded waits s)
      → (b ≡ false → Seeded waits t)
      → Seeded waits (if b then s else t)
  if-Seeded true s t f g = f refl
  if-Seeded false s t f g = g refl

  pushed_but :
      (waits : String → ℕ) (id : String) (ids : List String) (s : Scheduler A)
      → BlocksBut (id ∷ ids) waits s
      → BlocksBut ids waits (push id s)
  pushed_but waits id ids s b d n e h =
      let (q, f) = pushed_pending id d n s e h in
      elim (b d n f h) [
        | inl k ↦ inl k
        | inr (inl i) ↦
            elim (false≢true (sym q ∙ subst (λ k. str_eq id k ≡ true) i (str_eq_self id))) [ ]
        | inr (inr i) ↦ inr i
      ]

  looked_but :
      (waits : String → ℕ) (id : String) (ids : List String) (s : Scheduler A)
      → 1 ≤ waits id
      → BlocksBut (id ∷ ids) waits s
      → BlocksBut ids waits s
  looked_but waits id ids s w b d n e h = elim (b d n e h) [
    | inl k ↦ inl k
    | inr (inl i) ↦ inl (subst (λ k. 1 ≤ waits k) i w)
    | inr (inr i) ↦ inr i
  ]

  seed_from-Seeded :
      (waits : String → ℕ) (ids : List String) (s : Scheduler A)
      → Tracks waits s
      → BlocksBut ids waits s
      → Seeded waits (seed_from ids s)
  unfolding seed_from
  seed_from-Seeded waits [] s t b = record {
    tracks = t;
    blocks = λ d n e h. elim (b d n e h) [ inl k ↦ k | inr i ↦ elim i [ ] ];
  }
  seed_from-Seeded waits (id ∷ ids) s t b =
      if-Seeded (is_zero (or_zero (lookup id s.indeg))) _ _
        (λ z.
          seed_from-Seeded waits ids (push id s)
            (push-Tracks waits id s (is_zero_waits _ (waits id) (t.indegrees id) z) t)
            (pushed_but waits id ids s b))
        (λ z.
          seed_from-Seeded waits ids s t
            (looked_but waits id ids s (nonzero_waits _ (waits id) (t.indegrees id) z) b))

  pub seed-Seeded : (waits : String → ℕ) (s : Scheduler A) → Tracks waits s → Seeded waits (seed s)
  unfolding seed
  seed-Seeded waits s t =
      seed_from-Seeded waits (sorted_ids s.nodes) s t (λ d n e h. inr (In-sorted_ids d n s.nodes e))

  push-succ : (id : String) (s : Scheduler A) → (push id s).succ ≡ s.succ
  unfolding push
  push-succ id s = push_at-succ id (lookup id s.nodes) s

  -- What the pushes leave: the edges, the count, and that a terminal node was terminal.
  pub record Stays (s t : Scheduler A) : Type 0 where
    pub same_succ : t.succ ≡ s.succ
    pub counts : IsCounted s → IsCounted t
    pub mirrors : Keeps t s

  if-Stays :
      {s : Scheduler A} (b : Bool) (t u : Scheduler A)
      → Stays s t
      → Stays s u
      → Stays s (if b then t else u)
  if-Stays true t u f g = f
  if-Stays false t u f g = g

  pub seed_from-Stays : (ids : List String) (s : Scheduler A) → Stays s (seed_from ids s)
  unfolding seed_from
  seed_from-Stays [] s = record { same_succ = refl; counts = λ c. c; mirrors = λ p w f d. f }
  seed_from-Stays (id ∷ ids) s =
      let r = seed_from-Stays ids (push id s) in
      if-Stays (is_zero (or_zero (lookup id s.indeg))) _ _
        (record {
          same_succ = r.same_succ ∙ push-succ id s;
          counts = λ c. r.counts (push-IsCounted id s c);
          mirrors = λ p w f d. push-Mirrors id s p w (r.mirrors p w f d) d;
        })
        (seed_from-Stays ids s)
