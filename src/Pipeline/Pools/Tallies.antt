-- ===== src/Pipeline/Pools/Tallies.antt =====
-- pipeline/scheduler.go: a pool's count under takePools and releasePools.
use faber.Common.{
  ℕ, suc, ◌+◌, ◌-◌, ◌≤◌, ◌<◌, String, ◌≡◌, refl, sym, ◌∙◌, subst, true, false, Option, none, some,
  List, [], ◌∷◌, ◌++◌, arith, str_eq, if◌then◌else◌, eq_iff, str_eq_self, Table, lookup-put,
  Option-cases, Bool-cases, inl, inr, ◌⊎◌,
}
use mathlib.Core.Option.{some-injective}
use faber.Pipeline.Pools.{Pool, is_free, pool_of, raise, lower}

-- How often a name stands in a list.
unfoldable pub count : String → List String → ℕ
count g [] = 0
count g (x ∷ xs) = (if str_eq x g then 1 else 0) + count g xs

pub count-append : (g : String) (xs ys : List String) → count g (xs ++ ys) ≡ count g xs + count g ys
unfolding count
count-append g [] ys = omega arith
count-append g (x ∷ xs) ys = omega (arith, count-append g xs ys)

pub pool_of-raise :
    (name g : String) (ps : Table Pool) (p : Pool)
    → pool_of name ps ≡ some p
    → pool_of g (raise name ps)
      ≡ (if str_eq name g then some (record p { used = suc p.used }) else pool_of g ps)
unfolding raise
pool_of-raise name g ps p e =
    rw (e) (ground (arith, lookup-put name g (record p { used = suc p.used }) ps, eq_iff name g, e))

pub raise_absent : (name : String) (ps : Table Pool) → pool_of name ps ≡ none → raise name ps ≡ ps
unfolding raise
raise_absent name ps e = rw (e) refl

lower_absent : (name : String) (ps : Table Pool) → pool_of name ps ≡ none → lower name ps ≡ ps
unfolding lower
lower_absent name ps e = rw (e) refl

pool_of-lower :
    (name g : String) (ps : Table Pool) (p : Pool)
    → pool_of name ps ≡ some p
    → 0 < p.used
    → pool_of g (lower name ps)
      ≡ (if str_eq name g then some (record p { used = p.used - 1 }) else pool_of g ps)
unfolding lower
pool_of-lower name g ps p e h =
    rw (e)
      (ground (arith, lookup-put name g (record p { used = p.used - 1 }) ps, eq_iff name g, e, h))

-- A pool has the count of its name among the running boxes, and is not over its bound.
pub record IsTallied (names : List String) (g : String) (p : Pool) : Type 0 where
  pub tallied : p.used ≡ count g names
  pub bounded : 0 < p.max → p.used ≤ p.max

abbrev pub AreTallied : Table Pool → List String → Type 0
AreTallied ps names = (g : String) (p : Pool) → pool_of g ps ≡ some p → IsTallied names g p

-- A name that has a pool is counted apart from the others.
tally_absent :
    (name g : String) (ps : Table Pool) (names : List String) (p : Pool)
    → pool_of name ps ≡ none
    → pool_of g ps ≡ some p
    → count g (name ∷ names) ≡ count g names
unfolding count
tally_absent name g ps names p f e = ground (arith, eq_iff name g, e, f)

-- Which of the two a changed table answers with.
choice_cases :
    (name g : String) (x p : Pool) (o : Option Pool)
    → (if str_eq name g then some x else o) ≡ some p
    → ((name ≡ g) × (x ≡ p)) ⊎ ((str_eq name g ≡ false) × (o ≡ some p))
choice_cases name g x p o e = elim (Bool-cases (str_eq name g)) [
  | inl t ↦ inl (
      (
        ground (arith, eq_iff name g, t),
        some-injective x p (subst (λ b. (if b then some x else o) ≡ some p) t e),
      ))
  | inr t ↦ inr ((t, subst (λ b. (if b then some x else o) ≡ some p) t e))
]

raised-IsTallied :
    (name g : String) (names : List String) (q p : Pool)
    → is_free (some q) ≡ true
    → IsTallied names name q
    → name ≡ g
    → record q { used = suc q.used } ≡ p
    → IsTallied (name ∷ names) g p
unfolding is_free count
raised-IsTallied name g names q p free k eg ep =
    subst (λ i. IsTallied (name ∷ names) i p) eg
      (subst (IsTallied (name ∷ names) name) ep (record {
        tallied = ground (arith, k.tallied, str_eq_self name);
        bounded = λ b. ground (arith, free, b);
      }))

-- A free pool is raised for one more running box.
pub raise-AreTallied :
    (name : String) (ps : Table Pool) (names : List String)
    → is_free (pool_of name ps) ≡ true
    → AreTallied ps names
    → AreTallied (raise name ps) (name ∷ names)
unfolding count
raise-AreTallied name ps names free h g p e = elim (Option-cases (pool_of name ps)) [
  | inl f ↦
      let e' = subst (λ m. pool_of g m ≡ some p) (raise_absent name ps f) e in
      let k = h g p e' in
      record {
        tallied = k.tallied ∙ sym (tally_absent name g ps names p f e');
        bounded = k.bounded;
      }
  | inr (q, f) ↦
      elim (choice_cases name g (record q { used = suc q.used }) p (pool_of g ps)
        (sym (pool_of-raise name g ps q f) ∙ e)) [
          | inl (eg, ep) ↦
              raised-IsTallied name g names q p (subst (λ o. is_free o ≡ true) f free) (h name q f)
                eg ep
          | inr (t, e') ↦
              let k = h g p e' in
              record { tallied = ground (arith, k.tallied, t); bounded = k.bounded }
        ]
]

lowered-IsTallied :
    (name g : String) (names : List String) (q p : Pool) (n : ℕ)
    → q.used ≡ suc n
    → count name names ≡ n
    → (0 < q.max → q.used ≤ q.max)
    → name ≡ g
    → record q { used = q.used - 1 } ≡ p
    → IsTallied names g p
lowered-IsTallied name g names q p n k c b eg ep =
    subst (λ i. IsTallied names i p) eg
      (subst (IsTallied names name) ep
        (record { tallied = omega (arith, k, c); bounded = λ m. omega (arith, b m) }))

-- The pool of a box that settles is lowered.
pub lower-AreTallied :
    (name : String) (ps : Table Pool) (xs ys : List String)
    → AreTallied ps (xs ++ name ∷ ys)
    → AreTallied (lower name ps) (xs ++ ys)
unfolding count
lower-AreTallied name ps xs ys h g p e =
    let split = count-append g xs (name ∷ ys) in
    let joined = count-append g xs ys in
    let own = count-append name xs (name ∷ ys) in
    let own' = count-append name xs ys in
    elim (Option-cases (pool_of name ps)) [
      | inl f ↦
          let e' = subst (λ m. pool_of g m ≡ some p) (lower_absent name ps f) e in
          let k = h g p e' in
          record {
            tallied = omega (arith, k.tallied, split, joined, tally_absent name g ps ys p f e');
            bounded = k.bounded;
          }
      | inr (q, f) ↦
          let k = h name q f in
          let used : q.used ≡ suc (count name (xs ++ ys)) =
            ground (arith, k.tallied, own, own', str_eq_self name) in
          elim (choice_cases name g (record q { used = q.used - 1 }) p (pool_of g ps)
            (sym (pool_of-lower name g ps q f (omega (arith, used))) ∙ e)) [
              | inl (eg, ep) ↦
                  lowered-IsTallied name g (xs ++ ys) q p (count name (xs ++ ys)) used refl
                    k.bounded eg ep
              | inr (t, e') ↦
                  let j = h g p e' in
                  record {
                    tallied = ground (arith, j.tallied, t, split, joined);
                    bounded = j.bounded;
                  }
            ]
    ]
