-- ===== src/Config/Refs/RoundTrip.antt =====
-- config/refs.go: ParseRef against Ref.String.
use faber.Common.{
  ℕ, ◌≡◌, refl, sym, ap, ◌∙◌, subst, ◌≢◌, true, false, none, some, List, [], ◌∷◌, ◌++◌, ◌==◌,
  if◌then◌else◌, arith, All, Bool-cases, Option-cases, inl, inr, ◌↔◌,
}
use faber.Config.Refs.{
  Bytes, dot, RefRoot, params, steps, item, sources, Ref, empty_segment, Parsed, ok, err, root_name,
  same_bytes, root_of, extend, split, is_empty, any_empty, by_parts, by_root, parse_ref, print_ref,
  one_segment_ref, steps_ref,
}
use faber.Config.Refs.Printed.{NoDot, IsField, IsRef, parse_ref-print_ref}

-- The converse: the segments of a string print it back.
join : List Bytes → Bytes
join [] = []
join (p ∷ []) = p
join (p ∷ q ∷ ps) = p ++ dot ∷ join (q ∷ ps)

join_nil : join ([] ∷ []) ≡ []
unfolding join
join_nil = refl

join-extend : (c : ℕ) (ps : List Bytes) → ps ≢ [] → join (extend c ps) ≡ c ∷ join ps
unfolding join extend
join-extend c [] h = elim (h refl) [ ]
join-extend c (p ∷ []) h = refl
join-extend c (p ∷ q ∷ ps) h = refl

extend-≢-nil : (c : ℕ) (ps : List Bytes) → extend c ps ≢ []
unfolding extend
extend-≢-nil c [] e = ground arith
extend-≢-nil c (p ∷ ps) e = ground arith

cons-≢-nil : (p : Bytes) (ps : List Bytes) → p ∷ ps ≢ []
cons-≢-nil p ps e = ground arith

split-≢-nil : (s : Bytes) → split s ≢ []
unfolding split
split-≢-nil [] = cons-≢-nil [] []
split-≢-nil (c ∷ s) = elim (Bool-cases (c == dot)) [
  | inl t ↦ rw (t) (cons-≢-nil [] (split s))
  | inr t ↦ rw (t) (extend-≢-nil c (split s))
]

join_empty : (ps : List Bytes) → ps ≢ [] → join ([] ∷ ps) ≡ dot ∷ join ps
unfolding join
join_empty [] h = elim (h refl) [ ]
join_empty (p ∷ ps) h = refl

join-split : (s : Bytes) → join (split s) ≡ s
unfolding split
join-split [] = join_nil
join-split (c ∷ s) = elim (Bool-cases (c == dot)) [
  | inl t ↦ rw (t) (join_empty (split s) (split-≢-nil s) ∙ ground (arith, t, join-split s))
  | inr t ↦ rw (t) (join-extend c (split s) (split-≢-nil s) ∙ ap (◌∷◌ c) (join-split s))
]

extend-NoDot : (c : ℕ) (ps : List Bytes) → c ≢ dot → All NoDot ps → All NoDot (extend c ps)
unfolding extend
extend-NoDot c [] h k = ((h, tt), tt)
extend-NoDot c (p ∷ ps) h k = ((h, k.0), k.1)

split-NoDot : (s : Bytes) → All NoDot (split s)
unfolding split
split-NoDot [] = (tt, tt)
split-NoDot (c ∷ s) = elim (Bool-cases (c == dot)) [
  | inl t ↦ rw (t) ((tt, split-NoDot s))
  | inr t ↦ rw (t) (extend-NoDot c (split s) (ground (arith, t)) (split-NoDot s))
]

same_bytes-eq : (s t : Bytes) → same_bytes s t ≡ true → s ≡ t
unfolding same_bytes
same_bytes-eq [] [] h = refl
same_bytes-eq [] (d ∷ t) h = ground arith
same_bytes-eq (c ∷ s) [] h = ground arith
same_bytes-eq (c ∷ s) (d ∷ t) h = ground (arith, same_bytes-eq s t)

root_of-some : (s : Bytes) (r : RefRoot) → root_of s ≡ some r → s ≡ root_name r
unfolding root_of
root_of-some s r h = ground (
  arith,
  same_bytes-eq s (root_name params),
  same_bytes-eq s (root_name item),
  same_bytes-eq s (root_name sources),
  same_bytes-eq s (root_name steps),
)

value_or : Ref → Parsed Ref → Ref
value_or r (ok x) = x
value_or r (err e) = r

ok-injective : (x y : Ref) → ok x ≡ ok y → x ≡ y
unfolding value_or
ok-injective x y e = ap (value_or x) e

-- What a parse that succeeds says of the segments.
abbrev Prints : List Bytes → Ref → Type 0
Prints ps r = IsRef r × (print_ref r ≡ join ps)

short_sound :
    (root : RefRoot) (ps : List Bytes) (r : Ref)
    → IsField root []
    → All NoDot ps
    → any_empty ps ≡ false
    → one_segment_ref root ps ≡ ok r
    → Prints (root_name root ∷ ps) r
unfolding one_segment_ref any_empty print_ref join
short_sound root [] r k d a e = ground (arith, e)
short_sound root (n ∷ []) r k d a e =
    subst (Prints (root_name root ∷ n ∷ []))
      (ok-injective (record { root = root; name = n; field = [] }) r e)
      ((((d.0, ground (arith, a)), k), refl))
short_sound root (n ∷ m ∷ ps) r k d a e = ground (arith, e)

steps_sound :
    (ps : List Bytes) (r : Ref)
    → All NoDot ps
    → any_empty ps ≡ false
    → steps_ref ps ≡ ok r
    → Prints (root_name steps ∷ ps) r
unfolding steps_ref any_empty print_ref join
steps_sound [] r d a e = ground (arith, e)
steps_sound (n ∷ []) r d a e = ground (arith, e)
steps_sound (n ∷ f ∷ []) r d a e =
    let named : is_empty n ≡ false = ground (arith, a) in
    let filled : is_empty f ≡ false = ground (arith, a) in
    subst (Prints (root_name steps ∷ n ∷ f ∷ []))
      (ok-injective (record { root = steps; name = n; field = f }) r e)
      ((((d.0, named), (d.1.0, filled)), rw (filled) refl))
steps_sound (n ∷ f ∷ g ∷ ps) r d a e = ground (arith, e)

root_sound :
    (root : RefRoot) (ps : List Bytes) (r : Ref)
    → All NoDot ps
    → any_empty ps ≡ false
    → by_root (some root) ps ≡ ok r
    → Prints (root_name root ∷ ps) r
unfolding by_root
root_sound params ps r d a e = short_sound params ps r refl d a e
root_sound item ps r d a e = short_sound item ps r refl d a e
root_sound sources ps r d a e = short_sound sources ps r refl d a e
root_sound steps ps r d a e = steps_sound ps r d a e

unknown_fails : (ps : List Bytes) (r : Ref) → by_root none ps ≢ ok r
unfolding by_root
unknown_fails ps r e = ground (arith, e)

parts_sound :
    (ps : List Bytes) (r : Ref)
    → All NoDot ps
    → any_empty ps ≡ false
    → by_parts ps ≡ ok r
    → Prints ps r
unfolding by_parts any_empty
parts_sound [] r d a e = ground (arith, e)
parts_sound (p ∷ ps) r d a e = elim (Option-cases (root_of p)) [
  | inl f ↦ elim (unknown_fails ps r (subst (λ o. by_root o ps ≡ ok r) f e)) [ ]
  | inr (root, f) ↦
      subst (λ q. Prints (q ∷ ps) r) (sym (root_of-some p root f))
        (root_sound root ps r d.1 (ground (arith, a)) (subst (λ o. by_root o ps ≡ ok r) f e))
]

parse_ref-parts :
    (s : Bytes) (r : Ref)
    → parse_ref s ≡ ok r
    → (any_empty (split s) ≡ false) × (by_parts (split s) ≡ ok r)
unfolding parse_ref
parse_ref-parts s r e = elim (Bool-cases (any_empty (split s))) [
  | inl t ↦ ground (arith, e, t)
  | inr t ↦ (t, subst (λ b. (if b then err empty_segment else by_parts (split s)) ≡ ok r) t e)
]

-- ParseRef succeeds with a reference exactly on the text that Ref.String prints for it, and then
-- its segments are neither empty nor dotted, with a field exactly where the root is steps.
pub parse_ref_iff : (s : Bytes) (r : Ref) → (parse_ref s ≡ ok r) ↔ (IsRef r × (print_ref r ≡ s))
parse_ref_iff s r = (
  λ e.
      let (a, b) = parse_ref-parts s r e in
      let (k, j) = parts_sound (split s) r (split-NoDot s) a b in (k, j ∙ join-split s),
  λ h. subst (λ t. parse_ref t ≡ ok r) h.1 (parse_ref-print_ref r h.0),
)
