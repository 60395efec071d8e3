-- ===== src/Config/Refs/Bindings.antt =====
-- config/refs.go: what ParseBinding takes for a reference and what for a literal.
use faber.Common.{
  ℕ, ◌-◌, ◌≡◌, refl, sym, ap, ◌∙◌, subst, Bool, true, false, not, ◌&&◌, ◌||◌, ◌≤◌, [], ◌∷◌, ◌++◌,
  ◌==◌, if◌then◌else◌, arith, length, take, drop, Bool-cases, inl, inr,
}
use faber.Config.Refs.{
  Bytes, dollar, open_brace, close_brace, Ref, nested, surrounding_text, Parsed, ok, err, Value,
  Values, Fields, Entries, nil, cons, no_fields, field_of, no_entries, entry_of, any_nested,
  any_field_nested, any_entry_nested, text, string_map, any_map, list, other, Binding, reference,
  literal, print_ref, parse_ref, interpolates, interpolations, closings, opens, closes, has_nested,
  as_binding, text_binding, compound_binding, parse_binding,
}
use faber.Config.Refs.Printed.{IsRef}
use faber.Config.Refs.RoundTrip.{parse_ref_iff}

-- "${" ++ s ++ "}"
abbrev pub interpolation : Bytes → Bytes
interpolation s = dollar ∷ open_brace ∷ (s ++ close_brace ∷ [])

-- "${" stands somewhere in the text.
abbrev pub IsInterpolated : Bytes → Type 0
IsInterpolated s = (a : Bytes) × (b : Bytes) × (s ≡ a ++ dollar ∷ open_brace ∷ b)

-- No string of a value has a "${" in it, at any depth; the keys of maps are left out.
unfoldable mutual
  pub IsPlain : Value → Type 0
  IsPlain (text s) = ¬ IsInterpolated s
  IsPlain (string_map fs) = ArePlainFields fs
  IsPlain (any_map es) = ArePlainEntries es
  IsPlain (list vs) = ArePlain vs
  IsPlain (other n) = Unit

  pub ArePlainFields : Fields → Type 0
  ArePlainFields no_fields = Unit
  ArePlainFields (field_of k v fs) = IsPlain v × ArePlainFields fs

  pub ArePlainEntries : Entries → Type 0
  ArePlainEntries no_entries = Unit
  ArePlainEntries (entry_of k v es) = IsPlain v × ArePlainEntries es

  pub ArePlain : Values → Type 0
  ArePlain nil = Unit
  ArePlain (cons v vs) = IsPlain v × ArePlain vs

-- What a binding says of the value that it was read from.
unfoldable pub IsBinding : Value → Binding → Type 0
unfolding IsPlain
IsBinding v (literal w) = (w ≡ v) × IsPlain v
IsBinding v (reference r) = IsRef r × (v ≡ text (interpolation (print_ref r)))

interpolations_found : (a b : Bytes) → 1 ≤ interpolations (a ++ dollar ∷ open_brace ∷ b)
unfolding interpolations
interpolations_found [] b = ground arith
interpolations_found (c ∷ []) b = ground (arith, interpolations_found [] b)
interpolations_found (c ∷ d ∷ a) b = ground (arith, interpolations_found (d ∷ a) b)

plain_text : (s : Bytes) → interpolates s ≡ false → ¬ IsInterpolated s
unfolding interpolates
plain_text s h (a, b, e) =
    ground (arith, interpolations_found a b, subst (λ t. interpolates t ≡ false) e h)

or_false : (a b : Bool) → (a || b) ≡ false → (a ≡ false) × (b ≡ false)
or_false true b h = ground (arith, h)
or_false false b h = (refl, h)

mutual
  unfolding has_nested IsPlain

  has_nested-IsPlain : (v : Value) → has_nested v ≡ false → IsPlain v
  has_nested-IsPlain (text s) h = plain_text s h
  has_nested-IsPlain (string_map fs) h = fields-IsPlain fs h
  has_nested-IsPlain (any_map es) h = entries-IsPlain es h
  has_nested-IsPlain (list vs) h = values-IsPlain vs h
  has_nested-IsPlain (other n) h = tt

  fields-IsPlain : (fs : Fields) → any_field_nested fs ≡ false → ArePlainFields fs
  fields-IsPlain no_fields h = tt
  fields-IsPlain (field_of k v fs) h =
      let (here, later) = or_false (has_nested v) (any_field_nested fs) h in
      (has_nested-IsPlain v here, fields-IsPlain fs later)

  entries-IsPlain : (es : Entries) → any_entry_nested es ≡ false → ArePlainEntries es
  entries-IsPlain no_entries h = tt
  entries-IsPlain (entry_of k v es) h =
      let (here, later) = or_false (has_nested v) (any_entry_nested es) h in
      (has_nested-IsPlain v here, entries-IsPlain es later)

  values-IsPlain : (vs : Values) → any_nested vs ≡ false → ArePlain vs
  values-IsPlain nil h = tt
  values-IsPlain (cons v vs) h =
      let (here, later) = or_false (has_nested v) (any_nested vs) h in
      (has_nested-IsPlain v here, values-IsPlain vs later)

parsed_or {ℓ} : {A : Type ℓ} → A → Parsed A → A
parsed_or x (ok y) = y
parsed_or x (err e) = x

take_last : (c : ℕ) (s : Bytes) → take (length (c ∷ s) - 1) (c ∷ s) ≡ take (length s) (c ∷ s)
take_last c s = ap (λ n. take n (c ∷ s)) (omega arith)

closes-split :
    (c : ℕ) (s : Bytes)
    → closes (c ∷ s) ≡ true
    → c ∷ s ≡ take (length s) (c ∷ s) ++ close_brace ∷ []
unfolding closes
closes-split c [] h = ap (λ d. d ∷ []) (ground (arith, h))
closes-split c (d ∷ s) h = ap (◌∷◌ c) (closes-split d s h)

opens-split :
    (s : Bytes)
    → opens s ≡ true
    → closes s ≡ true
    → s ≡ interpolation (drop 2 (take (length s - 1) s))
unfolding opens closes
opens-split [] h k = ground arith
opens-split (c ∷ []) h k = ground arith
opens-split (c ∷ d ∷ []) h k = ground (arith, h, k)
opens-split (c ∷ d ∷ e ∷ s) h k =
    let c' : c ≡ dollar = ground (arith, h) in
    let d' : d ≡ open_brace = ground (arith, h) in
    rw (take_last c (d ∷ e ∷ s), c', d') (ap (λ t. dollar ∷ open_brace ∷ t) (closes-split e s k))

ok-injective {ℓ} : {A : Type ℓ} (x y : A) → ok x ≡ ok y → x ≡ y
unfolding parsed_or
ok-injective x y e = ap (λ p. parsed_or x p) e

as_binding-reference :
    (p : Parsed Ref) (b : Binding) (v : Value)
    → ((r : Ref) → p ≡ ok r → IsBinding v (reference r))
    → as_binding p ≡ ok b
    → IsBinding v b
unfolding as_binding
as_binding-reference (ok r) b v h e =
    subst (IsBinding v) (ok-injective (reference r) b e) (h r refl)
as_binding-reference (err x) b v h e = ground (arith, e)

inner_reference :
    (s : Bytes) (r : Ref)
    → opens s ≡ true
    → closes s ≡ true
    → parse_ref (drop 2 (take (length s - 1) s)) ≡ ok r
    → IsBinding (text s) (reference r)
unfolding IsBinding
inner_reference s r h k e =
    let (named, printed) = (parse_ref_iff (drop 2 (take (length s - 1) s)) r).0 e in
    (named, ap text (opens-split s h k ∙ ap interpolation (sym printed)))

text_cases :
    (s : Bytes) (b : Binding) (i g : Bool)
    → interpolates s ≡ i
    → (g ≡ true → (opens s ≡ true) × (closes s ≡ true))
    → (if not i
        then ok (literal (text s))
        else if g
        then as_binding (parse_ref (drop 2 (take (length s - 1) s)))
        else err surrounding_text)
      ≡ ok b
    → IsBinding (text s) b
unfolding IsBinding has_nested interpolates
text_cases s b false g t h e =
    subst (IsBinding (text s)) (ok-injective (literal (text s)) b e)
      ((refl, has_nested-IsPlain (text s) t))
text_cases s b true false t h e = ground (arith, e)
text_cases s b true true t h e =
    as_binding-reference (parse_ref (drop 2 (take (length s - 1) s))) b (text s)
      (λ r f. inner_reference s r (h refl).0 (h refl).1 f) e

text_binding-IsBinding : (s : Bytes) (b : Binding) → text_binding s ≡ ok b → IsBinding (text s) b
unfolding text_binding
text_binding-IsBinding s b e =
    text_cases s b (interpolates s)
      (opens s && closes s && (interpolations s == 1) && (closings s == 1)) refl
      (λ h. (ground (arith, h), ground (arith, h))) e

compound_binding-IsBinding : (v : Value) (b : Binding) → compound_binding v ≡ ok b → IsBinding v b
unfolding compound_binding IsBinding
compound_binding-IsBinding v b e = elim (Bool-cases (has_nested v)) [
  | inl t ↦ ground (arith, e, t)
  | inr t ↦
      subst (IsBinding v)
        (ok-injective (literal v) b
          (subst (λ n. (if n then err nested else ok (literal v)) ≡ ok b) t e))
        ((refl, has_nested-IsPlain v t))
]

-- What ParseBinding accepts: a literal is the value itself, and no string in it has a "${", however
-- deep in maps and lists, except for the keys of maps, which may; a reference was the whole string,
-- and the reference is one that its text prints.
pub parse_binding_sound : (v : Value) (b : Binding) → parse_binding v ≡ ok b → IsBinding v b
unfolding parse_binding
parse_binding_sound (text s) b e = text_binding-IsBinding s b e
parse_binding_sound (string_map vs) b e = compound_binding-IsBinding (string_map vs) b e
parse_binding_sound (any_map vs) b e = compound_binding-IsBinding (any_map vs) b e
parse_binding_sound (list vs) b e = compound_binding-IsBinding (list vs) b e
parse_binding_sound (other n) b e = compound_binding-IsBinding (other n) b e
