-- ===== src/Config/Refs/Printed.antt =====
-- config/refs.go: the segments of a printed reference.
use faber.Common.{
  ℕ, ◌≡◌, refl, sym, ap, ◌∙◌, subst, ◌≢◌, false, some, List, [], ◌∷◌, ◌++◌, ◌==◌, if◌then◌else◌,
  arith, All,
}
use faber.Config.Refs.{
  Bytes, dot, RefRoot, params, steps, item, sources, Ref, empty_segment, ok, err, root_name,
  same_bytes, root_of, extend, split, is_empty, any_empty, by_parts, by_root, parse_ref, print_ref,
  one_segment_ref, steps_ref,
}

abbrev pub NoDot : Bytes → Type 0
NoDot s = All (λ c. c ≢ dot) s

-- A segment: not empty, and without a dot.
abbrev pub IsName : Bytes → Type 0
IsName s = NoDot s × (is_empty s ≡ false)

abbrev pub IsField : RefRoot → Bytes → Type 0
IsField steps f = IsName f
IsField params f = f ≡ []
IsField item f = f ≡ []
IsField sources f = f ≡ []

abbrev pub IsRef : Ref → Type 0
IsRef r = IsName r.name × IsField r.root r.field

not_dot : (c : ℕ) → c ≢ dot → (c == dot) ≡ false
not_dot c h = ground arith

split_segment : (s : Bytes) → NoDot s → split s ≡ s ∷ []
unfolding split extend
split_segment [] h = refl
split_segment (c ∷ s) h = rw (not_dot c h.0, split_segment s h.1) refl

split_at_dot : (s t : Bytes) → NoDot s → split (s ++ dot ∷ t) ≡ s ∷ split t
unfolding split extend
split_at_dot [] t h = refl
split_at_dot (c ∷ s) t h = rw (not_dot c h.0, split_at_dot s t h.1) refl

root_of-root_name : (r : RefRoot) → root_of (root_name r) ≡ some r
unfolding root_of same_bytes
root_of-root_name params = refl
root_of-root_name steps = refl
root_of-root_name item = refl
root_of-root_name sources = refl

root_name-IsName : (r : RefRoot) → IsName (root_name r)
unfolding root_name is_empty
root_name-IsName params = (ground arith, refl)
root_name-IsName steps = (ground arith, refl)
root_name-IsName item = (ground arith, refl)
root_name-IsName sources = (ground arith, refl)

split_short :
    (root : RefRoot) (n : Bytes)
    → IsName n
    → split (root_name root ++ dot ∷ n) ≡ root_name root ∷ n ∷ []
split_short root n h =
    split_at_dot (root_name root) n (root_name-IsName root).0
    ∙ ap (◌∷◌ (root_name root)) (split_segment n h.0)

split_long :
    (root : RefRoot) (n f : Bytes)
    → IsName n
    → IsName f
    → split (root_name root ++ dot ∷ (n ++ dot ∷ f)) ≡ root_name root ∷ n ∷ f ∷ []
split_long root n f h k =
    split_at_dot (root_name root) (n ++ dot ∷ f) (root_name-IsName root).0
    ∙ ap (◌∷◌ (root_name root)) (split_at_dot n f h.0 ∙ ap (◌∷◌ n) (split_segment f k.0))

parse_parts :
    (s : Bytes) (ps : List Bytes) → split s ≡ ps → any_empty ps ≡ false → parse_ref s ≡ by_parts ps
unfolding parse_ref
parse_parts s ps e f =
    subst (λ qs. (if any_empty qs then err empty_segment else by_parts qs) ≡ by_parts ps) (sym e)
      (rw (f) refl)

short_parts : (root : RefRoot) (n : Bytes) → IsName n → any_empty (root_name root ∷ n ∷ []) ≡ false
unfolding any_empty
short_parts root n h = rw ((root_name-IsName root).1, h.1) refl

long_parts :
    (root : RefRoot) (n f : Bytes)
    → IsName n
    → IsName f
    → any_empty (root_name root ∷ n ∷ f ∷ []) ≡ false
unfolding any_empty
long_parts root n f h k = rw ((root_name-IsName root).1, h.1, k.1) refl

parse-short :
    (root : RefRoot) (n f : Bytes)
    → IsName n
    → by_parts (root_name root ∷ n ∷ []) ≡ ok (record { root = root; name = n; field = [] })
    → f ≡ []
    → parse_ref (print_ref (record { root = root; name = n; field = f }))
      ≡ ok (record { root = root; name = n; field = f })
unfolding print_ref is_empty
parse-short root n f h b e =
    subst
      (λ g.
        parse_ref (print_ref (record { root = root; name = n; field = g }))
        ≡ ok (record { root = root; name = n; field = g }))
      (sym e)
      (parse_parts (root_name root ++ dot ∷ n) (root_name root ∷ n ∷ []) (split_short root n h)
          (short_parts root n h)
        ∙ b)

parse-fields :
    (root : RefRoot) (n f : Bytes)
    → IsName n
    → IsField root f
    → parse_ref (print_ref (record { root = root; name = n; field = f }))
      ≡ ok (record { root = root; name = n; field = f })
unfolding print_ref by_parts by_root one_segment_ref steps_ref
parse-fields params n f h e = parse-short params n f h refl e
parse-fields item n f h e = parse-short item n f h refl e
parse-fields sources n f h e = parse-short sources n f h refl e
parse-fields steps n f h k = rw (k.1) (
    parse_parts (root_name steps ++ dot ∷ (n ++ dot ∷ f)) (root_name steps ∷ n ∷ f ∷ [])
      (split_long steps n f h k) (long_parts steps n f h k))

pub parse_ref-print_ref : (r : Ref) → IsRef r → parse_ref (print_ref r) ≡ ok r
parse_ref-print_ref r h = parse-fields r.root r.name r.field h.0 h.1
