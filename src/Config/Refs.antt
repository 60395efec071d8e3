-- ===== src/Config/Refs.antt =====
-- config/refs.go: the ${...} references of a binding. A string is the list of its bytes; an error is
-- its kind, without its text.
pub mod Printed
pub mod RoundTrip
pub mod Bindings
use faber.Common.{
  ℕ, zero, suc, ◌-◌, Bool, true, false, not, ◌&&◌, ◌||◌, Option, none, some, List, [], ◌∷◌, ◌++◌,
  ◌==◌, if◌then◌else◌, length, take, drop,
}

abbrev pub Bytes : Type 0
Bytes = List ℕ

abbrev pub dot : ℕ
dot = 46

abbrev pub dollar : ℕ
dollar = 36

abbrev pub open_brace : ℕ
open_brace = 123

abbrev pub close_brace : ℕ
close_brace = 125

pub data RefRoot : Type 0 where
  params steps item sources : RefRoot

pub record Ref : Type 0 where
  pub root : RefRoot
  pub name : Bytes
  pub field : Bytes

pub data RefError : Type 0 where
  empty_segment one_segment two_segments unknown_root surrounding_text nested : RefError

pub data Parsed {ℓ} (A : Type ℓ) : Type ℓ where
  ok : A → Parsed A
  err : RefError → Parsed A

-- A YAML value: a string, the three compounds that are walked, and the rest. The keys of a map are
-- strings or any values.
mutual
  pub data Value : Type 0 where
    text : Bytes → Value
    string_map : Fields → Value
    any_map : Entries → Value
    list : Values → Value
    other : ℕ → Value

  pub data Fields : Type 0 where
    no_fields : Fields
    field_of : Bytes → Value → Fields → Fields

  pub data Entries : Type 0 where
    no_entries : Entries
    entry_of : Value → Value → Entries → Entries

  pub data Values : Type 0 where
    nil : Values
    cons : Value → Values → Values

pub data Binding : Type 0 where
  reference : Ref → Binding
  literal : Value → Binding

-- "params", "steps", "item", "sources"
unfoldable pub root_name : RefRoot → Bytes
root_name params = 112 ∷ 97 ∷ 114 ∷ 97 ∷ 109 ∷ 115 ∷ []
root_name steps = 115 ∷ 116 ∷ 101 ∷ 112 ∷ 115 ∷ []
root_name item = 105 ∷ 116 ∷ 101 ∷ 109 ∷ []
root_name sources = 115 ∷ 111 ∷ 117 ∷ 114 ∷ 99 ∷ 101 ∷ 115 ∷ []

unfoldable pub same_bytes : Bytes → Bytes → Bool
same_bytes [] [] = true
same_bytes [] (d ∷ t) = false
same_bytes (c ∷ s) [] = false
same_bytes (c ∷ s) (d ∷ t) = (c == d) && same_bytes s t

-- The `switch` over the first segment.
unfoldable pub root_of : Bytes → Option RefRoot
unfolding same_bytes root_name
root_of s =
    if same_bytes s (root_name params)
    then some params
    else if same_bytes s (root_name item)
    then some item
    else if same_bytes s (root_name sources)
    then some sources
    else if same_bytes s (root_name steps)
    then some steps
    else none

unfoldable pub extend : ℕ → List Bytes → List Bytes
extend c [] = (c ∷ []) ∷ []
extend c (p ∷ ps) = (c ∷ p) ∷ ps

-- `strings.Split(s, ".")`
unfoldable pub split : Bytes → List Bytes
unfolding extend
split [] = [] ∷ []
split (c ∷ s) = let rest = split s in if c == dot then [] ∷ rest else extend c rest

unfoldable pub is_empty : Bytes → Bool
is_empty [] = true
is_empty (c ∷ s) = false

unfoldable pub any_empty : List Bytes → Bool
unfolding is_empty
any_empty [] = false
any_empty (p ∷ ps) = is_empty p || any_empty ps

one_segment_ref : RefRoot → List Bytes → Parsed Ref
one_segment_ref root (name ∷ []) = ok (record { root = root; name = name; field = [] })
one_segment_ref root _ = err one_segment

steps_ref : List Bytes → Parsed Ref
steps_ref (name ∷ field ∷ []) = ok (record { root = steps; name = name; field = field })
steps_ref _ = err two_segments

by_root : Option RefRoot → List Bytes → Parsed Ref
unfolding one_segment_ref steps_ref
by_root none ps = err unknown_root
by_root (some params) ps = one_segment_ref params ps
by_root (some item) ps = one_segment_ref item ps
by_root (some sources) ps = one_segment_ref sources ps
by_root (some steps) ps = steps_ref ps

by_parts : List Bytes → Parsed Ref
unfolding by_root root_of
by_parts [] = err unknown_root
by_parts (p ∷ ps) = by_root (root_of p) ps

-- `ParseRef`
unfoldable pub parse_ref : Bytes → Parsed Ref
unfolding by_parts split any_empty
parse_ref s = if any_empty (split s) then err empty_segment else by_parts (split s)

-- `Ref.String`
unfoldable pub print_ref : Ref → Bytes
unfolding root_name is_empty
print_ref r =
    if is_empty r.field
    then root_name r.root ++ dot ∷ r.name
    else root_name r.root ++ dot ∷ (r.name ++ dot ∷ r.field)

-- `strings.Count(s, "${")`: an occurrence and the search for the next one do not overlap.
unfoldable pub interpolations : Bytes → ℕ
interpolations [] = 0
interpolations (c ∷ []) = 0
interpolations (c ∷ d ∷ s) =
    let here = interpolations s in
    let later = interpolations (d ∷ s) in
    if (c == dollar) && (d == open_brace) then suc here else later

-- `strings.Count(s, "}")`
unfoldable pub closings : Bytes → ℕ
closings [] = 0
closings (c ∷ s) = let rest = closings s in if c == close_brace then suc rest else rest

-- `strings.Contains(s, "${")`
unfoldable pub interpolates : Bytes → Bool
unfolding interpolations
interpolates s = not (interpolations s == 0)

-- `strings.HasPrefix(s, "${")`
unfoldable pub opens : Bytes → Bool
opens (c ∷ d ∷ s) = (c == dollar) && (d == open_brace)
opens _ = false

-- `strings.HasSuffix(s, "}")`
unfoldable pub closes : Bytes → Bool
closes [] = false
closes (c ∷ []) = c == close_brace
closes (c ∷ d ∷ s) = closes (d ∷ s)

-- `rejectNestedRefs`: the keys of a map are not looked at.
unfoldable mutual
  unfolding interpolates

  pub has_nested : Value → Bool
  has_nested (text s) = interpolates s
  has_nested (string_map fs) = any_field_nested fs
  has_nested (any_map es) = any_entry_nested es
  has_nested (list vs) = any_nested vs
  has_nested (other n) = false

  pub any_field_nested : Fields → Bool
  any_field_nested no_fields = false
  any_field_nested (field_of k v fs) = has_nested v || any_field_nested fs

  pub any_entry_nested : Entries → Bool
  any_entry_nested no_entries = false
  any_entry_nested (entry_of k v es) = has_nested v || any_entry_nested es

  pub any_nested : Values → Bool
  any_nested nil = false
  any_nested (cons v vs) = has_nested v || any_nested vs

as_binding : Parsed Ref → Parsed Binding
as_binding (ok r) = ok (reference r)
as_binding (err e) = err e

-- `ParseBinding`, of a string and of another value.
text_binding : Bytes → Parsed Binding
unfolding interpolates opens closes closings as_binding parse_ref
text_binding s =
    if not (interpolates s)
    then ok (literal (text s))
    else if opens s && closes s && (interpolations s == 1) && (closings s == 1)
    then as_binding (parse_ref (drop 2 (take (length s - 1) s)))
    else err surrounding_text

compound_binding : Value → Parsed Binding
unfolding has_nested
compound_binding v = if has_nested v then err nested else ok (literal v)

unfoldable pub parse_binding : Value → Parsed Binding
unfolding text_binding compound_binding
parse_binding (text s) = text_binding s
parse_binding (string_map vs) = compound_binding (string_map vs)
parse_binding (any_map vs) = compound_binding (any_map vs)
parse_binding (list vs) = compound_binding (list vs)
parse_binding (other n) = compound_binding (other n)
