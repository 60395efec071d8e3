-- ===== src/Common/Tables.antt =====
-- Go maps with string keys, as association lists in which a key stands at most once.
use Prim.Native.Nat.{ℕ}
use Prim.Native.String.{String}
use mathlib.Core.Path.{◌≡◌, refl}
use mathlib.Core.Option.{Option, none, some}
use mathlib.Core.List.{List, [], ◌∷◌}
use native.Mathlib.Omega.{arith}
use text.Mathlib.TextEquality.{eq_iff}
use faber.Common.Tests.{str_eq, str_eq_self, if◌then◌else◌}

abbrev pub Table {ℓ} : Type ℓ → Type ℓ
Table V = List (String × V)

module _ {ℓ} {V : Type ℓ} where
  -- `v, ok := m[k]`
  unfoldable pub lookup : String → Table V → Option V
  lookup k [] = none
  lookup k ((j, v) ∷ m) = if str_eq j k then some v else lookup k m

  -- `delete(m, k)`
  unfoldable pub delete : String → Table V → Table V
  delete k [] = []
  delete k ((j, v) ∷ m) = if str_eq j k then delete k m else (j, v) ∷ delete k m

  -- `m[k] = v`
  unfoldable pub put : String → V → Table V → Table V
  put k v m = (k, v) ∷ delete k m

  pub lookup-delete :
      (k j : String) (m : Table V)
      → lookup j (delete k m) ≡ (if str_eq k j then none else lookup j m)
  unfolding lookup delete
  lookup-delete k j [] = ground arith
  lookup-delete k j ((i, v) ∷ m) =
      ground (arith, eq_iff k j, eq_iff i k, eq_iff i j, lookup-delete k j m)

  pub lookup-put :
      (k j : String) (v : V) (m : Table V)
      → lookup j (put k v m) ≡ (if str_eq k j then some v else lookup j m)
  unfolding lookup put
  lookup-put k j v m = ground (arith, lookup-delete k j m)

  pub lookup-put_self : (k : String) (v : V) (m : Table V) → lookup k (put k v m) ≡ some v
  unfolding lookup put
  lookup-put_self k v m = ground (arith, str_eq_self k)

  pub lookup-delete_self : (k : String) (m : Table V) → lookup k (delete k m) ≡ none
  lookup-delete_self k m = ground (arith, lookup-delete k k m, str_eq_self k)

  -- No key stands twice.
  abbrev pub IsUnique : Table V → Type ℓ
  IsUnique [] = Unit
  IsUnique ((k, v) ∷ m) = (lookup k m ≡ none) × IsUnique m

  pub delete-IsUnique : (k : String) (m : Table V) → IsUnique m → IsUnique (delete k m)
  unfolding delete
  delete-IsUnique k [] u = tt
  delete-IsUnique k ((j, v) ∷ m) u =
      ground (arith, eq_iff j k, delete-IsUnique k m u.1, lookup-delete k j m)

  pub put-IsUnique : (k : String) (v : V) (m : Table V) → IsUnique m → IsUnique (put k v m)
  unfolding put
  put-IsUnique k v m u = (lookup-delete_self k m, delete-IsUnique k m u)

  pub delete_absent : (k : String) (m : Table V) → lookup k m ≡ none → delete k m ≡ m
  unfolding lookup delete
  delete_absent k [] h = refl
  delete_absent k ((j, v) ∷ m) h = ground (arith, delete_absent k m)

-- `m[k]` of a `map[string]int64`: 0 where the key is missing.
abbrev pub zero_if_none : Option ℕ → ℕ
zero_if_none none = 0
zero_if_none (some n) = n

unfoldable pub amount_at : String → Table ℕ → ℕ
amount_at k m = zero_if_none (lookup k m)
