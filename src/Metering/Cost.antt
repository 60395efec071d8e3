-- ===== src/Metering/Cost.antt =====
-- metering/meter.go, and satAdd of metering/admit.go: unit-tagged amounts.
use faber.Common.{
  ℕ, ◌+◌, ◌-◌, ◌%◌, ◌≤◌, ◌<◌, min, String, ◌≡◌, Option, none, some, arith, ltb, str_eq,
  if◌then◌else◌, eq_iff, Table, put, amount_at, lookup-put,
}

-- Go's signed integers; `negsuc n` is -(n + 1).
pub data ℤ : Type 0 where
  pos : ℕ → ℤ
  negsuc : ℕ → ℤ

abbrev pub max_int64 : ℕ
max_int64 = 9223372036854775807

-- An int64 read from its 64-bit pattern.
abbrev pub of_word : ℕ → ℤ
of_word r = if ltb max_int64 r then negsuc (18446744073709551615 - r) else pos r

-- The 64-bit pattern of an int64.
abbrev pub to_word : ℤ → ℕ
to_word (pos n) = n % 18446744073709551616
to_word (negsuc n) = 18446744073709551615 - n % 18446744073709551616

-- Go's `+` on int64, which wraps.
unfoldable pub add_int64 : ℤ → ℤ → ℤ
add_int64 a b = of_word ((to_word a + to_word b) % 18446744073709551616)

pub record Cost : Type 0 where
  pub unit : String
  pub amount : ℤ

-- `Cost.Add`: `none` is the cross-unit error.
unfoldable pub add_cost : Cost → Cost → Option Cost
unfolding add_int64
add_cost c o =
    if str_eq c.unit o.unit
    then some (record { unit = c.unit; amount = add_int64 c.amount o.amount })
    else none

-- `satAdd`, on amounts that are not negative.
unfoldable pub sat_add : ℕ → ℕ → ℕ
sat_add a b = if ltb (max_int64 - b) a then max_int64 else a + b

pub sat_add-min : (a b : ℕ) → a ≤ max_int64 → b ≤ max_int64 → sat_add a b ≡ min max_int64 (a + b)
unfolding sat_add
sat_add-min a b h k = ground arith

pub sat_add_bounded : (a b : ℕ) → b ≤ max_int64 → sat_add a b ≤ max_int64
unfolding sat_add
sat_add_bounded a b k = ground arith

pub le-sat_add : (a b : ℕ) → a ≤ max_int64 → a ≤ sat_add a b
unfolding sat_add
le-sat_add a b h = ground arith

pub sat_add-le : (a b : ℕ) → b ≤ max_int64 → sat_add a b ≤ a + b
unfolding sat_add
sat_add-le a b h = ground arith

pub sat_add_mono : (a b c : ℕ) → a ≤ b → b ≤ max_int64 → c ≤ max_int64 → sat_add a c ≤ sat_add b c
unfolding sat_add
sat_add_mono a b c h k l = ground arith

-- Below the ceiling no saturation took place.
pub sat_add_exact : (a b : ℕ) → sat_add a b < max_int64 → sat_add a b ≡ a + b
unfolding sat_add
sat_add_exact a b h = ground arith

-- `m[u] = satAdd(m[u], n)`
unfoldable pub credit : String → ℕ → Table ℕ → Table ℕ
unfolding sat_add
credit u n m = put u (sat_add (amount_at u m) n) m

pub amount_at-put :
    (u v : String) (n : ℕ) (m : Table ℕ)
    → amount_at v (put u n m) ≡ (if str_eq u v then n else amount_at v m)
unfolding amount_at
amount_at-put u v n m = ground (arith, lookup-put u v n m)

pub amount_at-credit :
    (u v : String) (n : ℕ) (m : Table ℕ)
    → amount_at v (credit u n m) ≡ (if str_eq u v then sat_add (amount_at v m) n else amount_at v m)
unfolding credit
amount_at-credit u v n m =
    ground (arith, amount_at-put u v (sat_add (amount_at u m) n) m, eq_iff u v)
