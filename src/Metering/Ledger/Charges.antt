-- ===== src/Metering/Ledger/Charges.antt =====
-- metering/admit.go: what Settle and FoldSpent do to the spent amounts.
use faber.Common.{
  ℕ, ◌≤◌, String, ◌≡◌, refl, List, [], ◌∷◌, arith, ltb, str_eq, ap, ◌∙◌, Bool-cases, inl, inr,
  if◌then◌else◌, Table, amount_at, All,
}
use faber.Metering.Cost.{Cost, max_int64, credit, amount_at-credit, sat_add, le-sat_add}
use faber.Metering.Ledger.{clamp, charge, fold_spent}
use faber.Metering.Ledger.Reservations.{IsBoundedTable, credit-IsBounded}

-- The amount is an int64 (its negative values are clamped away).
abbrev pub IsInt64 : Cost → Type 0
IsInt64 c = clamp c.amount ≤ max_int64

credit_grows :
    (u v : String) (n : ℕ) (m : Table ℕ)
    → IsBoundedTable m
    → amount_at v m ≤ amount_at v (credit u n m)
credit_grows u v n m b = ground (arith, amount_at-credit u v n m, le-sat_add (amount_at v m) n, b v)

pub charge-IsBounded :
    (cs : List Cost) (m : Table ℕ)
    → All IsInt64 cs
    → IsBoundedTable m
    → IsBoundedTable (charge cs m)
unfolding charge
charge-IsBounded [] m k b = b
charge-IsBounded (c ∷ cs) m k b =
    charge-IsBounded cs _ k.1 (credit-IsBounded c.unit (clamp c.amount) m k.0 b)

pub charge_grows :
    (cs : List Cost) (m : Table ℕ)
    → All IsInt64 cs
    → IsBoundedTable m
    → (u : String) → amount_at u m ≤ amount_at u (charge cs m)
unfolding charge
charge_grows [] m k b u = omega arith
charge_grows (c ∷ cs) m k b u =
    let next = credit c.unit (clamp c.amount) m in
    let step : amount_at u m ≤ amount_at u next = credit_grows c.unit u (clamp c.amount) m b in
    omega (arith, charge_grows cs next k.1 (credit-IsBounded c.unit (clamp c.amount) m k.0 b) u)

-- What costs add to one unit's amount.
unfoldable pub accrue : String → List Cost → ℕ → ℕ
accrue u [] n = n
accrue u (c ∷ cs) n = accrue u cs (if str_eq c.unit u then sat_add n (clamp c.amount) else n)

pub amount_at-charge :
    (u : String) (cs : List Cost) (m : Table ℕ)
    → amount_at u (charge cs m) ≡ accrue u cs (amount_at u m)
unfolding charge accrue
amount_at-charge u [] m = refl
amount_at-charge u (c ∷ cs) m =
    amount_at-charge u cs (credit c.unit (clamp c.amount) m)
    ∙ ap (accrue u cs) (amount_at-credit c.unit u (clamp c.amount) m)

sat_add-zero : (n : ℕ) → n ≤ max_int64 → sat_add n 0 ≡ n
unfolding sat_add
sat_add-zero n h = ground arith

-- A fold skips only what a charge adds nothing for.
pub amount_at-fold_spent :
    (u : String) (cs : List Cost) (m : Table ℕ)
    → All IsInt64 cs
    → IsBoundedTable m
    → amount_at u (fold_spent cs m) ≡ accrue u cs (amount_at u m)
unfolding fold_spent accrue
amount_at-fold_spent u [] m k b = refl
amount_at-fold_spent u (c ∷ cs) m k b = elim (Bool-cases (ltb 0 (clamp c.amount))) [
  | inl more ↦ rw more (
      amount_at-fold_spent u cs (credit c.unit (clamp c.amount) m) k.1
        (credit-IsBounded c.unit (clamp c.amount) m k.0 b)
      ∙ ap (accrue u cs) (amount_at-credit c.unit u (clamp c.amount) m))
  | inr less ↦ rw less (
      amount_at-fold_spent u cs m k.1 b
      ∙ ap (accrue u cs) (ground (arith, sat_add-zero (amount_at u m) (b u))))
]
