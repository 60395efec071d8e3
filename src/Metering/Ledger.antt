-- ===== src/Metering/Ledger.antt =====
-- metering/admit.go: the budget ledger that Admit, Settle and FoldSpent share under one mutex.
-- Each definition is one critical section, or a loop of one; the text of a decision's detail is
-- left out.
pub mod Reservations
pub mod Charges
pub mod Decisions
pub mod Steps
pub mod Budgets
use faber.Common.{
  ℕ, ◌-◌, String, Option, none, some, List, [], ◌∷◌, map, ltb, str_lt, if◌then◌else◌, Table, lookup,
  delete, put, amount_at,
}
use faber.Metering.Cost.{ℤ, pos, negsuc, Cost, sat_add, credit}

pub data Kind : Type 0 where
  admit defer reject : Kind

-- `until` is the zero time as `none`.
pub record Decision : Type 0 where
  pub kind : Kind
  pub until : Option ℕ
  pub budget : String

pub record Reservation : Type 0 where
  pub endpoint : String
  pub held : Table ℕ

pub record Ledger : Type 0 where
  pub limit : Table ℕ
  pub spent : Table ℕ
  pub reserved : Table ℕ
  pub inflight : Table Reservation

insert_unit : String → List String → List String
insert_unit u [] = u ∷ []
insert_unit u (v ∷ vs) = if str_lt v u then v ∷ insert_unit u vs else u ∷ v ∷ vs

sort_units : List String → List String
unfolding insert_unit
sort_units [] = []
sort_units (u ∷ us) = insert_unit u (sort_units us)

-- `sortedUnits`
unfoldable pub sorted_units : Table ℕ → List String
unfolding sort_units
sorted_units m = sort_units (map (λ e. e.0) m)

-- The first budgeted unit, in the order given, for which spent + est exceeds the limit.
unfoldable pub exhausted : Ledger → Table ℕ → List String → Option String
unfolding amount_at sat_add
exhausted l est [] = none
exhausted l est (u ∷ us) =
    let rest = exhausted l est us in
    elim (lookup u l.limit) [
      | none ↦ rest
      | some limit ↦
          if ltb limit (sat_add (amount_at u l.spent) (amount_at u est)) then some u else rest
    ]

-- The first budgeted unit for which spent + reserved + est exceeds the limit.
unfoldable pub contended : Ledger → Table ℕ → List String → Option String
unfolding amount_at sat_add
contended l est [] = none
contended l est (u ∷ us) =
    let rest = contended l est us in
    elim (lookup u l.limit) [
      | none ↦ rest
      | some limit ↦
          if ltb limit
            (sat_add (sat_add (amount_at u l.spent) (amount_at u l.reserved)) (amount_at u est))
          then some u
          else rest
    ]

-- `for u, n := range est { a.reserved[u] = satAdd(a.reserved[u], n) }`
unfoldable pub hold : Table ℕ → Table ℕ → Table ℕ
hold [] reserved = reserved
hold ((u, n) ∷ est) reserved = hold est (credit u n reserved)

-- `release`
unfoldable pub release : Table ℕ → Table ℕ → Table ℕ
release [] reserved = reserved
release ((u, n) ∷ held) reserved = release held (
    if ltb (amount_at u reserved) n
    then put u 0 reserved
    else put u (amount_at u reserved - n) reserved)

-- The release of a node's earlier reservation, if it has one.
unfoldable pub release_node : String → Ledger → Table ℕ
release_node node l = elim (lookup node l.inflight) [
  | none ↦ l.reserved
  | some prev ↦ release prev.held l.reserved
]

abbrev pub admitted : Decision
admitted = record { kind = admit; until = none; budget = "" }

abbrev pub deferred : Option ℕ → Decision
deferred until = record { kind = defer; until = until; budget = "" }

abbrev pub rejected : String → Decision
rejected u = record { kind = reject; until = none; budget = u }

unfoldable pub take_reservation : String → String → Table ℕ → Ledger → Ledger
take_reservation node endpoint est l = record l {
  reserved = hold est (release_node node l);
  inflight = put node (record { endpoint = endpoint; held = est }) l.inflight;
}

-- The decision, from where the two loops stopped.
unfoldable pub verdict :
    String → String → Table ℕ → Ledger → Option String → Option String → Decision × Ledger
verdict node endpoint est l (some u) _ = (rejected u, l)
verdict node endpoint est l none (some u) = (deferred none, l)
verdict node endpoint est l none none = (admitted, take_reservation node endpoint est l)

-- The locked section of `Admit`.
unfoldable pub reserve : String → String → Table ℕ → Ledger → Decision × Ledger
unfolding verdict
reserve node endpoint est l =
    let units = sorted_units est in
    verdict node endpoint est l (exhausted l est units) (contended l est units)

-- The head of `Settle` for a node with a reservation: it leaves the ledger.
unfoldable pub drop_reservation : String → Reservation → Ledger → Ledger
drop_reservation node res l = record l {
  inflight = delete node l.inflight;
  reserved = release res.held l.reserved;
}

-- An actual is clamped at zero before it is charged.
abbrev pub clamp : ℤ → ℕ
clamp (pos n) = n
clamp (negsuc n) = 0

-- The inner loop of `Settle`: the ledger, and the actuals as they are journaled.
unfoldable pub charge : List Cost → Table ℕ → Table ℕ
charge [] spent = spent
charge (c ∷ cs) spent = charge cs (credit c.unit (clamp c.amount) spent)

unfoldable pub charged : List Cost → List Cost
charged = map (λ (c : Cost). record c { amount = pos (clamp c.amount) })

-- `FoldSpent`
unfoldable pub fold_spent : List Cost → Table ℕ → Table ℕ
fold_spent [] spent = spent
fold_spent (c ∷ cs) spent =
    fold_spent cs (if ltb 0 (clamp c.amount) then credit c.unit (clamp c.amount) spent else spent)
