-- ===== src/Metering/Ledger/Decisions.antt =====
-- metering/admit.go: which decision the locked section of Admit takes.
use faber.Common.{
  ℕ, ◌≤◌, ◌<◌, String, ◌≡◌, refl, Option, none, some, List, [], ◌∷◌, map, arith, ltb, eq_iff, Table,
  lookup, amount_at, IsUnique, inl, inr, Option-cases, Bool-cases, In, ltb→lt,
}
use faber.Metering.Cost.{sat_add}
use faber.Metering.Ledger.{
  Decision, admitted, deferred, rejected, Ledger, sorted_units, sort_units, insert_unit, exhausted,
  contended, reserve, verdict, take_reservation,
}
use faber.Metering.Ledger.Reservations.{claim}

keys : Table ℕ → List String
keys m = map (λ e. e.0) m

insert_unit-mem : (u v : String) (us : List String) → In v (u ∷ us) → In v (insert_unit u us)
unfolding insert_unit
insert_unit-mem u v [] h = h
insert_unit-mem u v (w ∷ ws) h = ground (arith, insert_unit-mem u v ws)

mem-insert_unit : (u v : String) (us : List String) → In v (insert_unit u us) → In v (u ∷ us)
unfolding insert_unit
mem-insert_unit u v [] h = h
mem-insert_unit u v (w ∷ ws) h = ground (arith, mem-insert_unit u v ws)

sort_units-mem : (v : String) (us : List String) → In v us → In v (sort_units us)
unfolding sort_units
sort_units-mem v [] h = h
sort_units-mem v (u ∷ us) (inl e) = insert_unit-mem u v (sort_units us) (inl e)
sort_units-mem v (u ∷ us) (inr h) =
    insert_unit-mem u v (sort_units us) (inr (sort_units-mem v us h))

mem-sort_units : (v : String) (us : List String) → In v (sort_units us) → In v us
unfolding sort_units
mem-sort_units v [] h = h
mem-sort_units v (u ∷ us) h = elim (mem-insert_unit u v (sort_units us) h) [
  | inl e ↦ inl e
  | inr k ↦ inr (mem-sort_units v us k)
]

lookup-some-mem : (v : String) (n : ℕ) (m : Table ℕ) → lookup v m ≡ some n → In v (map (λ e. e.0) m)
unfolding lookup
lookup-some-mem v n [] h = ground arith
lookup-some-mem v n ((u, k) ∷ m) h = ground (arith, eq_iff u v, lookup-some-mem v n m)

-- A unit that is claimed is visited.
pub claimed-mem : (v : String) (n : ℕ) (m : Table ℕ) → lookup v m ≡ some n → In v (sorted_units m)
unfolding sorted_units
claimed-mem v n m h = sort_units-mem v _ (lookup-some-mem v n m h)

pub exhausted-none :
    (l : Ledger) (est : Table ℕ) (us : List String) (u : String) (limit : ℕ)
    → exhausted l est us ≡ none
    → In u us
    → lookup u l.limit ≡ some limit
    → sat_add (amount_at u l.spent) (amount_at u est) ≤ limit
unfolding exhausted
exhausted-none l est [] u limit h m k = elim m [ ]
exhausted-none l est (v ∷ us) u limit h m k = ground (arith, exhausted-none l est us u limit)

pub contended-none :
    (l : Ledger) (est : Table ℕ) (us : List String) (u : String) (limit : ℕ)
    → contended l est us ≡ none
    → In u us
    → lookup u l.limit ≡ some limit
    → sat_add (sat_add (amount_at u l.spent) (amount_at u l.reserved)) (amount_at u est) ≤ limit
unfolding contended
contended-none l est [] u limit h m k = elim m [ ]
contended-none l est (v ∷ us) u limit h m k = ground (arith, contended-none l est us u limit)

-- The unit at which the first loop stops is budgeted, visited and over its limit.
pub exhausted-some :
    (l : Ledger) (est : Table ℕ) (us : List String) (u : String)
    → exhausted l est us ≡ some u
    → (limit : ℕ) × (lookup u l.limit ≡ some limit)
      × (limit < sat_add (amount_at u l.spent) (amount_at u est))
      × In u us
unfolding exhausted
exhausted-some l est [] u h = ground arith
exhausted-some l est (v ∷ us) u h = elim (Option-cases (lookup v l.limit)) [
  | inl e ↦
      let (n, budgeted, over, visited) = exhausted-some l est us u (ground arith) in
      (n, budgeted, over, inr visited)
  | inr (n, e) ↦ elim (Bool-cases (ltb n (sat_add (amount_at v l.spent) (amount_at v est)))) [
    | inl over ↦
        let here : v ≡ u = ground arith in
        (n, rw (← here) e, rw (← here) (ltb→lt _ _ over), inl here)
    | inr fits ↦
        let (n', budgeted, over, visited) = exhausted-some l est us u (ground arith) in
        (n', budgeted, over, inr visited)
  ]
]

-- Where a visited, budgeted unit is over its limit, the first loop stops.
pub exhausted_of_over :
    (l : Ledger) (est : Table ℕ) (us : List String) (u : String) (limit : ℕ)
    → lookup u l.limit ≡ some limit
    → limit < sat_add (amount_at u l.spent) (amount_at u est)
    → In u us
    → (v : String) × (exhausted l est us ≡ some v)
exhausted_of_over l est us u limit k over m = elim (Option-cases (exhausted l est us)) [
  | inl e ↦ absurd (omega (arith, exhausted-none l est us u limit e m k))
  | inr found ↦ found
]

claim_absent : (u : String) (m : Table ℕ) → lookup u m ≡ none → claim u m ≡ 0
unfolding claim lookup
claim_absent u [] h = refl
claim_absent u ((v, n) ∷ m) h = ground (arith, claim_absent u m)

-- Where a unit stands once, it claims its amount.
pub claim-amount_at : (u : String) (m : Table ℕ) → IsUnique m → claim u m ≡ amount_at u m
unfolding claim amount_at lookup
claim-amount_at u [] q = refl
claim-amount_at u ((v, n) ∷ m) q =
    ground (arith, eq_iff v u, claim_absent u m, claim-amount_at u m q.1)

-- The three outcomes of the locked section, with what was found out on the way.
pub data Outcome (node endpoint : String) (est : Table ℕ) (l : Ledger)
    : Decision × Ledger → Type 0 where
  rejecting :
      (u : String)
      → exhausted l est (sorted_units est) ≡ some u
      → Outcome node endpoint est l (rejected u, l)
  deferring :
      (u : String)
      → exhausted l est (sorted_units est) ≡ none
      → contended l est (sorted_units est) ≡ some u
      → Outcome node endpoint est l (deferred none, l)
  admitting :
      exhausted l est (sorted_units est) ≡ none
      → contended l est (sorted_units est) ≡ none
      → Outcome node endpoint est l (admitted, take_reservation node endpoint est l)

verdict-Outcome :
    (node endpoint : String) (est : Table ℕ) (l : Ledger) (over held : Option String)
    → exhausted l est (sorted_units est) ≡ over
    → contended l est (sorted_units est) ≡ held
    → Outcome node endpoint est l (verdict node endpoint est l over held)
unfolding verdict
verdict-Outcome node endpoint est l (some u) held e f = rejecting u e
verdict-Outcome node endpoint est l none (some u) e f = deferring u e f
verdict-Outcome node endpoint est l none none e f = admitting e f

pub reserve-Outcome :
    (node endpoint : String) (est : Table ℕ) (l : Ledger)
    → Outcome node endpoint est l (reserve node endpoint est l)
unfolding reserve
reserve-Outcome node endpoint est l = verdict-Outcome node endpoint est l _ _ refl refl
