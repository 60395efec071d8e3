-- ===== src/Metering/Ledger/Budgets.antt =====
-- metering/admit.go: the ledger and the declared budgets.
use faber.Common.{
  ℕ, ◌+◌, ◌≤◌, ◌<◌, String, ◌≡◌, refl, some, [], ◌∷◌, arith, Table, lookup, amount_at, IsUnique,
  Option-cases, inl, inr, subst, ◌∙◌,
}
use faber.Metering.Cost.{max_int64, sat_add, sat_add_exact, sat_add_mono}
use faber.Metering.Ledger.{
  admit, reject, Decision, Ledger, sorted_units, exhausted, reserve, take_reservation,
  drop_reservation, release_node,
}
use faber.Metering.Ledger.Reservations.{
  in_flight, AreInt64, IsLedger, amount_at-hold-le, amount_at-release,
}
use faber.Metering.Ledger.Charges.{charge_grows, amount_at-charge, amount_at-fold_spent}
use faber.Metering.Ledger.Decisions.{
  Outcome, rejecting, deferring, admitting, reserve-Outcome, exhausted-some, exhausted_of_over,
  contended-none, claimed-mem, claim-amount_at,
}
use faber.Metering.Ledger.Steps.{
  Step, reserving, settling, folding, Reach, here, next, Reach-IsLedger,
}

-- When nothing is in flight, nothing is reserved, whatever ran before.
pub idle_reserves_nothing :
    {l m : Ledger}
    → IsLedger l
    → Reach l m
    → m.inflight ≡ []
    → (u : String) → amount_at u m.reserved ≡ 0
unfolding in_flight
idle_reserves_nothing {m = m} h r e u =
    let bound : amount_at u m.reserved ≤ in_flight u [] =
      subst (λ t. amount_at u m.reserved ≤ in_flight u t) e ((Reach-IsLedger h r).backed u) in
    omega (arith, bound)

amount_at-AreInt64 : (u : String) (m : Table ℕ) → AreInt64 m → amount_at u m ≤ max_int64
unfolding amount_at lookup
amount_at-AreInt64 u [] k = omega arith
amount_at-AreInt64 u ((v, n) ∷ m) k = ground (arith, amount_at-AreInt64 u m k.1)

release_node-le :
    (node : String) (l : Ledger) (u : String)
    → amount_at u (release_node node l) ≤ amount_at u l.reserved
unfolding release_node
release_node-le node l u = elim (Option-cases (lookup node l.inflight)) [
  | inl e ↦ rw (e, release_node) (omega arith)
  | inr (res, e) ↦ rw (e, release_node) (omega (arith, amount_at-release u res.held l.reserved))
]

admit_fits :
    (node endpoint : String) (est : Table ℕ) (l : Ledger) {r : Decision × Ledger} (u : String)
    (n limit : ℕ)
    → IsUnique est
    → AreInt64 est
    → lookup u est ≡ some n
    → lookup u l.limit ≡ some limit
    → limit < max_int64
    → Outcome node endpoint est l r
    → r.0.kind ≡ admit
    → amount_at u r.1.spent + amount_at u r.1.reserved ≤ limit
unfolding take_reservation
admit_fits node endpoint est l u n limit q k c b lt (rejecting v e) h = cc
admit_fits node endpoint est l u n limit q k c b lt (deferring v e f) h = cc
admit_fits node endpoint est l u n limit q k c b lt (admitting e f) h =
    let fits = contended-none l est (sorted_units est) u limit f (claimed-mem u n est c) b in
    omega (
      arith,
      fits,
      sat_add_exact (sat_add (amount_at u l.spent) (amount_at u l.reserved)) (amount_at u est),
      sat_add_exact (amount_at u l.spent) (amount_at u l.reserved),
      amount_at-hold-le u est (release_node node l) k,
      release_node-le node l u,
      claim-amount_at u est q,
    )

-- An admitted step's claims fit: with claims that are int64 and a limit below the largest int64, in
-- every budgeted unit that it claims, what is spent and what is reserved, its own claim included,
-- stay within the limit.
pub reserve_within_limit :
    (node endpoint : String) (est : Table ℕ) (l : Ledger) (u : String) (n limit : ℕ)
    → IsUnique est
    → AreInt64 est
    → lookup u est ≡ some n
    → lookup u l.limit ≡ some limit
    → limit < max_int64
    → (reserve node endpoint est l).0.kind ≡ admit
    → amount_at u (reserve node endpoint est l).1.spent
        + amount_at u (reserve node endpoint est l).1.reserved
      ≤ limit
reserve_within_limit node endpoint est l u n limit q k c b lt h =
    admit_fits node endpoint est l u n limit q k c b lt (reserve-Outcome node endpoint est l) h

abbrev Grows : Ledger → Ledger → Type 0
Grows l m = (m.limit ≡ l.limit) × ((u : String) → amount_at u l.spent ≤ amount_at u m.spent)

reserve-Grows :
    (node endpoint : String) (est : Table ℕ) (l : Ledger) {r : Decision × Ledger}
    → Outcome node endpoint est l r
    → Grows l r.1
unfolding take_reservation
reserve-Grows node endpoint est l (rejecting u e) = (refl, λ u. omega arith)
reserve-Grows node endpoint est l (deferring u e f) = (refl, λ u. omega arith)
reserve-Grows node endpoint est l (admitting e f) = (refl, λ u. omega arith)

Step-Grows : {l m : Ledger} → IsLedger l → Step l m → Grows l m
unfolding drop_reservation
Step-Grows h (reserving node endpoint est l q k) =
    reserve-Grows node endpoint est l (reserve-Outcome node endpoint est l)
Step-Grows h (settling node res costs l e k) = (refl, charge_grows costs l.spent k h.spent_int64)
Step-Grows h (folding costs l k) = (
  refl,
  λ u. omega (
    arith,
    charge_grows costs l.spent k h.spent_int64 u,
    amount_at-charge u costs l.spent,
    amount_at-fold_spent u costs l.spent k h.spent_int64,
  ),
)

Reach-Grows : {l m : Ledger} → IsLedger l → Reach l m → Grows l m
Reach-Grows h here = (refl, λ u. omega arith)
Reach-Grows h (next r s) =
    let before = Reach-Grows h r in
    let after = Step-Grows (Reach-IsLedger h r) s in
    (after.0 ∙ before.0, λ u. omega (arith, before.1 u, after.1 u))

reject_found :
    (node endpoint : String) (est : Table ℕ) (l : Ledger) {r : Decision × Ledger}
    → Outcome node endpoint est l r
    → r.0.kind ≡ reject
    → (u : String) × (exhausted l est (sorted_units est) ≡ some u)
reject_found node endpoint est l (rejecting u e) h = (u, e)
reject_found node endpoint est l (deferring u e f) h = cc
reject_found node endpoint est l (admitting e f) h = cc

rejects_found :
    (node endpoint : String) (est : Table ℕ) (l : Ledger) {r : Decision × Ledger} (u : String)
    → Outcome node endpoint est l r
    → exhausted l est (sorted_units est) ≡ some u
    → r.0.kind ≡ reject
rejects_found node endpoint est l u (rejecting v e) h = refl
rejects_found node endpoint est l u (deferring v e f) h = cc
rejects_found node endpoint est l u (admitting e f) h = cc

-- With claims that are int64, a rejection from a well-formed ledger is permanent: after any further
-- steps the same estimate is rejected again, for whatever node and endpoint asks.
pub reject_permanent :
    (node endpoint node' endpoint' : String) (est : Table ℕ) {l m : Ledger}
    → IsLedger l
    → AreInt64 est
    → Reach l m
    → (reserve node endpoint est l).0.kind ≡ reject
    → (reserve node' endpoint' est m).0.kind ≡ reject
reject_permanent node endpoint node' endpoint' est {l} {m} h k r rej =
    let (u, stop) = reject_found node endpoint est l (reserve-Outcome node endpoint est l) rej in
    let (n, budgeted, over, visited) = exhausted-some l est (sorted_units est) u stop in
    let grown = Reach-Grows h r in
    let later : n < sat_add (amount_at u m.spent) (amount_at u est) = omega (
      arith,
      over,
      sat_add_mono (amount_at u l.spent) (amount_at u m.spent) (amount_at u est) (grown.1 u)
          ((Reach-IsLedger h r).spent_int64 u) (amount_at-AreInt64 u est k),
    ) in
    let (v, again) =
      exhausted_of_over m est (sorted_units est) u n (rw grown.0 budgeted) later visited in
    rejects_found node' endpoint' est m v (reserve-Outcome node' endpoint' est m) again
