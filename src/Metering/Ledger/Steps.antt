-- ===== src/Metering/Ledger/Steps.antt =====
-- metering/admit.go: the ledger under any interleaving of its critical sections.
use faber.Common.{ℕ, String, ◌≡◌, some, List, arith, Table, lookup, IsUnique, All}
use faber.Metering.Cost.{Cost}
use faber.Metering.Ledger.{
  Decision, Reservation, Ledger, reserve, charge, fold_spent, drop_reservation,
}
use faber.Metering.Ledger.Reservations.{
  AreInt64, IsLedger, take_reservation-IsLedger, drop_reservation-IsLedger,
}
use faber.Metering.Ledger.Charges.{
  IsInt64, charge-IsBounded, amount_at-charge, amount_at-fold_spent,
}
use faber.Metering.Ledger.Decisions.{Outcome, rejecting, deferring, admitting, reserve-Outcome}

-- One critical section by one goroutine: of Admit, of Settle for a node in flight, of FoldSpent.
pub data Step : Ledger → Ledger → Type 0 where
  reserving :
      (node endpoint : String) (est : Table ℕ) (l : Ledger)
      → IsUnique est
      → AreInt64 est
      → Step l (reserve node endpoint est l).1
  settling :
      (node : String) (res : Reservation) (costs : List Cost) (l : Ledger)
      → lookup node l.inflight ≡ some res
      → All IsInt64 costs
      → Step l (record (drop_reservation node res l) { spent = charge costs l.spent })
  folding :
      (costs : List Cost) (l : Ledger)
      → All IsInt64 costs
      → Step l (record l { spent = fold_spent costs l.spent })

pub data Reach (l : Ledger) : Ledger → Type 0 where
  here : Reach l l
  next : {m n : Ledger} → Reach l m → Step m n → Reach l n

fold_spent-IsLedger :
    (costs : List Cost) (l : Ledger)
    → All IsInt64 costs
    → IsLedger l
    → IsLedger (record l { spent = fold_spent costs l.spent })
fold_spent-IsLedger costs l k h = record {
  unique = h.unique;
  spent_int64 = λ u. omega (
    arith,
    amount_at-fold_spent u costs l.spent k h.spent_int64,
    amount_at-charge u costs l.spent,
    charge-IsBounded costs l.spent k h.spent_int64 u,
  );
  reserved_int64 = h.reserved_int64;
  backed = h.backed;
}

settle-IsLedger :
    (node : String) (res : Reservation) (costs : List Cost) (l : Ledger)
    → lookup node l.inflight ≡ some res
    → All IsInt64 costs
    → IsLedger l
    → IsLedger (record (drop_reservation node res l) { spent = charge costs l.spent })
settle-IsLedger node res costs l e k h =
    let d = drop_reservation-IsLedger node res l e h in
    record {
      unique = d.unique;
      spent_int64 = charge-IsBounded costs l.spent k h.spent_int64;
      reserved_int64 = d.reserved_int64;
      backed = d.backed;
    }

reserve-IsLedger :
    (node endpoint : String) (est : Table ℕ) (l : Ledger) {r : Decision × Ledger}
    → AreInt64 est
    → IsLedger l
    → Outcome node endpoint est l r
    → IsLedger r.1
reserve-IsLedger node endpoint est l k h (rejecting u e) = h
reserve-IsLedger node endpoint est l k h (deferring u e f) = h
reserve-IsLedger node endpoint est l k h (admitting e f) =
    take_reservation-IsLedger node endpoint est l k h

pub Step-IsLedger : {l m : Ledger} → Step l m → IsLedger l → IsLedger m
Step-IsLedger (reserving node endpoint est l q k) h =
    reserve-IsLedger node endpoint est l k h (reserve-Outcome node endpoint est l)
Step-IsLedger (settling node res costs l e k) h = settle-IsLedger node res costs l e k h
Step-IsLedger (folding costs l k) h = fold_spent-IsLedger costs l k h

pub Reach-IsLedger : {l m : Ledger} → IsLedger l → Reach l m → IsLedger m
Reach-IsLedger h here = h
Reach-IsLedger h (next r s) = Step-IsLedger s (Reach-IsLedger h r)
