-- ===== src/Metering/Ledger/Reservations.antt =====
-- metering/admit.go: what reserve and release do to the reserved and in-flight amounts.
use faber.Common.{
  ℕ, ◌+◌, ◌-◌, ◌≤◌, String, ◌≡◌, refl, some, [], ◌∷◌, arith, str_eq, if◌then◌else◌, eq_iff, Table,
  lookup, delete, put, amount_at, IsUnique, delete_absent, delete-IsUnique, put-IsUnique, inl, inr,
  Option-cases, Bool-cases,
}
use faber.Metering.Cost.{
  max_int64, credit, amount_at-put, amount_at-credit, sat_add-min, sat_add_bounded, sat_add-le,
}
use faber.Metering.Ledger.{
  Ledger, Reservation, hold, release, release_node, take_reservation, drop_reservation,
}

-- What a table of claims holds for a unit.
unfoldable pub claim : String → Table ℕ → ℕ
claim u [] = 0
claim u ((v, n) ∷ est) = (if str_eq v u then n else 0) + claim u est

-- What all reservations in flight hold for a unit.
unfoldable pub in_flight : String → Table Reservation → ℕ
in_flight u [] = 0
in_flight u ((node, res) ∷ m) = claim u res.held + in_flight u m

-- Releasing subtracts the claim, stopping at zero.
pub amount_at-release :
    (u : String) (held reserved : Table ℕ)
    → amount_at u (release held reserved) ≡ amount_at u reserved - claim u held
unfolding release claim
amount_at-release u [] reserved = omega arith
amount_at-release u ((v, n) ∷ held) reserved = ground (
  arith,
  amount_at-release u held (put v 0 reserved),
  amount_at-release u held (put v (amount_at v reserved - n) reserved),
  amount_at-put v u 0 reserved,
  amount_at-put v u (amount_at v reserved - n) reserved,
  eq_iff v u,
)

abbrev pub IsBoundedTable : Table ℕ → Type 0
IsBoundedTable m = (u : String) → amount_at u m ≤ max_int64

-- Every claim of a table is an int64.
abbrev pub AreInt64 : Table ℕ → Type 0
AreInt64 [] = Unit
AreInt64 ((u, n) ∷ m) = (n ≤ max_int64) × AreInt64 m

pub credit-IsBounded :
    (u : String) (n : ℕ) (m : Table ℕ)
    → n ≤ max_int64
    → IsBoundedTable m
    → IsBoundedTable (credit u n m)
credit-IsBounded u n m k b v =
    ground (arith, amount_at-credit u v n m, sat_add_bounded (amount_at v m) n, b v)

pub hold-IsBounded :
    (est m : Table ℕ) → AreInt64 est → IsBoundedTable m → IsBoundedTable (hold est m)
unfolding hold
hold-IsBounded [] m k b = b
hold-IsBounded ((u, n) ∷ est) m k b =
    hold-IsBounded est (credit u n m) k.1 (credit-IsBounded u n m k.0 b)

pub release-IsBounded : (held m : Table ℕ) → IsBoundedTable m → IsBoundedTable (release held m)
release-IsBounded held m b u = omega (arith, amount_at-release u held m, b u)

-- Holding adds the claim, unless it saturates.
pub amount_at-hold-le :
    (u : String) (est m : Table ℕ)
    → AreInt64 est
    → amount_at u (hold est m) ≤ amount_at u m + claim u est
unfolding hold claim
amount_at-hold-le u [] m k = omega arith
amount_at-hold-le u ((v, n) ∷ est) m k = ground (
  arith,
  amount_at-hold-le u est (credit v n m) k.1,
  amount_at-credit v u n m,
  sat_add-le (amount_at u m) n k.0,
)

pub amount_at-hold :
    (u : String) (est m : Table ℕ)
    → AreInt64 est
    → IsBoundedTable m
    → amount_at u m + claim u est ≤ max_int64
    → amount_at u (hold est m) ≡ amount_at u m + claim u est
unfolding hold claim
amount_at-hold u [] m k b f = omega arith
amount_at-hold u ((v, n) ∷ est) m k b f = ground (
  arith,
  amount_at-hold u est (credit v n m) k.1 (credit-IsBounded v n m k.0 b),
  amount_at-credit v u n m,
  sat_add-min (amount_at u m) n (b u) k.0,
)

in_flight-delete :
    (u node : String) (m : Table Reservation) (res : Reservation)
    → IsUnique m
    → lookup node m ≡ some res
    → in_flight u (delete node m) + claim u res.held ≡ in_flight u m
unfolding in_flight lookup delete
in_flight-delete u node [] res q h = ground arith
in_flight-delete u node ((j, r) ∷ m) res q h = elim (Bool-cases (str_eq j node)) [
  | inl here ↦ ground (arith, eq_iff j node, delete_absent node m)
  | inr other ↦ ground (arith, in_flight-delete u node m res q.1)
]

-- An absent node holds nothing, and leaves the table as it is.
pub in_flight-put :
    (u node : String) (m : Table Reservation) (res : Reservation)
    → in_flight u (put node res m) ≡ claim u res.held + in_flight u (delete node m)
unfolding in_flight put
in_flight-put u node m res = refl

-- No reservation is lost: what is reserved is at most what the reservations in flight hold, every
-- amount is an int64, and a node has one reservation at most.
pub record IsLedger (l : Ledger) : Type 0 where
  pub unique : IsUnique l.inflight
  pub spent_int64 : IsBoundedTable l.spent
  pub reserved_int64 : IsBoundedTable l.reserved
  pub backed : (u : String) → amount_at u l.reserved ≤ in_flight u l.inflight

release_node-IsBounded :
    (node : String) (l : Ledger) → IsLedger l → IsBoundedTable (release_node node l)
unfolding release_node
release_node-IsBounded node l h u = elim (Option-cases (lookup node l.inflight)) [
  | inl e ↦ rw (e, release_node) (h.reserved_int64 u)
  | inr (res, e) ↦ rw (e, release_node) (release-IsBounded res.held l.reserved h.reserved_int64 u)
]

release_node-backed :
    (node : String) (l : Ledger) (u : String)
    → IsLedger l
    → amount_at u (release_node node l) ≤ in_flight u (delete node l.inflight)
unfolding release_node
release_node-backed node l u h = elim (Option-cases (lookup node l.inflight)) [
  | inl e ↦ rw (e, release_node, delete_absent node l.inflight e) (h.backed u)
  | inr (res, e) ↦
      rw (e, release_node)
        (omega (
          arith,
          amount_at-release u res.held l.reserved,
          in_flight-delete u node l.inflight res h.unique e,
          h.backed u,
        ))
]

pub take_reservation-IsLedger :
    (node endpoint : String) (est : Table ℕ) (l : Ledger)
    → AreInt64 est
    → IsLedger l
    → IsLedger (take_reservation node endpoint est l)
unfolding take_reservation
take_reservation-IsLedger node endpoint est l k h = record {
  unique = put-IsUnique node _ l.inflight h.unique;
  spent_int64 = h.spent_int64;
  reserved_int64 = hold-IsBounded est _ k (release_node-IsBounded node l h);
  backed = λ u.
      let res : Reservation = record { endpoint = endpoint; held = est } in
      omega (
        arith,
        amount_at-hold-le u est (release_node node l) k,
        release_node-backed node l u h,
        in_flight-put u node l.inflight res,
      );
}

pub drop_reservation-IsLedger :
    (node : String) (res : Reservation) (l : Ledger)
    → lookup node l.inflight ≡ some res
    → IsLedger l
    → IsLedger (drop_reservation node res l)
unfolding drop_reservation
drop_reservation-IsLedger node res l e h = record {
  unique = delete-IsUnique node l.inflight h.unique;
  spent_int64 = h.spent_int64;
  reserved_int64 = release-IsBounded res.held l.reserved h.reserved_int64;
  backed = λ u. omega (
    arith,
    amount_at-release u res.held l.reserved,
    in_flight-delete u node l.inflight res h.unique e,
    h.backed u,
  );
}
