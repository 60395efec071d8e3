-- ===== src/Metering/Admitter/Unenforced.antt =====
-- metering/admit.go: the startup warning of NewAdmitter, as the units that it names.
use faber.Common.{
  ℕ, String, ◌≡◌, ◌∙◌, refl, Option, none, some, Bool, true, false, List, [], ◌∷◌, ◌++◌, arith,
  str_eq, eq_iff, if◌then◌else◌, Table, lookup, In, inl, inr,
}
use faber.Metering.Ledger.{sorted_units}
use faber.Metering.Ledger.Decisions.{claimed-mem}

-- `none` is a meter that does not declare its units, which ends the search.
unfoldable pub joined : Option (List String) → Option (List String) → Option (List String)
joined none us = none
joined (some us) none = none
joined (some us) (some vs) = some (us ++ vs)

module _ {M : Type 0} (units : M → Option (List String)) where
  unfoldable pub reported_by : List M → Option (List String)
  unfolding joined
  reported_by [] = some []
  reported_by (m ∷ ms) = joined (units m) (reported_by ms)

  -- The units that the meters of all endpoint classes report.
  unfoldable pub reported_units : Table (List M) → Option (List String)
  unfolding joined reported_by
  reported_units [] = some []
  reported_units ((endpoint, ms) ∷ meters) = joined (reported_by ms) (reported_units meters)

unfoldable pub is_reported : List String → String → Bool
is_reported [] u = false
is_reported (v ∷ us) u = let rest = is_reported us u in if str_eq v u then true else rest

unfoldable pub unreported : List String → Table ℕ → Table ℕ
unfolding is_reported
unreported us [] = []
unreported us ((u, n) ∷ limit) =
    let rest = unreported us limit in if is_reported us u then rest else (u, n) ∷ rest

named : Option (List String) → Table ℕ → List String
unfolding unreported
named us [] = []
named none (b ∷ limit) = []
named (some us) (b ∷ limit) = sorted_units (unreported us (b ∷ limit))

-- `warnUnenforced`
unfoldable pub unenforced :
    {M : Type 0} → (M → Option (List String)) → Table (List M) → Table ℕ → List String
unfolding named reported_units
unenforced units meters limit = named (reported_units units meters) limit

lookup-unreported :
    (us : List String) (u : String) (limit : Table ℕ)
    → is_reported us u ≡ false
    → lookup u (unreported us limit) ≡ lookup u limit
unfolding lookup unreported
lookup-unreported us u [] h = refl
lookup-unreported us u ((v, n) ∷ limit) h =
    ground (arith, h, eq_iff v u, lookup-unreported us u limit)

not_reported : (us : List String) (u : String) → (¬ In u us) → is_reported us u ≡ false
unfolding is_reported
not_reported [] u h = refl
not_reported (v ∷ us) u h =
    ground (arith, eq_iff v u, not_reported us u (λ k. h (inr k)), λ (e : v ≡ u). h (inl e))

named-In :
    (us : List String) (limit : Table ℕ) (u : String) (n : ℕ)
    → lookup u limit ≡ some n
    → (¬ In u us)
    → In u (named (some us) limit)
unfolding named lookup
named-In us [] u n e h = ground (arith, e)
named-In us (b ∷ limit) u n e h =
    claimed-mem u n (unreported us (b ∷ limit))
      (lookup-unreported us u (b ∷ limit) (not_reported us u h) ∙ e)

-- Where every configured meter declares its units, a budget for a unit that none of them reports is
-- warned of.
pub unenforced_warns :
    {M : Type 0} (units : M → Option (List String)) (meters : Table (List M)) (limit : Table ℕ)
    (us : List String) (u : String) (n : ℕ)
    → reported_units units meters ≡ some us
    → lookup u limit ≡ some n
    → (¬ In u us)
    → In u (unenforced units meters limit)
unfolding unenforced
unenforced_warns units meters limit us u n r e h = rw (r, unenforced) (named-In us limit u n e h)
