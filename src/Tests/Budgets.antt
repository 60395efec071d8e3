-- ===== src/Tests/Budgets.antt =====
-- metering/admit.go at concrete ledgers and meters.
use faber.Common.{
  ℕ, ◌+◌, ◌≤◌, String, Bool, true, false, Option, none, some, List, [], ◌∷◌, Table, In, inl, inr,
  eq_iff, lookup, amount_at, ◌≡◌, refl, subst, All, arith, if◌then◌else◌,
}
use faber.Metering.Cost.{pos, max_int64, credit}
use faber.Metering.Ledger.{
  admit, defer, reject, Decision, Reservation, Ledger, reserve, take_reservation, drop_reservation,
  exhausted, contended, hold, sorted_units, fold_spent, charge,
}
use faber.Metering.Ledger.Reservations.{claim, IsLedger}
use faber.Metering.Ledger.Charges.{IsInt64}
use faber.Metering.Ledger.Steps.{here, next, folding}
use faber.Metering.Ledger.Budgets.{reserve_within_limit, reject_permanent}
use faber.Metering.Admitter.{
  Step, Status, ResultView, Estimate, MeterApi, Admitter, new_admitter, admit_step, settle_step,
  participates,
}
use faber.Metering.Admitter.Hooks.{ReportsInt64, start, admit_call, settle_call}
use faber.Metering.Admitter.Promises.{Hooks-idle, settle_twice, admit_fails_closed, take-drop}
use mathlib.Core.Option.{some-injective}
use faber.Metering.Admitter.Unenforced.{unenforced, unenforced_warns, reported_units}

-- Ten of a hundred tokens are claimed, twenty are spent and thirty reserved.
abbrev shared : Ledger
shared = record {
  limit = ("tokens", 100) ∷ [];
  spent = ("tokens", 20) ∷ [];
  reserved = ("tokens", 30) ∷ [];
  inflight = ("b", record { endpoint = "api"; held = ("tokens", 30) ∷ [] }) ∷ [];
}

abbrev ten : Table ℕ
ten = ("tokens", 10) ∷ []

abbrev sixty : Table ℕ
sixty = ("tokens", 60) ∷ []

abbrev many : Table ℕ
many = ("tokens", 101) ∷ []

reserve_admits : (reserve "a" "api" ten shared).0.kind ≡ admit
unfolding reserve exhausted sorted_units lookup contended
reserve_admits = refl

reserve_defers : (reserve "a" "api" sixty shared).0.kind ≡ defer
unfolding reserve exhausted sorted_units lookup contended
reserve_defers = refl

reserve_within_limit_example :
    amount_at "tokens" (reserve "a" "api" ten shared).1.spent
      + amount_at "tokens" (reserve "a" "api" ten shared).1.reserved
    ≤ 100
unfolding reserve lookup exhausted sorted_units contended
reserve_within_limit_example =
    reserve_within_limit "a" "api" ten shared "tokens" 10 100 (refl, tt) (omega arith, tt) refl refl
      (omega arith) refl

abbrev fresh : Ledger
fresh = record { limit = ("tokens", 100) ∷ []; spent = []; reserved = []; inflight = [] }

abbrev five_more : Ledger
five_more = record fresh {
  spent = fold_spent (record { unit = "tokens"; amount = pos 5 } ∷ []) fresh.spent;
}

fresh-IsLedger : IsLedger fresh
unfolding amount_at lookup
fresh-IsLedger = record {
  unique = tt;
  spent_int64 = λ u. omega arith;
  reserved_int64 = λ u. omega arith;
  backed = λ u. omega arith;
}

reject_permanent_example : (reserve "b" "api" many five_more).0.kind ≡ reject
unfolding reserve exhausted sorted_units lookup take_reservation faber.Metering.Ledger.release_node
    faber.Common.put faber.Common.delete fold_spent credit
reject_permanent_example =
    reject_permanent "a" "b" "api" "api" many fresh-IsLedger (omega arith, tt)
      (next here
        (folding (record { unit = "tokens"; amount = pos 5 } ∷ []) fresh (omega arith, tt)))
      refl

-- A meter that estimates ten tokens and bills seven, or that fails to estimate.
abbrev fixed_meter : MeterApi Bool
fixed_meter = record {
  estimate = λ m s. (
    if m
        then some (record {
          costs = record { unit = "tokens"; amount = pos 10 } ∷ [];
          defer_until = none;
        })
        else none,
    m,
  );
  actual = λ m r. (some (record { unit = "tokens"; amount = pos 7 } ∷ []), m);
  units = λ m. some ("tokens" ∷ []);
  release_estimate = λ m node. m;
}

estimate-IsInt64 :
    (m : Bool) (s : Step) (e : Estimate)
    → (fixed_meter.estimate m s).0 ≡ some e
    → All IsInt64 e.costs
estimate-IsInt64 true s e h =
    subst (λ x. All IsInt64 x.costs) (some-injective _ e h) ((omega arith, tt))
estimate-IsInt64 false s e h = ground arith

fixed_meter-ReportsInt64 : ReportsInt64 fixed_meter
fixed_meter-ReportsInt64 = record {
  estimates = estimate-IsInt64;
  actuals = λ m r cs k h. subst (All IsInt64) (some-injective _ cs h) ((omega arith, tt));
}

abbrev step_a : Step
step_a = record { node_id = "a"; template = "implement"; endpoint = "api"; prompt = none }

abbrev result_a : ResultView
result_a = record { node_id = "a"; status = Status.ok; usage = none; elapsed = 3 }

abbrev metered : Admitter Bool
unfolding new_admitter
metered = new_admitter (("api", true ∷ []) ∷ []) (("tokens", 100) ∷ [])

abbrev unmeasured : Admitter Bool
unfolding new_admitter
unmeasured = new_admitter (("api", false ∷ []) ∷ []) (("tokens", 100) ∷ [])

Hooks-idle_example :
    amount_at "tokens"
      (settle_step fixed_meter result_a (admit_step fixed_meter step_a metered).1).1.ledger.reserved
    ≡ 0
unfolding admit_step settle_step lookup new_admitter faber.Metering.Admitter.gather reserve
    exhausted sorted_units credit faber.Common.put faber.Common.delete contended take_reservation
Hooks-idle_example =
    Hooks-idle fixed_meter fixed_meter-ReportsInt64 (("api", true ∷ []) ∷ []) (("tokens", 100) ∷ [])
      (settle_call result_a tt (admit_call step_a start)) refl "tokens"

settle_twice_example :
    settle_step fixed_meter result_a
      (settle_step fixed_meter result_a (admit_step fixed_meter step_a metered).1).1
    ≡ ([], (settle_step fixed_meter result_a (admit_step fixed_meter step_a metered).1).1)
settle_twice_example =
    settle_twice fixed_meter result_a result_a (admit_step fixed_meter step_a metered).1 refl

admit_fails_closed_example :
    ((admit_step fixed_meter step_a unmeasured).0 ≡ none)
    × ((admit_step fixed_meter step_a unmeasured).1.ledger ≡ unmeasured.ledger)
unfolding lookup participates unmeasured
admit_fails_closed_example =
    admit_fails_closed fixed_meter step_a unmeasured [] [] false refl refl refl

thirty_reserved : (u : String) → amount_at u shared.reserved ≤ max_int64
unfolding amount_at lookup
thirty_reserved u = ground arith

take-drop_example :
    let res : Reservation = record { endpoint = "api"; held = ten } in
    let taken = take_reservation "a" "api" ten shared in
    (lookup "a" taken.inflight ≡ some res)
    × (amount_at "tokens" (drop_reservation "a" res taken).reserved
        ≡ amount_at "tokens" shared.reserved)
unfolding lookup amount_at claim
take-drop_example =
    take-drop "a" "api" ten shared "tokens" refl (omega arith, tt) thirty_reserved (omega arith)

not_usd : ¬ In "usd" ("tokens" ∷ [])
not_usd (inl e) = ground (arith, e, eq_iff "tokens" "usd")
not_usd (inr e) = e

unenforced_warns_example :
    In "usd"
      (unenforced fixed_meter.units (("api", true ∷ []) ∷ []) (("tokens", 100) ∷ ("usd", 5) ∷ []))
unfolding lookup reported_units
unenforced_warns_example =
    unenforced_warns fixed_meter.units (("api", true ∷ []) ∷ []) (("tokens", 100) ∷ ("usd", 5) ∷ [])
      ("tokens" ∷ []) "usd" 5 refl refl not_usd
