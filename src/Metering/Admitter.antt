-- ===== src/Metering/Admitter.antt =====
-- metering/meter.go and metering/admit.go: the hooks around every step. A meter is an object of an
-- interface; a call returns its answer and the meter after it. Log lines, the text of errors and
-- the inputs of a step, which no meter reads, are left out.
pub mod Hooks
pub mod Promises
pub mod Unenforced
use faber.Common.{
  ℕ, String, Option, none, some, Bool, true, false, List, [], ◌∷◌, ◌++◌, ltb, if◌then◌else◌, Table,
  lookup, put,
}
use faber.Metering.Cost.{ℤ, pos, negsuc, Cost, credit}
use faber.Metering.Ledger.{
  admit, defer, reject, Decision, admitted, deferred, Reservation, Ledger, reserve, charge, charged,
  fold_spent, drop_reservation,
}

-- `prompt` is `none` without a source, and `some none` where the source fails.
pub record Step : Type 0 where
  pub node_id : String
  pub template : String
  pub endpoint : String
  pub prompt : Option (Option String)

pub data Status : Type 0 where
  ok failed halted : Status

-- The sidecar's values are read clamped at zero.
pub record ResultView : Type 0 where
  pub node_id : String
  pub status : Status
  pub usage : Option (Table ℕ)
  pub elapsed : ℕ

pub record Estimate : Type 0 where
  pub costs : List Cost
  pub defer_until : Option ℕ

-- `Meter`, with its optional extensions: `units` is `none` for a meter that does not declare them,
-- and `release_estimate` changes nothing for one that holds no state. An error is `none`.
pub record MeterApi (M : Type 0) : Type 0 where
  pub estimate : M → Step → Option Estimate × M
  pub actual : M → ResultView → Option (List Cost) × M
  pub units : M → Option (List String)
  pub release_estimate : M → String → M

pub record Admitter (M : Type 0) : Type 0 where
  pub meters : Table (List M)
  pub ledger : Ledger

-- `NewAdmitter`, without its startup warning.
unfoldable pub new_admitter : {M : Type 0} → Table (List M) → Table ℕ → Admitter M
new_admitter meters budgets = record {
  meters = meters;
  ledger = record { limit = budgets; spent = []; reserved = []; inflight = [] };
}

-- The later of two saturation hints; the zero time is before every hint.
unfoldable pub later : Option ℕ → Option ℕ → Option ℕ
later none known = known
later (some t) none = some t
later (some t) (some known) = if ltb known t then some t else some known

-- A negative claim is skipped, a zero claim enrolls its unit.
unfoldable pub claim_cost : Cost → ℤ → Table ℕ → Table ℕ
claim_cost c (negsuc n) est = est
claim_cost c (pos n) est = credit c.unit n est

unfoldable pub claim_costs : List Cost → Table ℕ → Table ℕ
unfolding claim_cost
claim_costs [] est = est
claim_costs (c ∷ cs) est = claim_costs cs (claim_cost c c.amount est)

is_budgeted : Table ℕ → List String → Bool
is_budgeted limit [] = false
is_budgeted limit (u ∷ us) =
    let rest = is_budgeted limit us in elim (lookup u limit) [ none ↦ rest | some _ ↦ true ]

-- `participates`
participates_units : Table ℕ → Option (List String) → Bool
unfolding is_budgeted
participates_units [] units = false
participates_units (b ∷ limit) none = true
participates_units (b ∷ limit) (some us) = is_budgeted (b ∷ limit) us

-- What the estimating loop has gathered.
pub record Gathered : Type 0 where
  pub until : Option ℕ
  pub est : Table ℕ

-- One meter's estimate joins what is gathered.
unfoldable pub fold_estimate : Estimate → Gathered → Gathered
unfolding claim_costs later
fold_estimate e g = record { until = later e.defer_until g.until; est = claim_costs e.costs g.est }

-- `FoldSpent`
unfoldable pub fold_step : {M : Type 0} → List Cost → Admitter M → Admitter M
fold_step costs a = record a {
  ledger = record a.ledger { spent = fold_spent costs a.ledger.spent };
}

module _ {M : Type 0} (api : MeterApi M) where
  unfoldable pub participates : Ledger → M → Bool
  unfolding participates_units
  participates l m = participates_units l.limit (api.units m)

  unfoldable pub release_estimates : List M → String → List M
  release_estimates [] node = []
  release_estimates (m ∷ ms) node = api.release_estimate m node ∷ release_estimates ms node

  -- The estimating loop: `none` is the failure of a meter that protects a budget.
  unfoldable pub gather : Ledger → Step → Gathered → List M → Option Gathered × List M
  unfolding fold_estimate
  gather l s g [] = (some g, [])
  gather l s g (m ∷ ms) =
      let (answer, m') = api.estimate m s in
      let skipped : Option Gathered × List M =
        (let (g', ms') = gather l s g ms in (g', m' ∷ ms')) in
      elim answer [
        | none ↦ if participates l m' then (none, m' ∷ ms) else skipped
        | some e ↦ let (g', ms') = gather l s (fold_estimate e g) ms in (g', m' ∷ ms')
      ]

  meters_of : String → Admitter M → List M
  meters_of endpoint a = elim (lookup endpoint a.meters) [ none ↦ [] | some ms ↦ ms ]

  with_meters : String → List M → Admitter M → Admitter M
  with_meters endpoint ms a = record a { meters = put endpoint ms a.meters }

  -- The end of `Admit`: the meters of a step that is not admitted drop what they hold for it.
  conclude : Step → List M → Decision × Ledger → Admitter M → Option Decision × Admitter M
  unfolding with_meters release_estimates
  conclude s ms (d, l) a =
      let kept : List M = elim d.kind [ admit ↦ ms | _ ↦ release_estimates ms s.node_id ] in
      (some d, with_meters s.endpoint kept (record a { ledger = l }))

  -- `Admit` from the gathered estimates on: a saturation hint defers before the ledger is read.
  admit_gathered : Step → List M → Option Gathered → Admitter M → Option Decision × Admitter M
  unfolding with_meters release_estimates conclude
  admit_gathered s ms none a = (none, with_meters s.endpoint (release_estimates ms s.node_id) a)
  admit_gathered s ms (some g) a = elim g.until [
    | some t ↦ (some (deferred (some t)), with_meters s.endpoint (release_estimates ms s.node_id) a)
    | none ↦ conclude s ms (reserve s.node_id s.endpoint g.est a.ledger) a
  ]

  admit_metered : Step → List M → Admitter M → Option Decision × Admitter M
  unfolding admit_gathered
  admit_metered s [] a = (some admitted, a)
  admit_metered s (m ∷ ms) a =
      let (answer, ms') = gather a.ledger s (record { until = none; est = [] }) (m ∷ ms) in
      admit_gathered s ms' answer a

  -- `Admit`: `none` is the structured admission failure.
  unfoldable pub admit_step : Step → Admitter M → Option Decision × Admitter M
  unfolding meters_of admit_metered
  admit_step s a = admit_metered s (meters_of s.endpoint a) a

  reported_costs : Option (List Cost) → List Cost
  reported_costs none = []
  reported_costs (some cs) = cs

  -- The outer loop of `Settle`: the journaled actuals, the spent amounts and the meters after it.
  unfoldable pub settle_meters : ResultView → List M → Table ℕ → List Cost × Table ℕ × List M
  unfolding reported_costs
  settle_meters r [] spent = ([], spent, [])
  settle_meters r (m ∷ ms) spent =
      let (answer, m') = api.actual m r in
      let cs = reported_costs answer in
      let (rest, spent', ms') = settle_meters r ms (charge cs spent) in
      (charged cs ++ rest, spent', m' ∷ ms')

  settle_held : ResultView → Reservation → Admitter M → List Cost × Admitter M
  unfolding settle_meters meters_of drop_reservation
  settle_held r res a =
      let (costs, spent', ms') = settle_meters r (meters_of res.endpoint a) a.ledger.spent in
      (
        costs,
        record {
          meters = put res.endpoint ms' a.meters;
          ledger = record (drop_reservation r.node_id res a.ledger) { spent = spent' };
        },
      )

  -- `Settle`
  unfoldable pub settle_step : ResultView → Admitter M → List Cost × Admitter M
  unfolding settle_held
  settle_step r a = elim (lookup r.node_id a.ledger.inflight) [
    | none ↦ ([], a)
    | some res ↦ settle_held r res a
  ]
