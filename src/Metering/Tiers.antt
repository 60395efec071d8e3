-- ===== src/Metering/Tiers.antt =====
-- metering/tiers.go: the three fidelity tiers. What a user's command prints is decoded by the
-- JSON package; both are the parameter `Host`.

pub mod Contract
use faber.Common.{
  ℕ, ◌+◌, ◌*◌, ◌%◌, String, Option, none, some, Bool, true, false, not, ◌&&◌, List, [], ◌∷◌, map,
  ltb, str_eq, if◌then◌else◌, Table, lookup, put, delete, zero_if_none,
}
use faber.Metering.Cost.{ℤ, pos, negsuc, Cost, of_word, to_word, add_int64, sat_add}
use faber.Metering.Ledger.{sorted_units}
use faber.Metering.Admitter.{Step, Status, ResultView, Estimate, MeterApi}

-- A probe's reading: a utilization, if it is there, and a reset epoch in seconds.
pub record Reading (F : Type 0) : Type 0 where
  pub utilization : Option F
  pub reset : ℤ

-- `run` is the command with its input; `tokens` and `reading` decode what it printed. `below` is
-- `<` on float64.
pub record Host (F : Type 0) : Type 0 where
  pub run : List String → Option String → Option String
  pub tokens : String → Option (Option ℤ)
  pub reading : String → Option (Reading F)
  pub below : F → F → Bool

-- The bounds are stored as the 64-bit patterns of int64.
pub record ExactMeter : Type 0 where
  pub unit : String
  pub tokenizer : List String
  pub max_output : ℤ
  pub fields : List String
  pub bounds : Table ℕ

pub record ReportedMeter : Type 0 where
  pub unit : String
  pub fields : Table String

pub record ProbeMeter (F : Type 0) : Type 0 where
  pub command : List String
  pub threshold : F

pub data Tier (F : Type 0) : Type 0 where
  exact : ExactMeter → Tier F
  reported : ReportedMeter → Tier F
  probe : ProbeMeter F → Tier F

abbrev cost : String → ℤ → Cost
cost u n = record { unit = u; amount = n }

abbrev pub only : List Cost → Estimate
only costs = record { costs = costs; defer_until = none }

-- The prompt reader: `none` where assembling it fails.
unfoldable pub prompt_text : Option (Option String) → Option String
prompt_text none = some ""
prompt_text (some text) = text

-- The decoded reply: `none` unless it carries a token count that is not negative.
token_count : Option (Option ℤ) → Option ℤ
token_count (some (some (pos n))) = some (pos n)
token_count _ = none

unfoldable pub record_bound : ExactMeter → Step → Option ℤ → Option Estimate × ExactMeter
unfolding add_int64
record_bound m s none = (none, m)
record_bound m s (some tokens) =
    let bound = add_int64 tokens m.max_output in
    (
      some (only (cost m.unit bound ∷ [])),
      record m { bounds = put s.node_id (to_word bound) m.bounds },
    )

module _ {F : Type 0} (host : Host F) where
  unfoldable pub count_tokens : ExactMeter → Option String → Option ℤ
  unfolding token_count
  count_tokens m none = none
  count_tokens m (some text) = elim (host.run m.tokenizer (some text)) [
    | none ↦ none
    | some out ↦ token_count (host.tokens out)
  ]

  -- `exactMeter.Estimate`
  unfoldable pub exact_estimate : ExactMeter → Step → Option Estimate × ExactMeter
  unfolding record_bound count_tokens prompt_text
  exact_estimate m s = record_bound m s (count_tokens m (prompt_text s.prompt))

-- The allowlisted usage fields, summed with saturation; an absent field adds nothing.
unfoldable pub sum_fields : List String → Table ℕ → ℕ → ℕ
unfolding sat_add
sum_fields [] usage total = total
sum_fields (f ∷ fs) usage total = elim (lookup f usage) [
  | none ↦ sum_fields fs usage total
  | some v ↦ sum_fields fs usage (sat_add total v)
]

is_settled : Status → Bool
is_settled Status.ok = true
is_settled Status.halted = true
is_settled Status.failed = false

-- The bound stands in where no usage is mapped, for attempts that settled.
fallback_costs : String → Status → Option ℕ → List Cost
unfolding is_settled
fallback_costs unit status none = []
fallback_costs unit status (some bound) =
    if is_settled status then cost unit (of_word (bound % 18446744073709551616)) ∷ [] else []

exact_costs : ExactMeter → ResultView → List String → Option (Table ℕ) → List Cost
unfolding sum_fields fallback_costs
exact_costs m r (f ∷ fs) (some usage) = cost m.unit (pos (sum_fields (f ∷ fs) usage 0)) ∷ []
exact_costs m r _ _ = fallback_costs m.unit r.status (lookup r.node_id m.bounds)

-- `exactMeter.Actual`: the bound is forgotten in any case.
unfoldable pub exact_actual : ExactMeter → ResultView → List Cost × ExactMeter
unfolding exact_costs
exact_actual m r =
    (exact_costs m r m.fields r.usage, record m { bounds = delete r.node_id m.bounds })

-- `exactMeter.ReleaseEstimate`
unfoldable pub exact_release : ExactMeter → String → ExactMeter
exact_release m node = record m { bounds = delete node m.bounds }

-- The set of units that a reported meter can report, as a table of zero amounts.
zero_units : Table String → Table ℕ → Table ℕ
zero_units [] seen = seen
zero_units ((f, u) ∷ fields) seen =
    zero_units fields (elim (lookup u seen) [ none ↦ put u 0 seen | some _ ↦ seen ])

-- `reportedMeter.Units`
unfoldable pub reported_units : ReportedMeter → List String
unfolding zero_units
reported_units m = sorted_units (zero_units m.fields (put m.unit 0 []))

-- `reportedMeter.Estimate`
unfoldable pub reported_estimate : ReportedMeter → Estimate
unfolding reported_units
reported_estimate m = only (map (λ (u : String). cost u (pos 0)) (reported_units m))

-- One field joins the sums by unit; an absent field enrolls its unit at zero.
add_field : String → Option ℕ → Table ℕ → Table ℕ
unfolding sat_add
add_field u none sums = elim (lookup u sums) [ none ↦ put u 0 sums | some _ ↦ sums ]
add_field u (some v) sums = put u (sat_add (zero_if_none (lookup u sums)) v) sums

unfoldable pub sums_by_unit : Table String → Table ℕ → Table ℕ → Table ℕ
unfolding add_field
sums_by_unit [] usage sums = sums
sums_by_unit ((f, u) ∷ fields) usage sums =
    sums_by_unit fields usage (add_field u (lookup f usage) sums)

reported_costs : ReportedMeter → Option (Table ℕ) → List Cost
unfolding sums_by_unit
reported_costs m none = cost m.unit (pos 0) ∷ []
reported_costs m (some usage) =
    let sums = sums_by_unit m.fields usage [] in
    map (λ (u : String). cost u (pos (zero_if_none (lookup u sums)))) (sorted_units sums)

-- `reportedMeter.Actual`
unfoldable pub reported_actual : ReportedMeter → ResultView → List Cost
unfolding reported_costs
reported_actual m r = reported_costs m r.usage

-- Times are nanoseconds of the Unix clock.
abbrev pub second : ℕ
second = 1000000000

abbrev pub default_probe_defer : ℕ
default_probe_defer = 60 * second

abbrev pub probe_reset_horizon : ℕ
probe_reset_horizon = 8 * 24 * 3600 * second

-- A future reset inside the horizon is trusted; all else is the default horizon.
unfoldable pub probe_until : ℕ → ℤ → ℕ
probe_until now (negsuc n) = now + default_probe_defer
probe_until now (pos n) =
    if ltb 0 n && ltb now (n * second) && not (ltb (now + probe_reset_horizon) (n * second))
    then n * second
    else now + default_probe_defer

module _ {F : Type 0} (host : Host F) (now : ℕ) where
  saturation : ProbeMeter F → Option (Reading F) → Option ℕ
  unfolding probe_until
  saturation m none = none
  saturation m (some reading) = elim reading.utilization [
    | none ↦ none
    | some used ↦ if host.below used m.threshold then none else some (probe_until now reading.reset)
  ]

  -- `probeMeter.Estimate`: it never fails, and claims no cost.
  unfoldable pub probe_estimate : ProbeMeter F → Step → Estimate
  unfolding saturation
  probe_estimate m s = elim (host.run m.command none) [
    | none ↦ only []
    | some out ↦ record { costs = []; defer_until = saturation m (host.reading out) }
  ]

  unfoldable pub tier_estimate : Tier F → Step → Option Estimate × Tier F
  unfolding exact_estimate reported_estimate probe_estimate
  tier_estimate (exact m) s = let (answer, m') = exact_estimate host m s in (answer, exact m')
  tier_estimate (reported m) s = (some (reported_estimate m), reported m)
  tier_estimate (probe m) s = (some (probe_estimate m s), probe m)

  tier_actual : Tier F → ResultView → Option (List Cost) × Tier F
  unfolding exact_actual reported_actual
  tier_actual (exact m) r = let (costs, m') = exact_actual m r in (some costs, exact m')
  tier_actual (reported m) r = (some (reported_actual m r), reported m)
  tier_actual (probe m) r = (some [], probe m)

  -- `Units` of the tiers; a probe claims no unit.
  tier_units : Tier F → Option (List String)
  unfolding reported_units
  tier_units (exact m) = some (m.unit ∷ [])
  tier_units (reported m) = some (reported_units m)
  tier_units (probe m) = some []

  tier_release : Tier F → String → Tier F
  unfolding exact_release
  tier_release (exact m) node = exact (exact_release m node)
  tier_release t node = t

  unfoldable pub tiers : MeterApi (Tier F)
  unfolding tier_estimate tier_actual tier_units tier_release
  tiers = record {
    estimate = tier_estimate;
    actual = tier_actual;
    units = tier_units;
    release_estimate = tier_release;
  }
