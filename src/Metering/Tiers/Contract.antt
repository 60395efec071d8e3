-- ===== src/Metering/Tiers/Contract.antt =====
-- metering/tiers.go: the tiers as the admitter calls them.
use faber.Common.{
  ℕ, ap, subst, ◌-◌, ◌+◌, ◌%◌, ◌≤◌, ◌<◌, min, String, ◌≡◌, refl, ◌≢◌, Option, none, some, List, [],
  ◌∷◌, arith, Table, lookup, put, Option-cases, inl, inr, lookup-put_self, lookup-delete_self,
  zero_if_none,
}
use faber.Metering.Cost.{
  ℤ, pos, negsuc, of_word, to_word, add_int64, sat_add, sat_add_bounded, sat_add-min, max_int64,
}
use faber.Metering.Ledger.{clamp}
use faber.Metering.Ledger.Reservations.{AreInt64}
use faber.Metering.Admitter.{Step, Status, ResultView, Estimate, claim_costs}
use faber.Metering.Tiers.{
  Host, Reading, ExactMeter, ProbeMeter, exact_estimate, record_bound, exact_actual, sum_fields,
  fallback_costs, exact_costs, probe_until, only, tier_estimate, probe, count_tokens, prompt_text,
  saturation, probe_estimate, probe_reset_horizon,
}

of_word-IsInt64 : (w : ℕ) → clamp (of_word (w % 18446744073709551616)) ≤ max_int64
of_word-IsInt64 w = ground arith

lookup-AreInt64 :
    (f : String) (usage : Table ℕ) (v : ℕ)
    → AreInt64 usage
    → lookup f usage ≡ some v
    → v ≤ max_int64
unfolding lookup
lookup-AreInt64 f [] v k e = cc
lookup-AreInt64 f ((g, n) ∷ usage) v k e = ground (arith, lookup-AreInt64 f usage v k.1)

sum_fields_bounded :
    (fs : List String) (usage : Table ℕ) (total : ℕ)
    → AreInt64 usage
    → total ≤ max_int64
    → sum_fields fs usage total ≤ max_int64
unfolding sum_fields
sum_fields_bounded [] usage total k h = h
sum_fields_bounded (f ∷ fs) usage total k h = elim (Option-cases (lookup f usage)) [
  | inl e ↦ rw (e, sum_fields) (sum_fields_bounded fs usage total k h)
  | inr (v, e) ↦
      rw (e, sum_fields)
        (sum_fields_bounded fs usage (sat_add total v) k
          (sat_add_bounded total v (lookup-AreInt64 f usage v k e)))
]

-- The sum over the fields, without a bound on numbers.
unfoldable pub usage_total : List String → Table ℕ → ℕ
usage_total [] usage = 0
usage_total (f ∷ fs) usage = zero_if_none (lookup f usage) + usage_total fs usage

sum_fields-total :
    (fs : List String) (usage : Table ℕ) (total : ℕ)
    → AreInt64 usage
    → total ≤ max_int64
    → sum_fields fs usage total ≡ min max_int64 (total + usage_total fs usage)
unfolding sum_fields usage_total
sum_fields-total [] usage total k h = omega arith
sum_fields-total (f ∷ fs) usage total k h = elim (Option-cases (lookup f usage)) [
  | inl e ↦ rw (e, sum_fields) (omega (arith, sum_fields-total fs usage total k h))
  | inr (v, e) ↦
      rw (e, sum_fields)
        (omega (
          arith,
          sum_fields-total fs usage (sat_add total v) k
              (sat_add_bounded total v (lookup-AreInt64 f usage v k e)),
          sat_add-min total v h (lookup-AreInt64 f usage v k e),
        ))
]

-- The exact tier with usage fields, on a sidecar of int64 values, charges their sum, up to the
-- ceiling of int64, whatever the status of the attempt and whatever was estimated.
pub exact_actual-usage :
    (m : ExactMeter) (r : ResultView) (usage : Table ℕ)
    → m.fields ≢ []
    → r.usage ≡ some usage
    → AreInt64 usage
    → (exact_actual m r).0
      ≡ record { unit = m.unit; amount = pos (min max_int64 (usage_total m.fields usage)) } ∷ []
unfolding exact_actual exact_costs
exact_actual-usage m r usage h e k = go m.fields refl
  where
    go :
        (fs : List String)
        → m.fields ≡ fs
        → exact_costs m r m.fields r.usage
          ≡ record { unit = m.unit; amount = pos (min max_int64 (usage_total m.fields usage)) } ∷ []
    go [] f = absurd (h f)
    go (x ∷ fs) f =
        rw (f, e, exact_costs, sum_fields-total (x ∷ fs) usage 0 k (omega arith)) (ground arith)

word_round : (w : ℕ) → w < 18446744073709551616 → to_word (of_word w) ≡ w
word_round w h = ground arith

add_int64_kept :
    (a b : ℤ) → of_word (to_word (add_int64 a b) % 18446744073709551616) ≡ add_int64 a b
unfolding add_int64
add_int64_kept a b =
    let w = (to_word a + to_word b) % 18446744073709551616 in
    rw (word_round w (omega arith)) (ap of_word (omega arith))

exact_costs-fallback :
    (m : ExactMeter) (r : ResultView) (fs : List String) (usage : Option (Table ℕ))
    → usage ≡ none
    → exact_costs m r fs usage ≡ fallback_costs m.unit r.status (lookup r.node_id m.bounds)
unfolding exact_costs
exact_costs-fallback m r [] usage e = refl
exact_costs-fallback m r (f ∷ fs) none e = refl
exact_costs-fallback m r (f ∷ fs) (some usage) e = cc

exact_actual-fallback :
    (m : ExactMeter) (r : ResultView)
    → r.usage ≡ none
    → (exact_actual m r).0 ≡ fallback_costs m.unit r.status (lookup r.node_id m.bounds)
unfolding exact_actual
exact_actual-fallback m r e = exact_costs-fallback m r m.fields r.usage e

exact_actual-forgets :
    (m : ExactMeter) (r : ResultView) → lookup r.node_id (exact_actual m r).1.bounds ≡ none
unfolding exact_actual
exact_actual-forgets m r = lookup-delete_self r.node_id m.bounds

abbrev pub IsFailed : Status → Type 0
IsFailed Status.failed = Unit
IsFailed _ = ⊥

fallback_of_settled :
    (u : String) (st : Status) (bound : ℕ)
    → ¬ IsFailed st
    → fallback_costs u st (some bound)
      ≡ record { unit = u; amount = of_word (bound % 18446744073709551616) } ∷ []
unfolding fallback_costs
fallback_of_settled u Status.ok bound h = refl
fallback_of_settled u Status.halted bound h = refl
fallback_of_settled u Status.failed bound h = absurd (h tt)

fallback_of_failed :
    (u : String) (st : Status) (bound : Option ℕ) → IsFailed st → fallback_costs u st bound ≡ []
unfolding fallback_costs
fallback_of_failed u Status.ok bound h = elim h [ ]
fallback_of_failed u Status.halted bound h = elim h [ ]
fallback_of_failed u Status.failed none h = refl
fallback_of_failed u Status.failed (some b) h = refl

abbrev pub SettlesBound : ExactMeter × Estimate → String → ResultView → Type 0
SettlesBound (m, e) node r =
    (¬ IsFailed r.status → (exact_actual m r).0 ≡ e.costs)
    × (IsFailed r.status → (exact_actual m r).0 ≡ [])
    × (lookup node (exact_actual m r).1.bounds ≡ none)

settled_bound :
    (m : ExactMeter) (s : Step) (r : ResultView) (n : Option ℤ) {e : Estimate}
    → (record_bound m s n).0 ≡ some e
    → r.node_id ≡ s.node_id
    → r.usage ≡ none
    → SettlesBound ((record_bound m s n).1, e) s.node_id r
unfolding record_bound
settled_bound m s r none h i u = cc
settled_bound m s r (some n) {e} h i u =
    let held = record m { bounds = put s.node_id (to_word (add_int64 n m.max_output)) m.bounds } in
    let charged : (exact_actual held r).0
        ≡ fallback_costs m.unit r.status (some (to_word (add_int64 n m.max_output))) =
      rw (exact_actual-fallback held r u, i, lookup-put_self) refl in
    (
      λ settled. rw (charged, fallback_of_settled m.unit r.status _ settled, add_int64_kept) (cc),
      λ failed. rw charged (fallback_of_failed m.unit r.status _ failed),
      subst (λ k. lookup k (exact_actual held r).1.bounds ≡ none) i (exact_actual-forgets held r),
    )

-- Estimate and settle in the exact tier, without a usage sidecar: an attempt that is ok or halted
-- is charged exactly what was estimated, a failed one nothing, and the bound is forgotten.
pub exact-SettlesBound :
    {F : Type 0} (host : Host F) (m : ExactMeter) (s : Step) (r : ResultView) {e : Estimate}
    → (exact_estimate host m s).0 ≡ some e
    → r.node_id ≡ s.node_id
    → r.usage ≡ none
    → SettlesBound ((exact_estimate host m s).1, e) s.node_id r
unfolding exact_estimate
exact-SettlesBound host m s r h i u = settled_bound m s r _ h i u

wraps_negative :
    (a b : ℕ)
    → a ≤ max_int64
    → b ≤ max_int64
    → max_int64 < a + b
    → add_int64 (pos a) (pos b) ≡ negsuc (18446744073709551615 - (a + b))
unfolding add_int64
wraps_negative a b h k over = ground arith

overflow_claims_nothing :
    (m : ExactMeter) (tokens out : ℕ) (est : Table ℕ)
    → m.max_output ≡ pos out
    → tokens ≤ max_int64
    → out ≤ max_int64
    → max_int64 < tokens + out
    → claim_costs (record { unit = m.unit; amount = add_int64 (pos tokens) m.max_output } ∷ []) est
      ≡ est
unfolding claim_costs
overflow_claims_nothing m tokens out est e h k over = rw (e, wraps_negative tokens out h k over)

-- Where the tokens that the exact tier counts in the prompt and the output bound, both int64, together
-- overflow int64, the tier's estimate succeeds and claims nothing: the table of claims stays as it
-- was.
pub bound_overflows :
    {F : Type 0} (host : Host F) (m : ExactMeter) (s : Step) (tokens out : ℕ) (table : Table ℕ)
    → count_tokens host m (prompt_text s.prompt) ≡ some (pos tokens)
    → m.max_output ≡ pos out
    → tokens ≤ max_int64
    → out ≤ max_int64
    → max_int64 < tokens + out
    → (est : Estimate) × ((exact_estimate host m s).0 ≡ some est)
      × (claim_costs est.costs table ≡ table)
unfolding exact_estimate record_bound
bound_overflows host m s tokens out table c e h k over = (
  record {
    costs = record { unit = m.unit; amount = add_int64 (pos tokens) m.max_output } ∷ [];
    defer_until = none;
  },
  rw c refl,
  overflow_claims_nothing m tokens out table e h k over,
)

-- A saturation hint lies in the future and inside the horizon, whatever the probe printed.
probe_until_window :
    (now : ℕ) (reset : ℤ)
    → (now < probe_until now reset) × (probe_until now reset ≤ now + probe_reset_horizon)
unfolding probe_until
probe_until_window now (negsuc n) = omega arith
probe_until_window now (pos n) = ground arith

module _ {F : Type 0} (host : Host F) (now : ℕ) where
  saturation_window :
      (m : ProbeMeter F) (reading : Option (Reading F)) {until : ℕ}
      → saturation host now m reading ≡ some until
      → (now < until) × (until ≤ now + probe_reset_horizon)
  unfolding saturation
  saturation_window m none e = cc
  saturation_window m (some reading) e = ground (arith, probe_until_window now reading.reset)

  -- A probe's estimate never fails, whatever its command does, claims no cost and leaves the meter as
  -- it was; where it hints at saturation, the hint lies in the future and inside the horizon.
  pub probe_estimate_window :
      (m : ProbeMeter F) (s : Step)
      → (est : Estimate) × (tier_estimate host now (probe m) s ≡ (some est, probe m))
        × (est.costs ≡ [])
        × ((until : ℕ)
            → est.defer_until ≡ some until
            → (now < until) × (until ≤ now + probe_reset_horizon))
  unfolding tier_estimate probe_estimate
  probe_estimate_window m s = elim (Option-cases (host.run m.command none)) [
    | inl f ↦ (only [], rw (f, tier_estimate, probe_estimate) refl, refl, λ until e. cc)
    | inr (out, f) ↦ (
      record { costs = []; defer_until = saturation host now m (host.reading out) },
      rw (f, tier_estimate, probe_estimate) refl,
      refl,
      λ until e. saturation_window m (host.reading out) e,
    )
  ]
