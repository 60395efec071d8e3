-- ===== src/Tests/Meters.antt =====
-- metering/tiers.go and metering/defer.go at concrete meters and records.
use faber.Common.{
  ℕ, ◌+◌, ◌*◌, ◌^◌, ◌≤◌, ◌<◌, min, String, Bool, true, false, Option, none, some, List, [], ◌∷◌,
  ◌↔◌, Table, lookup, ◌≡◌, refl, arith, if◌then◌else◌, ltb, ◌⊎◌, str_eq, All,
}
use faber.Metering.Cost.{ℤ, pos, max_int64}
use faber.Metering.Ledger.{Decision, deferred}
use faber.Metering.Admitter.{Step, Status, ResultView, Estimate, claim_costs}
use faber.Metering.Tiers.{
  Host, ExactMeter, ProbeMeter, exact_estimate, exact_actual, probe_reset_horizon, count_tokens,
  tier_estimate, probe,
}
use faber.Metering.Tiers.Contract.{
  usage_total, SettlesBound, exact_actual-usage, exact-SettlesBound, probe_estimate_window,
  bound_overflows,
}
use faber.Metering.Defer.{
  DeferPolicy, FailureRecord, RateLimitDefer, backoff, with_defaults, classify, consecutive_of,
  retry_at, is_rate_limit,
}
use faber.Metering.Defer.Windows.{
  IsPolicy, classify_deferred_iff, classify_rate_limit, classify_all, classify_all-count,
  backoff_doubles,
}

-- A tokenizer that prints 12 and a probe that reads full until second 90.
abbrev printing : Host ℕ
printing = record {
  run = λ command input. some "out";
  tokens = λ out. some (some (pos 12));
  reading = λ out. some (record { utilization = some 100; reset = pos 90 });
  below = λ a b. ltb a b;
}

abbrev counting : ExactMeter
counting = record {
  unit = "tokens";
  tokenizer = "count" ∷ [];
  max_output = pos 8;
  fields = "input" ∷ "output" ∷ [];
  bounds = [];
}

abbrev step_a : Step
step_a = record {
  node_id = "a";
  template = "implement";
  endpoint = "api";
  prompt = some (some "hello");
}

abbrev silent : ResultView
silent = record { node_id = "a"; status = Status.halted; usage = none; elapsed = 3 }

abbrev spoken : ResultView
spoken = record silent { usage = some (("input", 5) ∷ ("output", 6) ∷ ("cached", 7) ∷ []) }

exact_actual-usage_example :
    (exact_actual counting spoken).0
    ≡ record {
      unit = "tokens";
      amount = pos (
          min max_int64 (
            usage_total
              ("input" ∷ "output" ∷ [])
              (("input", 5) ∷ ("output", 6) ∷ ("cached", 7) ∷ [])));
    }
      ∷ []
exact_actual-usage_example =
    exact_actual-usage counting spoken (("input", 5) ∷ ("output", 6) ∷ ("cached", 7) ∷ [])
      (λ e. ground (arith, e)) refl (omega arith, (omega arith, (omega arith, tt)))

exact-SettlesBound_example :
    SettlesBound
      (
        (exact_estimate printing counting step_a).1,
        record { costs = record { unit = "tokens"; amount = pos 20 } ∷ []; defer_until = none },
      )
      "a"
      silent
unfolding exact_estimate
exact-SettlesBound_example = exact-SettlesBound printing counting step_a silent refl refl refl

abbrev probing : ProbeMeter ℕ
probing = record { command = "probe" ∷ []; threshold = 80 }

probe_estimate_window_example :
    (est : Estimate) × (tier_estimate printing 60000000000 (probe probing) step_a
      ≡ (some est, probe probing))
    × (est.costs ≡ [])
    × ((until : ℕ)
        → est.defer_until ≡ some until
        → (60000000000 < until) × (until ≤ 60000000000 + probe_reset_horizon))
probe_estimate_window_example = probe_estimate_window printing 60000000000 probing step_a

abbrev topped : ExactMeter
topped = record counting { max_output = pos 9223372036854775807 }

bound_overflows_example :
    (est : Estimate) × ((exact_estimate printing topped step_a).0 ≡ some est)
    × (claim_costs est.costs [] ≡ [])
unfolding count_tokens faber.Metering.Tiers.prompt_text
bound_overflows_example =
    bound_overflows printing topped step_a 12 9223372036854775807 [] refl refl (omega arith)
      (omega arith) (omega arith)

abbrev policy : DeferPolicy
policy = record { base = 60; ceiling = 900; horizon = 86400000000000; most = 3 }

policy-IsPolicy : IsPolicy policy
policy-IsPolicy = record { base_positive = omega arith; ceiling_positive = omega arith }

abbrev waiting : RateLimitDefer
waiting = record { policy = policy; state = ("a", 1) ∷ [] }

abbrev limited : FailureRecord
limited = record { node_id = "a"; status = Status.failed; reason = "rate-limit"; detail = "" }

abbrev crashed : FailureRecord
crashed = record { node_id = "a"; status = Status.failed; reason = "agent"; detail = "" }

abbrev no_reset : String → Option ℤ
no_reset detail = none

classify_rate_limit_example :
    let after = classify no_reset limited 1000 waiting in
    let t = retry_at no_reset policy 1 "" 1000 in
    (1 < 3
      → (after.0 ≡ some (deferred (some t)))
        × (1000 < t)
        × ((t ≤ 1000 + 86400000000000) ⊎ (t ≤ 1000 + 900))
        × (consecutive_of "a" after.1 ≡ 2))
    × (3 ≤ 1 → after ≡ (none, waiting))
unfolding is_rate_limit consecutive_of faber.Common.amount_at lookup
classify_rate_limit_example =
    classify_rate_limit no_reset limited 1000 waiting "a" policy-IsPolicy refl

classify_deferred_iff_example :
    (((x : Decision) × ((classify no_reset crashed 1000 waiting).0 ≡ some x)) ↔ (
      (crashed.status ≡ Status.failed)
      × (crashed.reason ≡ "rate-limit")
      × (consecutive_of crashed.node_id waiting < waiting.policy.most)))
    × ((classify no_reset crashed 1000 waiting).0 ≡ none
        → (classify no_reset crashed 1000 waiting).1 ≡ waiting)
classify_deferred_iff_example = classify_deferred_iff no_reset crashed 1000 waiting

classify_all-count_example :
    consecutive_of "a"
      (classify_all no_reset ((limited, 1000) ∷ (limited, 2000) ∷ (limited, 3000) ∷ []) waiting)
    ≡ 3
unfolding is_rate_limit consecutive_of faber.Common.amount_at lookup
classify_all-count_example =
    classify_all-count no_reset "a" ((limited, 1000) ∷ (limited, 2000) ∷ (limited, 3000) ∷ [])
      waiting ((refl, refl), ((refl, refl), ((refl, refl), tt))) (omega arith)

backoff_doubles_example :
    let p = with_defaults (record { base = 0; ceiling = 0; horizon = 0; most = 0 }) in
    backoff p 3 ≡ min (15 * 60 * 1000000000) (60 * 1000000000 * 2 ^ 3)
backoff_doubles_example = backoff_doubles 3
