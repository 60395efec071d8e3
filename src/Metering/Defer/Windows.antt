-- ===== src/Metering/Defer/Windows.antt =====
-- metering/defer.go: how long a rate-limited node waits, and how often.
use faber.Common.{
  ℕ, zero, suc, ◌+◌, ◌*◌, ◌^◌, ◌≤◌, ◌<◌, min, String, ◌≡◌, refl, ◌⊎◌, ltb→le, ltb→lt, Option, none,
  some, Bool, true, false, List, [], ◌∷◌, ltb, ◌==◌, arith, if◌then◌else◌, amount_at, All, length,
  Bool-cases, Option-cases, inl, inr, ==_iff, str_eq, str_eq_self, ◌↔◌, eq_iff,
}
use native.Mathlib.Nat.{pow-suc}
use faber.Metering.Cost.{ℤ, amount_at-put}
use faber.Metering.Ledger.{Decision, deferred}
use faber.Metering.Admitter.{Status}
use faber.Metering.Defer.{
  DeferPolicy, with_defaults, FailureRecord, RateLimitDefer, backoff, is_failed, is_rate_limit,
  reset_from, retry_at, classify, consecutive_of,
}

-- A test that holds at each of the first numbers, checked by running it.
passes : (ℕ → Bool) → ℕ → Bool
passes test zero = true
passes test (suc k) = let rest = passes test k in if test k then rest else false

passes_at : (test : ℕ → Bool) (c k : ℕ) → c < k → passes test k ≡ true → test c ≡ true
unfolding passes
passes_at test c zero lt ran = absurd (omega arith)
passes_at test c (suc k) lt ran = ground (arith, passes_at test c k)

below-pow : (c : ℕ) → c < 2 ^ c
below-pow zero = omega arith
below-pow (suc c) = rw pow-suc (omega (arith, below-pow c))

abbrev floor_policy : DeferPolicy
unfolding with_defaults
floor_policy = with_defaults (record { base = 0; ceiling = 0; horizon = 0; most = 0 })

backoff_table :
    passes (λ c. backoff floor_policy c == min floor_policy.ceiling (floor_policy.base * 2 ^ c)) 63
    ≡ true
unfolding passes backoff with_defaults
backoff_table = refl

backoff_late : (p : DeferPolicy) (c : ℕ) → 63 ≤ c → backoff p c ≡ p.ceiling
unfolding backoff
backoff_late p c h = ground arith

-- Under the default policy the fallback wait is one minute doubled per consecutive occurrence and
-- capped at a quarter of an hour, for every number of occurrences: the 64-bit shift never shows.
pub backoff_doubles :
    (c : ℕ)
    → let p = with_defaults (record { base = 0; ceiling = 0; horizon = 0; most = 0 }) in
      backoff p c ≡ min (15 * 60 * 1000000000) (60 * 1000000000 * 2 ^ c)
unfolding with_defaults
backoff_doubles c = elim (Bool-cases (ltb c 63)) [
  | inl early ↦ (==_iff _ _).0 (
      passes_at
        (λ n. backoff floor_policy n == min floor_policy.ceiling (floor_policy.base * 2 ^ n)) c 63
        (ltb→lt c 63 early) backoff_table)
  | inr late ↦
      let far : 63 ≤ c = ltb→le _ _ late in
      omega (arith, backoff_late floor_policy c far, below-pow c)
]

-- A policy whose durations are positive int64 values.
pub record IsPolicy (p : DeferPolicy) : Type 0 where
  pub base_positive : 0 < p.base
  pub ceiling_positive : 0 < p.ceiling

backoff_bounds :
    (p : DeferPolicy) (c : ℕ) → IsPolicy p → (0 < backoff p c) × (backoff p c ≤ p.ceiling)
unfolding backoff
backoff_bounds p c h = ground arith

status_of_failed : (st : Status) → is_failed st ≡ true → st ≡ Status.failed
status_of_failed Status.failed h = refl
status_of_failed Status.ok h = ground arith
status_of_failed Status.halted h = ground arith

module _ (decode : String → Option ℤ) where
  retry_at_window :
      (p : DeferPolicy) (c : ℕ) (detail : String) (now : ℕ)
      → IsPolicy p
      → let t = retry_at decode p c detail now in
        (now < t) × ((t ≤ now + p.horizon) ⊎ (t ≤ now + p.ceiling))
  unfolding retry_at
  retry_at_window p c detail now h = elim (Option-cases (reset_from decode detail)) [
    | inl e ↦ rw (e, retry_at) (ground (arith, backoff_bounds p c h))
    | inr (t, e) ↦ rw (e, retry_at) (ground (arith, backoff_bounds p c h))
  ]

  -- Classify defers a record exactly if it is a failure whose reason is the rate limit and its node
  -- was deferred less often in a row than the bound; a record that it does not defer leaves all
  -- counters as they were.
  pub classify_deferred_iff :
      (rec : FailureRecord) (now : ℕ) (d : RateLimitDefer)
      → (((x : Decision) × ((classify decode rec now d).0 ≡ some x)) ↔ (
          (rec.status ≡ Status.failed)
          × (rec.reason ≡ "rate-limit")
          × (consecutive_of rec.node_id d < d.policy.most)))
        × ((classify decode rec now d).0 ≡ none → (classify decode rec now d).1 ≡ d)
  unfolding classify is_rate_limit consecutive_of
  classify_deferred_iff rec now d = (
    (
      λ (x, e). (
        status_of_failed rec.status (ground (arith, e)),
        (eq_iff rec.reason "rate-limit").0 (ground (arith, e)),
        ground (arith, e),
      ),
      λ (st, re, lt). (
        deferred (some (retry_at decode d.policy (consecutive_of rec.node_id d) rec.detail now)),
        rw (st, re, consecutive_of, retry_at) (ground (arith, str_eq_self "rate-limit", lt)),
      ),
    ),
    λ e. ground (arith, e),
  )

  -- Under a policy of positive durations, a rate limit below the bound is deferred to a later instant, inside the horizon or at most the
  -- ceiling away, and counted for its node alone; at the bound it flows to the failure policy and
  -- nothing changes.
  pub classify_rate_limit :
      (rec : FailureRecord) (now : ℕ) (d : RateLimitDefer) (node : String)
      → IsPolicy d.policy
      → is_rate_limit rec ≡ true
      → let c = consecutive_of rec.node_id d in
        let after = classify decode rec now d in
        let t = retry_at decode d.policy c rec.detail now in
        (c < d.policy.most
          → (after.0 ≡ some (deferred (some t)))
            × (now < t)
            × ((t ≤ now + d.policy.horizon) ⊎ (t ≤ now + d.policy.ceiling))
            × (consecutive_of node after.1
                ≡ (if str_eq rec.node_id node then c + 1 else consecutive_of node d)))
        × (d.policy.most ≤ c → after ≡ (none, d))
  unfolding classify consecutive_of
  classify_rate_limit rec now d node p h = (
    λ below.
        let window = retry_at_window d.policy (amount_at rec.node_id d.state) rec.detail now p in
        (
          ground arith,
          window.0,
          window.1,
          ground
              (arith, amount_at-put rec.node_id node (amount_at rec.node_id d.state + 1) d.state),
        ),
    λ over. ground arith,
  )

  -- The records of one node, classified one after another.
  pub classify_all : List (FailureRecord × ℕ) → RateLimitDefer → RateLimitDefer
  classify_all [] d = d
  classify_all ((rec, now) ∷ recs) d = classify_all recs (classify decode rec now d).1

  classify-count :
      (rec : FailureRecord) (now : ℕ) (d : RateLimitDefer)
      → is_rate_limit rec ≡ true
      → consecutive_of rec.node_id d ≤ d.policy.most
      → (consecutive_of rec.node_id (classify decode rec now d).1
          ≡ min d.policy.most (consecutive_of rec.node_id d + 1))
        × ((classify decode rec now d).1.policy ≡ d.policy)
  unfolding classify consecutive_of
  classify-count rec now d h k = ground (
    arith,
    amount_at-put rec.node_id rec.node_id (amount_at rec.node_id d.state + 1) d.state,
    str_eq_self rec.node_id,
  )

  -- However many rate limits of one node follow one another, from a counter within the bound: the
  -- counter grows by the number of records, stopped at the bound.
  pub classify_all-count :
      (node : String) (recs : List (FailureRecord × ℕ)) (d : RateLimitDefer)
      → All (λ e. (is_rate_limit e.0 ≡ true) × (e.0.node_id ≡ node)) recs
      → consecutive_of node d ≤ d.policy.most
      → consecutive_of node (classify_all recs d)
        ≡ min d.policy.most (consecutive_of node d + length recs)
  unfolding classify_all
  classify_all-count node [] d h k = omega arith
  classify_all-count node ((rec, now) ∷ recs) d h k =
      let (count, same) = classify-count rec now d h.0.0 (rw h.0.1 k) in
      let counted : consecutive_of node (classify decode rec now d).1
          ≡ min d.policy.most (consecutive_of node d + 1) =
        rw (← h.0.1) count in
      let later =
        classify_all-count node recs (classify decode rec now d).1 h.1
          (rw same (omega (arith, counted))) in
      omega (arith, (rw same at later), counted)
