-- ===== src/Metering/Defer.antt =====
-- metering/defer.go: the rate-limit floor. The detail payload is decoded by the JSON package, here
-- the parameter `decode`; times are nanoseconds of the Unix clock.
pub mod Windows
use faber.Common.{
  ℕ, ◌+◌, ◌*◌, ◌^◌, ◌%◌, String, Option, none, some, Bool, true, false, not, ◌&&◌, ◌||◌, ltb, leb,
  ◌==◌, str_eq, if◌then◌else◌, List, [], ◌∷◌, Table, put, delete, amount_at,
}
use faber.Metering.Cost.{ℤ, pos, negsuc, max_int64}
use faber.Metering.Ledger.{Decision, deferred}
use faber.Metering.Admitter.{Status}
use faber.Metering.Tiers.{second}

-- `DeferPolicy`; a duration that is not positive is 0.
pub record DeferPolicy : Type 0 where
  pub base : ℕ
  pub ceiling : ℕ
  pub horizon : ℕ
  pub most : ℕ

abbrev default : ℕ → ℕ → ℕ
default n d = if n == 0 then d else n

-- `withDefaults`
unfoldable pub with_defaults : DeferPolicy → DeferPolicy
with_defaults p = record {
  base = default p.base (60 * second);
  ceiling = default p.ceiling (15 * 60 * second);
  horizon = default p.horizon (8 * 24 * 3600 * second);
  most = default p.most 8;
}

-- `detail` is the payload of the record, empty where there is none.
pub record FailureRecord : Type 0 where
  pub node_id : String
  pub status : Status
  pub reason : String
  pub detail : String

-- `state` counts the consecutive defers of each node.
pub record RateLimitDefer : Type 0 where
  pub policy : DeferPolicy
  pub state : Table ℕ

-- `NewRateLimitDefer`
unfoldable pub new_rate_limit_defer : DeferPolicy → RateLimitDefer
unfolding with_defaults
new_rate_limit_defer p = record { policy = with_defaults p; state = [] }

-- An int64 shifted left: the bits above 64 are lost, and a set top bit is a negative number.
shift_left : ℕ → ℕ → ℕ
shift_left b k = b * 2 ^ k % 18446744073709551616

-- `backoff`
unfoldable pub backoff : DeferPolicy → ℕ → ℕ
unfolding shift_left
backoff p consecutive =
    let b = shift_left p.base consecutive in
    if leb 63 consecutive
    then p.ceiling
    else if b == 0 || ltb max_int64 b || ltb p.ceiling b
    then p.ceiling
    else b

abbrev pub is_failed : Status → Bool
is_failed Status.failed = true
is_failed _ = false

unfoldable pub is_rate_limit : FailureRecord → Bool
is_rate_limit rec = is_failed rec.status && str_eq rec.reason "rate-limit"

module _ (decode : String → Option ℤ) where
  -- `resetFrom`: `none` is the zero time.
  reset_time : Option ℤ → Option ℕ
  reset_time (some (pos n)) = if n == 0 then none else some (n * second)
  reset_time _ = none

  unfoldable pub reset_from : String → Option ℕ
  unfolding reset_time
  reset_from detail = if str_eq detail "" then none else reset_time (decode detail)

  -- The instant at which a record's node is to be tried again.
  unfoldable pub retry_at : DeferPolicy → ℕ → String → ℕ → ℕ
  unfolding reset_from backoff
  retry_at p consecutive detail now = elim (reset_from detail) [
    | none ↦ now + backoff p consecutive
    | some t ↦ if not (ltb now t) || ltb (now + p.horizon) t then now + backoff p consecutive else t
  ]

  -- `Classify`: `none` where the record flows to the failure policy.
  unfoldable pub classify : FailureRecord → ℕ → RateLimitDefer → Option Decision × RateLimitDefer
  unfolding is_rate_limit retry_at
  classify rec now d =
      let consecutive = amount_at rec.node_id d.state in
      if not (is_rate_limit rec)
      then (none, d)
      else if ltb d.policy.most (consecutive + 1)
      then (none, d)
      else (
        some (deferred (some (retry_at d.policy consecutive rec.detail now))),
        record d { state = put rec.node_id (consecutive + 1) d.state },
      )

-- `Reset`
unfoldable pub reset_node : String → RateLimitDefer → RateLimitDefer
reset_node node d = record d { state = delete node d.state }

-- `Restore`
unfoldable pub restore : String → ℤ → RateLimitDefer → RateLimitDefer
restore node (negsuc n) d = record d { state = delete node d.state }
restore node (pos n) d = record d {
  state = if n == 0 then delete node d.state else put node n d.state;
}

-- `Consecutive`
unfoldable pub consecutive_of : String → RateLimitDefer → ℕ
consecutive_of node d = amount_at node d.state
