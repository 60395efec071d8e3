-- ===== src/Metering/Admitter/Hooks.antt =====
-- metering/admit.go: the hooks as sequences of the ledger's critical sections.
use faber.Common.{
  ℕ, ◌≤◌, String, ◌≡◌, refl, Option, none, some, List, [], ◌∷◌, ◌++◌, arith, Table, lookup, delete,
  put, amount_at, IsUnique, put-IsUnique, All, Option-cases, Bool-cases, inl, inr,
}
use faber.Metering.Cost.{ℤ, pos, negsuc, Cost, credit, max_int64, sat_add_bounded}
use faber.Metering.Ledger.{Reservation, Ledger, charge}
use faber.Metering.Ledger.Reservations.{AreInt64}
use faber.Metering.Ledger.Charges.{IsInt64}
use faber.Metering.Ledger.Steps.{reserving, settling, folding, Reach, here, next}
use faber.Metering.Admitter.{
  Step, ResultView, Estimate, MeterApi, Admitter, Gathered, fold_estimate, claim_cost, claim_costs,
  gather, participates, conclude, admit_gathered, admit_metered, admit_step, reported_costs,
  settle_meters, settle_held, settle_step, fold_step, with_meters, meters_of,
}

pub delete-AreInt64 : (u : String) (m : Table ℕ) → AreInt64 m → AreInt64 (delete u m)
unfolding delete
delete-AreInt64 u [] k = tt
delete-AreInt64 u ((v, n) ∷ m) k = ground (arith, delete-AreInt64 u m k.1)

credit-AreInt64 :
    (u : String) (n : ℕ) (m : Table ℕ) → n ≤ max_int64 → AreInt64 m → AreInt64 (credit u n m)
unfolding credit put
credit-AreInt64 u n m k h = (sat_add_bounded (amount_at u m) n k, delete-AreInt64 u m h)

credit-IsUnique : (u : String) (n : ℕ) (m : Table ℕ) → IsUnique m → IsUnique (credit u n m)
unfolding credit
credit-IsUnique u n m q = put-IsUnique u _ m q

-- A table of claims, as the loop builds it.
abbrev pub IsClaim : Table ℕ → Type 0
IsClaim est = IsUnique est × AreInt64 est

claim_cost-IsClaim :
    (c : Cost) (z : ℤ) (est : Table ℕ)
    → c.amount ≡ z
    → IsInt64 c
    → IsClaim est
    → IsClaim (claim_cost c z est)
unfolding claim_cost
claim_cost-IsClaim c (negsuc n) est e k h = h
claim_cost-IsClaim c (pos n) est e k h =
    (credit-IsUnique c.unit n est h.0, credit-AreInt64 c.unit n est (rw e at k) h.1)

claim_costs-IsClaim :
    (cs : List Cost) (est : Table ℕ) → All IsInt64 cs → IsClaim est → IsClaim (claim_costs cs est)
unfolding claim_costs
claim_costs-IsClaim [] est k h = h
claim_costs-IsClaim (c ∷ cs) est k h =
    claim_costs-IsClaim cs _ k.1 (claim_cost-IsClaim c c.amount est refl k.0 h)

abbrev UsageInt64 : Option (Table ℕ) → Type 0
UsageInt64 none = Unit
UsageInt64 (some usage) = AreInt64 usage

-- Go's types: the values of a usage sidecar are int64.
abbrev pub IsReading : ResultView → Type 0
IsReading r = UsageInt64 r.usage

-- Go's types: the amounts that a meter reports are int64.
pub record ReportsInt64 {M : Type 0} (api : MeterApi M) : Type 0 where
  pub estimates :
      (m : M) (s : Step) (e : Estimate) → (api.estimate m s).0 ≡ some e → All IsInt64 e.costs
  pub actuals :
      (m : M) (r : ResultView) (cs : List Cost)
      → IsReading r
      → (api.actual m r).0 ≡ some cs
      → All IsInt64 cs

module _ {M : Type 0} (api : MeterApi M) (law : ReportsInt64 api) where
  abbrev GathersClaim : Option Gathered → Type 0
  GathersClaim none = Unit
  GathersClaim (some g) = IsClaim g.est

  gather-IsClaim :
      (l : Ledger) (s : Step) (g : Gathered) (ms : List M)
      → IsClaim g.est
      → GathersClaim (gather api l s g ms).0
  unfolding gather fold_estimate
  gather-IsClaim l s g [] h = h
  gather-IsClaim l s g (m ∷ ms) h = elim (Option-cases (api.estimate m s).0) [
    | inl e ↦ elim (Bool-cases (participates api l (api.estimate m s).1)) [
      | inl protects ↦ rw (e, protects, gather) tt
      | inr other ↦ rw (e, other, gather) (gather-IsClaim l s g ms h)
    ]
    | inr (est, e) ↦
        rw (e, gather)
          (gather-IsClaim l s (fold_estimate est g) ms
            (claim_costs-IsClaim est.costs g.est (law.estimates m s est e) h))
  ]

  -- The admitter's ledger moves by critical sections.
  abbrev Moves : Admitter M → Admitter M → Type 0
  Moves a b = Reach a.ledger b.ledger

  admit_gathered-Moves :
      (s : Step) (ms : List M) (answer : Option Gathered) (a : Admitter M)
      → GathersClaim answer
      → Moves a (admit_gathered api s ms answer a).1
  unfolding admit_gathered conclude with_meters
  admit_gathered-Moves s ms none a h = here
  admit_gathered-Moves s ms (some g) a h = elim (Option-cases g.until) [
    | inl e ↦
        rw (e, admit_gathered) (next here (reserving s.node_id s.endpoint g.est a.ledger h.0 h.1))
    | inr (t, e) ↦ rw (e, admit_gathered) here
  ]

  admit_metered-Moves :
      (s : Step) (ms : List M) (a : Admitter M) → Moves a (admit_metered api s ms a).1
  unfolding admit_metered
  admit_metered-Moves s [] a = here
  admit_metered-Moves s (m ∷ ms) a =
      admit_gathered-Moves s _ _ a
        (gather-IsClaim a.ledger s (record { until = none; est = [] }) (m ∷ ms) (tt, tt))

  admit_step-Moves : (s : Step) (a : Admitter M) → Moves a (admit_step api s a).1
  unfolding admit_step
  admit_step-Moves s a = admit_metered-Moves s (meters_of api s.endpoint a) a

  -- The two loops of `Settle` charge the concatenated actuals.
  gathered_actuals : ResultView → List M → List Cost
  gathered_actuals r [] = []
  gathered_actuals r (m ∷ ms) = reported_costs api (api.actual m r).0 ++ gathered_actuals r ms

  charge-append : (cs ds : List Cost) (t : Table ℕ) → charge (cs ++ ds) t ≡ charge ds (charge cs t)
  unfolding charge
  charge-append [] ds t = refl
  charge-append (c ∷ cs) ds t = charge-append cs ds _

  settle_meters-charge :
      (r : ResultView) (ms : List M) (spent : Table ℕ)
      → (settle_meters api r ms spent).1 ≡ charge (gathered_actuals r ms) spent
  unfolding settle_meters gathered_actuals charge
  settle_meters-charge r [] spent = refl
  settle_meters-charge r (m ∷ ms) spent =
      rw charge-append
        (settle_meters-charge r ms (charge (reported_costs api (api.actual m r).0) spent))

  reported-IsInt64 :
      (m : M) (r : ResultView) → IsReading r → All IsInt64 (reported_costs api (api.actual m r).0)
  unfolding reported_costs
  reported-IsInt64 m r k = elim (Option-cases (api.actual m r).0) [
    | inl e ↦ rw (e, reported_costs) tt
    | inr (cs, e) ↦ rw (e, reported_costs) (law.actuals m r cs k e)
  ]

  All-append : (cs ds : List Cost) → All IsInt64 cs → All IsInt64 ds → All IsInt64 (cs ++ ds)
  All-append [] ds h k = k
  All-append (c ∷ cs) ds h k = (h.0, All-append cs ds h.1 k)

  gathered_actuals-IsInt64 :
      (r : ResultView) (ms : List M) → IsReading r → All IsInt64 (gathered_actuals r ms)
  unfolding gathered_actuals
  gathered_actuals-IsInt64 r [] k = tt
  gathered_actuals-IsInt64 r (m ∷ ms) k =
      All-append _ _ (reported-IsInt64 m r k) (gathered_actuals-IsInt64 r ms k)

  settle_held-Moves :
      (r : ResultView) (res : Reservation) (a : Admitter M)
      → IsReading r
      → lookup r.node_id a.ledger.inflight ≡ some res
      → Moves a (settle_held api r res a).1
  unfolding settle_held
  settle_held-Moves r res a k e =
      let ms = meters_of api res.endpoint a in
      rw (settle_meters-charge r ms a.ledger.spent) (
        next here (
          settling r.node_id res (gathered_actuals r ms) a.ledger e
            (gathered_actuals-IsInt64 r ms k)))

  settle_step-Moves :
      (r : ResultView) (a : Admitter M) → IsReading r → Moves a (settle_step api r a).1
  unfolding settle_step
  settle_step-Moves r a k = elim (Option-cases (lookup r.node_id a.ledger.inflight)) [
    | inl e ↦ rw (e, settle_step) here
    | inr (res, e) ↦ rw (e, settle_step) (settle_held-Moves r res a k e)
  ]

  -- Any sequence of hooks, as the concurrent workers call them.
  pub data Hooks (a : Admitter M) : Admitter M → Type 0 where
    start : Hooks a a
    admit_call : {b : Admitter M} (s : Step) → Hooks a b → Hooks a (admit_step api s b).1
    settle_call :
        {b : Admitter M} (r : ResultView)
        → IsReading r
        → Hooks a b
        → Hooks a (settle_step api r b).1
    fold_call :
        {b : Admitter M} (costs : List Cost)
        → All IsInt64 costs
        → Hooks a b
        → Hooks a (fold_step costs b)

  Reach-trans : {l m n : Ledger} → Reach l m → Reach m n → Reach l n
  Reach-trans r here = r
  Reach-trans r (next q s) = next (Reach-trans r q) s

  -- Every sequence of hooks is a sequence of critical sections.
  pub Hooks-Reach : {a b : Admitter M} → Hooks a b → Reach a.ledger b.ledger
  unfolding fold_step
  Hooks-Reach start = here
  Hooks-Reach (admit_call {b} s h) = Reach-trans (Hooks-Reach h) (admit_step-Moves s b)
  Hooks-Reach (settle_call {b} r k h) = Reach-trans (Hooks-Reach h) (settle_step-Moves r b k)
  Hooks-Reach (fold_call {b} costs k h) = next (Hooks-Reach h) (folding costs b.ledger k)
