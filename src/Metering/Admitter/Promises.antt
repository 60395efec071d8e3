-- ===== src/Metering/Admitter/Promises.antt =====
-- metering/admit.go: the hooks as the scheduler calls them.
use faber.Common.{
  ℕ, ◌+◌, ◌≤◌, String, ◌≡◌, refl, Option, none, some, List, [], ◌∷◌, ◌++◌, arith, Table, lookup,
  amount_at, Bool-cases, Option-cases, inl, inr, lookup-put_self, lookup-delete_self, true,
}
use faber.Metering.Cost.{max_int64}
use faber.Metering.Ledger.{Reservation, Ledger, take_reservation, drop_reservation, release_node}
use faber.Metering.Ledger.Reservations.{
  IsLedger, IsBoundedTable, AreInt64, claim, amount_at-release, amount_at-hold,
}
use faber.Metering.Ledger.Budgets.{idle_reserves_nothing}
use faber.Metering.Admitter.{
  Step, ResultView, MeterApi, Admitter, Gathered, fold_estimate, meters_of, new_admitter, gather,
  participates, admit_gathered, admit_metered, admit_step, settle_held, settle_step,
}
use faber.Metering.Admitter.Hooks.{ReportsInt64, Hooks, Hooks-Reach}

new_admitter-IsLedger :
    {M : Type 0} (meters : Table (List M)) (budgets : Table ℕ)
    → IsLedger (new_admitter meters budgets).ledger
unfolding new_admitter amount_at lookup
new_admitter-IsLedger meters budgets = record {
  unique = tt;
  spent_int64 = λ u. omega arith;
  reserved_int64 = λ u. omega arith;
  backed = λ u. omega arith;
}

-- With meters that report int64 amounts, whatever hooks were called on a new admitter, in whatever
-- order: when no step is in flight, nothing is reserved in any unit.
pub Hooks-idle :
    {M : Type 0} (api : MeterApi M) (law : ReportsInt64 api) (meters : Table (List M))
    (budgets : Table ℕ) {a : Admitter M}
    → Hooks api law (new_admitter meters budgets) a
    → a.ledger.inflight ≡ []
    → (u : String) → amount_at u a.ledger.reserved ≡ 0
Hooks-idle api law meters budgets h e u =
    idle_reserves_nothing (new_admitter-IsLedger meters budgets) (Hooks-Reach api law h) e u

module _ {M : Type 0} (api : MeterApi M) where
  settle_absent :
      (r : ResultView) (a : Admitter M)
      → lookup r.node_id a.ledger.inflight ≡ none
      → settle_step api r a ≡ ([], a)
  unfolding settle_step
  settle_absent r a e = rw (e, settle_step)

  settle_clears :
      (r : ResultView) (a : Admitter M)
      → lookup r.node_id (settle_step api r a).1.ledger.inflight ≡ none
  unfolding settle_step settle_held
  settle_clears r a = elim (Option-cases (lookup r.node_id a.ledger.inflight)) [
    | inl e ↦ rw (e, settle_step) e
    | inr (res, e) ↦ rw (e, settle_step) (lookup-delete_self r.node_id a.ledger.inflight)
  ]

  -- Settle is idempotent: a second settlement of a node returns no costs and changes nothing.
  pub settle_twice :
      (r r' : ResultView) (a : Admitter M)
      → r'.node_id ≡ r.node_id
      → settle_step api r' (settle_step api r a).1 ≡ ([], (settle_step api r a).1)
  settle_twice r r' a e = settle_absent r' _ (rw e (settle_clears r a))

  -- A failed estimate of a meter that protects a budget is found by the loop.
  gather_fails :
      (l : Ledger) (s : Step) (g : Gathered) (before after : List M) (m : M)
      → (api.estimate m s).0 ≡ none
      → participates api l (api.estimate m s).1 ≡ true
      → (gather api l s g (before ++ m ∷ after)).0 ≡ none
  unfolding gather
  gather_fails l s g [] after m e p = rw (e, p, gather)
  gather_fails l s g (b ∷ before) after m e p = elim (Option-cases (api.estimate b s).0) [
    | inl f ↦ elim (Bool-cases (participates api l (api.estimate b s).1)) [
      | inl protects ↦ rw (f, protects, gather)
      | inr other ↦ rw (f, other, gather) (gather_fails l s g before after m e p)
    ]
    | inr (est, f) ↦ rw (f, gather) (gather_fails l s (fold_estimate est g) before after m e p)
  ]

  gathered_none :
      (s : Step) (ms : List M) (answer : Option Gathered) (a : Admitter M)
      → answer ≡ none
      → ((admit_gathered api s ms answer a).0 ≡ none)
        × ((admit_gathered api s ms answer a).1.ledger ≡ a.ledger)
  unfolding admit_gathered
  gathered_none s ms none a e = (refl, refl)
  gathered_none s ms (some g) a e = cc

  metered_fails :
      (s : Step) (a : Admitter M) (before after : List M) (m : M)
      → (api.estimate m s).0 ≡ none
      → participates api a.ledger (api.estimate m s).1 ≡ true
      → ((admit_metered api s (before ++ m ∷ after) a).0 ≡ none)
        × ((admit_metered api s (before ++ m ∷ after) a).1.ledger ≡ a.ledger)
  unfolding admit_metered
  metered_fails s a [] after m e p =
      gathered_none s _ _ a (gather_fails a.ledger s _ [] after m e p)
  metered_fails s a (b ∷ before) after m e p =
      gathered_none s _ _ a (gather_fails a.ledger s _ (b ∷ before) after m e p)

  -- Admission fails closed: if any meter of the step's endpoint class that protects a declared
  -- budget cannot estimate, the step is not admitted and the ledger is unchanged.
  pub admit_fails_closed :
      (s : Step) (a : Admitter M) (before after : List M) (m : M)
      → lookup s.endpoint a.meters ≡ some (before ++ m ∷ after)
      → (api.estimate m s).0 ≡ none
      → participates api a.ledger (api.estimate m s).1 ≡ true
      → ((admit_step api s a).0 ≡ none) × ((admit_step api s a).1.ledger ≡ a.ledger)
  unfolding admit_step
  admit_fails_closed s a before after m here e p =
      rw (here, admit_step, meters_of) (metered_fails s a before after m e p)

-- Admission and settlement of a node that was not in flight give back exactly what was held: every
-- reserved amount is what it was, if the sum did not saturate, and the node is in flight between.
pub take-drop :
    (node endpoint : String) (est : Table ℕ) (l : Ledger) (u : String)
    → lookup node l.inflight ≡ none
    → AreInt64 est
    → IsBoundedTable l.reserved
    → amount_at u l.reserved + claim u est ≤ max_int64
    → let res : Reservation = record { endpoint = endpoint; held = est } in
      let taken = take_reservation node endpoint est l in
      (lookup node taken.inflight ≡ some res)
      × (amount_at u (drop_reservation node res taken).reserved ≡ amount_at u l.reserved)
unfolding take_reservation drop_reservation release_node
take-drop node endpoint est l u e k b fits = (
  lookup-put_self node _ l.inflight,
  rw (e, release_node)
      (omega (arith, amount_at-release u est _, amount_at-hold u est l.reserved k b fits)),
)
