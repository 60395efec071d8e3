-- ===== src/Pipeline/Scheduler/Members.antt =====
-- pipeline/scheduler.go: the members of a sub-workflow's entry that is not ok, and the fuel with which
-- they are settled.
use faber.Common.{
  ℕ, zero, suc, ◌≤◌, ◌≡◌, refl, sym, subst, String, Bool, true, false, not, inl, inr, Option, none,
  some, List, [], ◌∷◌, if◌then◌else◌, length, lookup, In, arith,
}
use faber.Pipeline.Values.{State}
use faber.Pipeline.Scheduler.{
  Work, Scheduler, Host, is_done, is_ok, test_life, test_at, set_node, mark_at, mark, release,
  wake_parked, succ_of, members_of, list_or_nil,
}
use faber.Pipeline.Scheduler.Settle.{
  is_open, log_record, member_skip, skip_members, cascade, spread, finish, settle_skip, skip_record,
  skipping,
}
use faber.Pipeline.Scheduler.Runs.{
  Run, chain, Nests, test_life-some, skip_members-Run, cascade-Run, spread-Run, wake_parked-Run,
}
use faber.Pipeline.Scheduler.Runs.Settled.{settle_skip-Nests, log_record-Steady}
use faber.Pipeline.Scheduler.Terminal.{Run-Keeps, lower_all-Keeps}
use faber.Pipeline.Scheduler.Counts.{IsCounted, mark-IsCounted}
use faber.Pipeline.Scheduler.Readiness.Edges.{IsSettled, Keeps-IsSettled}
use faber.Pipeline.Scheduler.Readiness.Runs.{mark-IsSettled}
use faber.Pipeline.Scheduler.Presence.{Has, Run-Has, mark-Has}
use faber.Pipeline.Scheduler.Fuel.{mark-count, IsFueled, Run-IsFueled, open-fuel}

no_fuel : 1 ≤ 0 → ⊥
no_fuel h = omega arith

done_unless_open : (b : Bool) → not b ≡ false → b ≡ true
done_unless_open b h = ground arith

module _ {A : Type 0} where
  Run-IsSettled : {s t : Scheduler A} (p : String) → Run s t → IsSettled p s → IsSettled p t
  Run-IsSettled {s = s} {t = t} p r d = Keeps-IsSettled p s t (Run-Keeps r) d

  -- A node that is there is open or settled.
  closed-IsSettled : (p : String) (s : Scheduler A) → Has p s → is_open p s ≡ false → IsSettled p s
  unfolding is_open test_life test_at
  closed-IsSettled p s (n, e) h = (
    n,
    e,
    done_unless_open (is_done n.life) (subst (λ o. test_at (λ l. not (is_done l)) o ≡ false) e h),
  )

  if-IsSettled :
      (m : String) (b : Bool) (t u : Scheduler A)
      → (b ≡ true → IsSettled m t)
      → (b ≡ false → IsSettled m u)
      → IsSettled m (if b then t else u)
  if-IsSettled m true t u f g = f refl
  if-IsSettled m false t u f g = g refl

  mark-members :
      (id : String) (status : State) (s : Scheduler A)
      → members_of id (mark id status s) ≡ members_of id s
  unfolding mark mark_at members_of set_node
  mark-members id status s = go (lookup id s.nodes)
    where
      go :
          (o : Option (Work A))
          → list_or_nil (lookup id (mark_at id status o s).members)
            ≡ list_or_nil (lookup id s.members)
      go none = refl
      go (some n) = refl

  mark-IsFueled :
      (fuel : ℕ) (id : String) (status : State) (s : Scheduler A)
      → is_open id s ≡ true
      → IsFueled (suc fuel) s
      → IsFueled fuel (mark id status s)
  mark-IsFueled fuel id status s o f =
      let (n, c) = mark-count id status s o in
      record {
        counted = mark-IsCounted id status s o f.counted;
        enough = omega (arith, n.size, c, f.enough);
      }

  -- The end of finish.
  ending :
      (p id : String) (t : Scheduler A) → IsSettled p t → IsSettled p (wake_parked (release id t))
  unfolding release
  ending p id t d =
      Run-IsSettled p (wake_parked-Run (release id t))
        (Keeps-IsSettled p t (release id t) (lower_all-Keeps (succ_of id t) t) d)

  -- With its fuel, a nested settlement settles the node that it is given.
  abbrev Settles : ℕ → (String → State → String → Scheduler A → Scheduler A) → Type 0
  Settles fuel skip =
      (id : String) (state : State) (ancestor : String) (s : Scheduler A)
      → is_open id s ≡ true
      → IsFueled fuel s
      → IsSettled id (skip id state ancestor s)

  module _ (fuel : ℕ) (skip : String → State → String → Scheduler A → Scheduler A)
      (nests : Nests skip) where
    skip_members-settled :
        Settles fuel skip
        → (state : State) (ancestor : String) (ms : List String) (s : Scheduler A) → IsFueled fuel s
        → (m : String) → In m ms
        → Has m s
        → IsSettled m (skip_members skip state ancestor ms s)
    unfolding skip_members
    skip_members-settled settles state ancestor [] s f m i h = elim i [ ]
    skip_members-settled settles state ancestor (x ∷ ms) s f m i h =
        if-IsSettled m (is_open x s) _ _
          (λ o.
            let r = nests x state ancestor s o in
            elim i [
              | inl e ↦
                  Run-IsSettled m
                    (skip_members-Run skip nests state ancestor ms (skip x state ancestor s))
                    (subst (λ k. IsSettled k (skip x state ancestor s)) e
                      (settles x state ancestor s o f))
              | inr j ↦
                  skip_members-settled settles state ancestor ms (skip x state ancestor s)
                    (Run-IsFueled fuel r f) m j (Run-Has m r h)
            ])
          (λ c. elim i [
            | inl e ↦
                Run-IsSettled m (skip_members-Run skip nests state ancestor ms s)
                  (closed-IsSettled m s h (subst (λ k. is_open k s ≡ false) e c))
            | inr j ↦ skip_members-settled settles state ancestor ms s f m j h
          ])

    finish-IsSettled :
        (id : String) (status : State) (s : Scheduler A)
        → is_open id s ≡ true
        → IsSettled id (finish skip id status s)
    unfolding finish release is_open
    finish-IsSettled id status s o =
        let (n, e, k) = test_life-some (λ l. not (is_done l)) id s o in
        let cascaded = cascade skip id status (mark id status s) in
        let inner =
          Run-IsSettled id
            (chain (cascade-Run skip nests id status (mark id status s))
              (spread-Run skip nests id status cascaded))
            (mark-IsSettled id status n s e) in
        ending id id (spread skip id status cascaded) inner

    cascade-settled :
        Settles fuel skip
        → (id : String) (status : State) (s : Scheduler A) → is_ok status ≡ false
        → IsFueled fuel s
        → (m : String) → In m (members_of id s)
        → Has m s
        → IsSettled m (cascade skip id status s)
    unfolding cascade
    cascade-settled settles id status s k f m i h = rw k (
        skip_members-settled settles (member_skip status id).0 (member_skip status id).1
          (members_of id s) s f m i h)

    finish-settled :
        Settles fuel skip
        → (id : String) (status : State) (s : Scheduler A) → is_open id s ≡ true
        → is_ok status ≡ false
        → IsFueled (suc fuel) s
        → (m : String) → In m (members_of id s)
        → Has m s
        → IsSettled m (finish skip id status s)
    unfolding finish release
    finish-settled settles id status s o k f m i h =
        let marked = mark id status s in
        let c =
          cascade-settled settles id status marked k (mark-IsFueled fuel id status s o f) m
            (subst (In m) (sym (mark-members id status s)) i) (mark-Has m id status s h) in
        let cascaded = cascade skip id status marked in
        let d = Run-IsSettled m (spread-Run skip nests id status cascaded) c in
        ending m id (spread skip id status cascaded) d

  settle_skip-Settles : (host : Host A) (fuel : ℕ) → Settles fuel (settle_skip host fuel)
  unfolding settle_skip
  settle_skip-Settles host zero id state ancestor s o f = elim (no_fuel (open-fuel 0 id s o f)) [ ]
  settle_skip-Settles host (suc fuel) id state ancestor s o f =
      let rec = skip_record host id state ancestor in
      finish-IsSettled fuel (settle_skip host fuel) (settle_skip-Nests host fuel) id state
        (log_record host rec s) (log_record-Steady host rec id s o).1

  -- When a node that is not terminal settles in any state but ok, each member of its sub-workflow
  -- that is a node of the graph is terminal at the end of that settlement: the fuel of the nested
  -- settlements is enough. The counter of terminal nodes is taken to be right and no id to stand
  -- twice.
  pub finish-members :
      (host : Host A) (id : String) (status : State) (s : Scheduler A)
      → IsCounted s
      → is_open id s ≡ true
      → is_ok status ≡ false
      → (m : String) → In m (members_of id s)
      → Has m s
      → IsSettled m (finish (skipping host s) id status s)
  unfolding skipping
  finish-members host id status s c o k =
      let fuel = suc (length s.nodes) in
      finish-settled fuel (settle_skip host fuel) (settle_skip-Nests host fuel)
        (settle_skip-Settles host fuel) id status s o k
        (record { counted = c; enough = omega arith })
