-- ===== src/Pipeline/Pools/Drain.antt =====
-- pipeline/scheduler.go: the pass of drain that grants slots.
use faber.Common.{
  String, ◌≡◌, refl, sym, ◌∙◌, subst, ◌≢◌, Bool, true, false, Option, none, some, List, [], ◌∷◌,
  ◌++◌, arith, if◌then◌else◌, Table, Bool-cases, Option-cases, inl, inr, All, eq_iff, str_eq,
}
use mathlib.Core.Option.{none-ne-some}
use faber.Pipeline.Pools.{
  Pool, ExecNode, Slots, Hold, Granted, choose, launching, setting_aside, is_free, is_slot_free,
  pool_of, lane_of, gen_pool, lane_pool, hold_reason, raise, take_slot, take_pools, grant,
}
use faber.Pipeline.Pools.Tallies.{pool_of-raise, raise_absent}
use faber.Pipeline.Pools.Grants.{Reach, launching as launching_step, hold_reason-none}

-- The running boxes after launches, the last one first.
abbrev pub started : List ExecNode → List ExecNode → List ExecNode
started [] running = running
started (n ∷ ns) running = started ns (n ∷ running)

raise-is_free :
    (name g : String) (ps : Table Pool)
    → is_free (pool_of g (raise name ps)) ≡ true
    → is_free (pool_of g ps) ≡ true
unfolding is_free
raise-is_free name g ps h = elim (Option-cases (pool_of name ps)) [
  | inl f ↦ subst (λ m. is_free (pool_of g m) ≡ true) (raise_absent name ps f) h
  | inr (q, f) ↦ elim (Bool-cases (str_eq name g)) [
    | inl t ↦
        subst (λ i. is_free (pool_of i ps) ≡ true) (ground (arith, eq_iff name g, t))
          (subst (λ o. is_free o ≡ true) (sym f)
            (ground (arith, pool_of-raise name g ps q f, t, h)))
    | inr t ↦ ground (arith, pool_of-raise name g ps q f, t, h)
  ]
]

hold_reason_free :
    (s : Slots) (n : ExecNode)
    → is_slot_free s ≡ true
    → is_free (gen_pool s n) ≡ true
    → is_free (lane_pool s n) ≡ true
    → hold_reason s n ≡ none
unfolding hold_reason
hold_reason_free s n a b c = rw (a, b, c) refl

take_pools-hold_reason :
    (s : Slots) (m n : ExecNode) → hold_reason (take_pools s m) n ≡ none → hold_reason s n ≡ none
unfolding take_pools take_slot is_slot_free gen_pool lane_pool
take_pools-hold_reason s m n h =
    let free = hold_reason-none (take_pools s m) n h in
    hold_reason_free s n (ground (arith, free.0)) (raise-is_free m.gen n.gen s.gen_pools free.1)
      (raise-is_free (lane_of m.template) (lane_of n.template) s.lanes free.2)

-- The passes that grant makes.
data Pass : Slots → List ExecNode → Granted → Type 0 where
  done : (s : Slots) → Pass s [] (record { slots = s; launched = []; held = []; queue = [] })
  full :
      (s : Slots) (q : List ExecNode)
      → is_slot_free s ≡ false
      → Pass s q (record { slots = s; launched = []; held = []; queue = q })
  launch :
      (s : Slots) (n : ExecNode) (q : List ExecNode) (g : Granted)
      → hold_reason s n ≡ none
      → Pass (take_pools s n) q g
      → Pass s (n ∷ q) (launching n g)
  aside :
      (s : Slots) (n : ExecNode) (q : List ExecNode) (g : Granted)
      → hold_reason s n ≢ none
      → Pass s q g
      → Pass s (n ∷ q) (setting_aside n g)

some-≢-none : {h : Option Hold} {why : Hold} → h ≡ some why → h ≢ none
some-≢-none e f = none-ne-some _ (sym f ∙ e)

choose-Pass :
    (s : Slots) (n : ExecNode) (q : List ExecNode) (launched passed : Granted) (b : Bool)
    (o : Option Hold)
    → is_slot_free s ≡ b
    → hold_reason s n ≡ o
    → Pass (take_pools s n) q launched
    → Pass s q passed
    → Pass s (n ∷ q) (
        if b
        then choose o n launched passed
        else record { slots = s; launched = []; held = []; queue = n ∷ q })
unfolding choose
choose-Pass s n q launched passed false o f e p r = full s (n ∷ q) f
choose-Pass s n q launched passed true none f e p r = launch s n q launched e p
choose-Pass s n q launched passed true (some why) f e p r = aside s n q passed (some-≢-none e) r

grant-Pass : (s : Slots) (q : List ExecNode) → Pass s q (grant s q)
unfolding grant
grant-Pass s [] = done s
grant-Pass s (n ∷ q) =
    choose-Pass s n q (grant (take_pools s n) q) (grant s q) (is_slot_free s) (hold_reason s n) refl
      refl (grant-Pass (take_pools s n) q) (grant-Pass s q)

-- The bounds only fill up during a pass.
Pass-hold_reason :
    {s : Slots} {q : List ExecNode} {g : Granted} (n : ExecNode)
    → Pass s q g
    → hold_reason g.slots n ≡ none
    → hold_reason s n ≡ none
unfolding launching setting_aside
Pass-hold_reason n (done s) h = h
Pass-hold_reason n (full s q f) h = h
Pass-hold_reason n (launch s m q g k p) h = take_pools-hold_reason s m n (Pass-hold_reason n p h)
Pass-hold_reason n (aside s m q g k p) h = Pass-hold_reason n p h

full-held :
    (s : Slots) (q : List ExecNode) → is_slot_free s ≡ false → All (λ n. hold_reason s n ≢ none) q
full-held s [] f = tt
full-held s (n ∷ q) f = ((λ h. ground (arith, (hold_reason-none s n h).0, f)), full-held s q f)

Pass-held :
    {s : Slots} {q : List ExecNode} {g : Granted}
    → Pass s q g
    → All (λ n. hold_reason g.slots n ≢ none) (g.held ++ g.queue)
unfolding launching setting_aside
Pass-held (done s) = tt
Pass-held (full s q f) = full-held s q f
Pass-held (launch s n q g k p) = Pass-held p
Pass-held (aside s n q g k p) = ((λ h. k (Pass-hold_reason n p h)), Pass-held p)

Pass-Reach :
    {s : Slots} {q : List ExecNode} {g : Granted} (running : List ExecNode)
    → Pass s q g
    → Reach s running
    → Reach g.slots (started g.launched running)
unfolding launching setting_aside
Pass-Reach running (done s) r = r
Pass-Reach running (full s q f) r = r
Pass-Reach running (launch s n q g k p) r =
    Pass-Reach (n ∷ running) p (launching_step s n running r k)
Pass-Reach running (aside s n q g k p) r = Pass-Reach running p r

-- After the pass over the waiting nodes, each node that was set aside or not reached is held by the
-- bounds as they then are: no box that could run is left waiting.
pub grant_leaves_held :
    (s : Slots) (q : List ExecNode)
    → All (λ n. hold_reason (grant s q).slots n ≢ none) ((grant s q).held ++ (grant s q).queue)
grant_leaves_held s q = Pass-held (grant-Pass s q)

-- From bounds that launches and settlements lead to, a pass over the waiting nodes again leads to
-- such bounds, with the boxes it launched running beside the earlier ones.
pub grant_reaches :
    (s : Slots) (running q : List ExecNode)
    → Reach s running
    → Reach (grant s q).slots (started (grant s q).launched running)
grant_reaches s running q r = Pass-Reach running (grant-Pass s q) r
