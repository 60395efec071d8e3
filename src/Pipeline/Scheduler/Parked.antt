-- ===== src/Pipeline/Scheduler/Parked.antt =====
-- pipeline/scheduler.go: the parking lot of deferred nodes, under the moves that park no node.
use faber.Common.{
  ◌≤◌, ◌≡◌, refl, sym, ◌∙◌, ap, subst, String, Bool, true, false, inl, inr, ◌⊎◌, Option, none, some,
  List, [], ◌∷◌, if◌then◌else◌, str_eq, eq_iff, lookup, lookup-put, lookup-put_self, put, In, arith,
  ◌&&◌,
}
use mathlib.Core.Bool.{false≢true}
use faber.Pipeline.Values.{State}
use faber.Pipeline.Scheduler.{
  queued, done, Work, Scheduler, is_deferred, is_pending, is_waiting, is_zero, or_zero, before,
  set_node, push, push_at, test_at, test_life, wake_all, wake_parked, mark, mark_at, lower_indeg,
  lower_all, release, succ_of,
}
use faber.Pipeline.Scheduler.Runs.{Moves, quiet, chain, revise, settle, waken, test_life-some}

module _ {A : Type 0} where
  abbrev pub IsDeferred : String → Scheduler A → Type 0
  IsDeferred d s = (n : Work A) × (lookup d s.nodes ≡ some n) × (is_deferred n.life ≡ true)

  -- No node is newly deferred, a deferred one stays in the parking lot, an empty lot stays empty,
  -- and no worker comes back.
  pub record Calm (s t : Scheduler A) : Type 0 where
    pub old : (d : String) → IsDeferred d t → IsDeferred d s
    pub parked : (d : String) → IsDeferred d t → In d s.wait_zero → In d t.wait_zero
    pub emptied : s.wait_zero ≡ [] → t.wait_zero ≡ []
    pub out : s.outstanding ≤ t.outstanding

  pub calm : (s : Scheduler A) → Calm s s
  calm s = record { old = λ d x. x; parked = λ d x i. i; emptied = λ h. h; out = omega arith }

  pub calmer : {s t u : Scheduler A} → Calm s t → Calm t u → Calm s u
  calmer c c' = record {
    old = λ d x. c.old d (c'.old d x);
    parked = λ d x i. c'.parked d x (c.parked d (c'.old d x) i);
    emptied = λ h. c'.emptied (c.emptied h);
    out = omega (arith, c.out, c'.out);
  }

  if-Calm :
      {s : Scheduler A} (b : Bool) (t u : Scheduler A)
      → Calm s t
      → Calm s u
      → Calm s (if b then t else u)
  if-Calm true t u f g = f
  if-Calm false t u f g = g

  pub put-IsDeferred :
      (id : String) (n' : Work A) (s : Scheduler A) (d : String)
      → IsDeferred d (set_node id n' s)
      → ((str_eq id d ≡ true) × (is_deferred n'.life ≡ true)) ⊎ IsDeferred d s
  unfolding set_node
  put-IsDeferred id n' s d (m, e, h) = go (str_eq id d) refl (sym (lookup-put id d n' s.nodes) ∙ e)
    where
      go :
          (b : Bool)
          → str_eq id d ≡ b
          → (if b then some n' else lookup d s.nodes) ≡ some m
          → ((str_eq id d ≡ true) × (is_deferred n'.life ≡ true)) ⊎ IsDeferred d s
      go true q g = inl (q, ground (arith, g, h))
      go false q g = inr (m, g, h)

  -- A node is set to a life that is not deferred.
  awake :
      (id : String) (n' : Work A) (s : Scheduler A)
      → is_deferred n'.life ≡ false
      → (d : String) → IsDeferred d (set_node id n' s)
      → IsDeferred d s
  awake id n' s h d x = elim (put-IsDeferred id n' s d x) [
    | inl p ↦ elim (false≢true (sym h ∙ p.1)) [ ]
    | inr y ↦ y
  ]

  pub push-Calm : (id : String) (s : Scheduler A) → Calm s (push id s)
  unfolding push push_at set_node
  push-Calm id s = go (lookup id s.nodes)
    where
      go : (o : Option (Work A)) → Calm s (push_at id o s)
      go none = calm s
      go (some n) =
          if-Calm (is_waiting n.life) _ s
            (record {
              old = awake id (record n { life = queued }) s refl;
              parked = λ d x i. i;
              emptied = λ h. h;
              out = omega arith;
            })
            (calm s)

  lower_indeg-Calm : (d : String) (s : Scheduler A) → Calm s (lower_indeg d s)
  unfolding lower_indeg
  lower_indeg-Calm d s =
      let lowered = record s { indeg = put d (before (or_zero (lookup d s.indeg))) s.indeg } in
      let same : Calm s lowered = record {
        old = λ d x. x;
        parked = λ d x i. i;
        emptied = λ h. h;
        out = omega arith;
      } in
      if-Calm (is_zero (before (or_zero (lookup d s.indeg))) && test_life is_pending d s)
        (push d lowered) lowered (calmer same (push-Calm d lowered)) same

  lower_all-Calm : (ds : List String) (s : Scheduler A) → Calm s (lower_all ds s)
  unfolding lower_all
  lower_all-Calm [] s = calm s
  lower_all-Calm (d ∷ ds) s = calmer (lower_indeg-Calm d s) (lower_all-Calm ds (lower_indeg d s))

  mark-Calm : (id : String) (status : State) (s : Scheduler A) → Calm s (mark id status s)
  unfolding mark mark_at set_node
  mark-Calm id status s = go (lookup id s.nodes)
    where
      go : (o : Option (Work A)) → Calm s (mark_at id status o s)
      go none = calm s
      go (some n) = record {
        old = awake id (record n { life = done; status = status }) s refl;
        parked = λ d x i. i;
        emptied = λ h. h;
        out = omega arith;
      }

  -- What is pushed is deferred no more.
  push-IsDeferred :
      (id : String) (s : Scheduler A)
      → test_life is_deferred id s ≡ true
      → (d : String) → IsDeferred d (push id s)
      → id ≡ d
      → ⊥
  unfolding push push_at set_node
  push-IsDeferred id s h d (m, e, k) q =
      let (n, f, p) = test_life-some is_deferred id s h in
      ground (
        arith,
        f,
        p,
        subst (λ j. lookup j (push id s).nodes ≡ some m) (sym q) e,
        k,
        lookup-put_self id (record n { life = queued }) s.nodes,
      )

  not_deferred :
      (id : String) (s : Scheduler A)
      → test_life is_deferred id s ≡ false
      → (d : String) → IsDeferred d s
      → id ≡ d
      → ⊥
  unfolding test_life test_at
  not_deferred id s h d (m, e, k) q =
      ground (arith, h, subst (λ j. lookup j s.nodes ≡ some m) (sym q) e, k)

  push-lot : (id : String) (s : Scheduler A) → (push id s).wait_zero ≡ s.wait_zero
  unfolding push push_at set_node
  push-lot id s = ground arith

  -- Where the parking lot is woken, no node of it stays deferred.
  pub record Wakes (ws : List String) (s t : Scheduler A) : Type 0 where
    pub calmed : Calm s t
    pub same_lot : t.wait_zero ≡ s.wait_zero
    pub woken : (d : String) → IsDeferred d t → In d ws → ⊥

  pub wake_all-Wakes : (ws : List String) (s : Scheduler A) → Wakes ws s (wake_all ws s)
  unfolding wake_all
  wake_all-Wakes [] s = record { calmed = calm s; same_lot = refl; woken = λ d x i. i }
  wake_all-Wakes (w ∷ ws) s =
      go (test_life is_deferred w s) refl (wake_all-Wakes ws (push w s)) (wake_all-Wakes ws s)
    where
      go :
          (b : Bool)
          → test_life is_deferred w s ≡ b
          → Wakes ws (push w s) (wake_all ws (push w s))
          → Wakes ws s (wake_all ws s)
          → Wakes (w ∷ ws) s (if b then wake_all ws (push w s) else wake_all ws s)
      go true h p q = record {
        calmed = calmer (push-Calm w s) p.calmed;
        same_lot = p.same_lot ∙ push-lot w s;
        woken = λ d x i. elim i [
          | inl e ↦ push-IsDeferred w s h d (p.calmed.old d x) e
          | inr j ↦ p.woken d x j
        ];
      }
      go false h p q = record {
        calmed = q.calmed;
        same_lot = q.same_lot;
        woken = λ d x i. elim i [
          | inl e ↦ not_deferred w s h d (q.calmed.old d x) e
          | inr j ↦ q.woken d x j
        ];
      }

  pub wake_parked-empty : (s : Scheduler A) → (wake_parked s).wait_zero ≡ []
  unfolding wake_parked
  wake_parked-empty s = (wake_all-Wakes s.wait_zero (record s { wait_zero = [] })).same_lot

  pub wake_parked-Calm : (s : Scheduler A) → Calm s (wake_parked s)
  unfolding wake_parked
  wake_parked-Calm s =
      let w = wake_all-Wakes s.wait_zero (record s { wait_zero = [] }) in
      record {
        old = λ d x. w.calmed.old d x;
        parked = λ d x i. elim (w.woken d x i) [ ];
        emptied = λ h. w.same_lot;
        out = w.calmed.out;
      }

  pub Moves-Calm : {s t : Scheduler A} → Moves false s t → Calm s t
  unfolding release
  Moves-Calm (quiet q) = record {
    old = λ d (n, e, h). (n, sym (ap (lookup d) (q.same_nodes)) ∙ e, h);
    parked = λ d x i. subst (In d) (sym (q.same_parked refl)) i;
    emptied = λ h. q.same_parked refl ∙ h;
    out = q.still_out refl;
  }
  Moves-Calm (chain m m') = calmer (Moves-Calm m) (Moves-Calm m')
  Moves-Calm (revise {s = s} id n n' e r) = record {
    old = λ d x. elim (put-IsDeferred id n' s d x) [
      | inl p ↦
          (n, subst (λ k. lookup k s.nodes ≡ some n) ((eq_iff id d).0 p.0) e, r.no_defer refl p.1)
      | inr y ↦ y
    ];
    parked = λ d x i. i;
    emptied = λ h. h;
    out = omega arith;
  }
  Moves-Calm (settle {s = s} {t = t} id status o m) =
      calmer (mark-Calm id status s) (calmer (Moves-Calm m) (lower_all-Calm (succ_of id t) t))
  Moves-Calm (waken {s = s} m) = wake_parked-Calm s
