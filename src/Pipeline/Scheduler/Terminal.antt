-- ===== src/Pipeline/Scheduler/Terminal.antt =====
-- pipeline/scheduler.go: terminal nodes and their count, over the moves of the handlers.
use faber.Common.{
  Option, none, ◌≡◌, refl, String, Bool, true, false, not, ◌&&◌, inl, inr, some, List, [], ◌∷◌,
  if◌then◌else◌, eq_iff, lookup, put, lookup-put, arith, Option-cases,
}
use faber.Pipeline.Values.{State}
use faber.Pipeline.Scheduler.{
  Life, queued, Work, Scheduler, is_done, is_waiting, is_pending, test_life, or_zero, before,
  is_zero, enqueue, set_node, push_at, push, mark_at, mark, lower_indeg, lower_all, release,
  succ_of,
}
use faber.Pipeline.Scheduler.Settle.{is_open}
use faber.Pipeline.Scheduler.Runs.{Moves, waken, quiet, chain, revise, settle, test_life-some}

pub is_open-false : (l : Life) → not (is_done l) ≡ true → is_done l ≡ false
is_open-false l h = ground arith

pub waiting-open : (l : Life) → is_waiting l ≡ true → is_done l ≡ false
waiting-open l h = ground arith

module _ {A : Type 0} where
  -- A terminal node is there as it was.
  abbrev pub Keeps : Scheduler A → Scheduler A → Type 0
  Keeps s t =
      (p : String) (n : Work A)
      → lookup p s.nodes ≡ some n
      → is_done n.life ≡ true
      → lookup p t.nodes ≡ some n

  pub put-Keeps :
      (id : String) (n n' : Work A) (s : Scheduler A)
      → lookup id s.nodes ≡ some n
      → is_done n.life ≡ false
      → Keeps s (set_node id n' s)
  unfolding set_node
  put-Keeps id n n' s e h p w f d = ground (arith, lookup-put id p n' s.nodes, eq_iff id p)

  pub push-Keeps : (id : String) (s : Scheduler A) → Keeps s (push id s)
  unfolding push push_at
  push-Keeps id s p w f d = elim (Option-cases (lookup id s.nodes)) [
    | inl e ↦ rw e f
    | inr (n, e) ↦ rw e (go n e (is_waiting n.life) refl)
  ]
    where
      go :
          (n : Work A)
          → lookup id s.nodes ≡ some n
          → (b : Bool) → is_waiting n.life ≡ b
          → lookup p
              (if b
                then record (set_node id (record n { life = queued }) s) {
                  ready = enqueue id s.ready;
                }
                else s).nodes
            ≡ some w
      go n e true h =
          put-Keeps id n (record n { life = queued }) s e (waiting-open n.life h) p w f d
      go n e false h = f

  if-Keeps :
      (p : String) (w : Work A) (b : Bool) (t u : Scheduler A)
      → lookup p t.nodes ≡ some w
      → lookup p u.nodes ≡ some w
      → lookup p (if b then t else u).nodes ≡ some w
  if-Keeps p w true t u f g = f
  if-Keeps p w false t u f g = g

  pub lower_indeg-Keeps : (d : String) (s : Scheduler A) → Keeps s (lower_indeg d s)
  unfolding lower_indeg
  lower_indeg-Keeps d s p w f h =
      let lowered = record s { indeg = put d (before (or_zero (lookup d s.indeg))) s.indeg } in
      if-Keeps p w (is_zero (before (or_zero (lookup d s.indeg))) && test_life is_pending d s)
        (push d lowered) lowered (push-Keeps d lowered p w f h) f

  pub lower_all-Keeps : (ds : List String) (s : Scheduler A) → Keeps s (lower_all ds s)
  unfolding lower_all
  lower_all-Keeps [] s p w f h = f
  lower_all-Keeps (d ∷ ds) s p w f h =
      lower_all-Keeps ds (lower_indeg d s) p w (lower_indeg-Keeps d s p w f h) h

  -- The readiness loop makes no node terminal.
  pub put-Mirrors :
      (id : String) (n' : Work A) (s : Scheduler A)
      → is_done n'.life ≡ false
      → Keeps (set_node id n' s) s
  unfolding set_node
  put-Mirrors id n' s h p w f d = ground (arith, lookup-put id p n' s.nodes)

  pub push-Mirrors : (id : String) (s : Scheduler A) → Keeps (push id s) s
  unfolding push push_at
  push-Mirrors id s = go (lookup id s.nodes)
    where
      if-Mirrors : (b : Bool) (t : Scheduler A) → Keeps t s → Keeps (if b then t else s) s
      if-Mirrors true t k = k
      if-Mirrors false t k = λ p w f d. f

      go : (o : Option (Work A)) → Keeps (push_at id o s) s
      go none = λ p w f d. f
      go (some n) =
          if-Mirrors (is_waiting n.life) _ (put-Mirrors id (record n { life = queued }) s refl)

  lower_indeg-Mirrors : (d : String) (s : Scheduler A) → Keeps (lower_indeg d s) s
  unfolding lower_indeg
  lower_indeg-Mirrors d s =
      go (is_zero (before (or_zero (lookup d s.indeg))) && test_life is_pending d s)
    where
      lowered : Scheduler A
      lowered = record s { indeg = put d (before (or_zero (lookup d s.indeg))) s.indeg }

      go : (b : Bool) → Keeps (if b then push d lowered else lowered) s
      go true = push-Mirrors d lowered
      go false = λ p w f k. f

  pub lower_all-Mirrors : (ds : List String) (s : Scheduler A) → Keeps (lower_all ds s) s
  unfolding lower_all
  lower_all-Mirrors [] s p w f d = f
  lower_all-Mirrors (x ∷ ds) s p w f d =
      lower_indeg-Mirrors x s p w (lower_all-Mirrors ds (lower_indeg x s) p w f d) d

  pub mark-Keeps :
      (id : String) (status : State) (s : Scheduler A)
      → is_open id s ≡ true
      → Keeps s (mark id status s)
  unfolding mark mark_at is_open
  mark-Keeps id status s h =
      let (n, e, o) = test_life-some _ id s h in
      rw e (put-Keeps id n _ s e (is_open-false n.life o))

  pub Run-Keeps : {b : Bool} {s t : Scheduler A} → Moves b s t → Keeps s t
  unfolding release
  Run-Keeps (quiet q) p w f h = rw (q.same_nodes) f
  Run-Keeps (chain r r') p w f h = Run-Keeps r' p w (Run-Keeps r p w f h) h
  Run-Keeps (revise {s = s} id n n' e r) p w f h = put-Keeps id n n' s e r.was_open p w f h
  Run-Keeps (settle {s = s} {t = t} id status o r) p w f h =
      lower_all-Keeps (succ_of id t) t p w (Run-Keeps r p w (mark-Keeps id status s o p w f h) h) h
  Run-Keeps (waken m) p w f h = Run-Keeps m p w f h
