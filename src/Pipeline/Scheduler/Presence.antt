-- ===== src/Pipeline/Scheduler/Presence.antt =====
-- pipeline/scheduler.go: the ids of the graph, over the moves of the handlers.
use faber.Common.{
  ◌≡◌, refl, ◌∙◌, ap, String, Bool, true, false, Option, none, some, List, [], ◌∷◌, ◌&&◌,
  if◌then◌else◌, str_eq, lookup, put, lookup-put,
}
use faber.Pipeline.Values.{State}
use faber.Pipeline.Scheduler.{
  queued, done, Work, Scheduler, is_waiting, is_pending, test_life, before, is_zero, or_zero,
  succ_of, set_node, push_at, push, mark, mark_at, lower_indeg, lower_all, release,
}
use faber.Pipeline.Scheduler.Runs.{Moves, waken, quiet, chain, revise, settle}
use faber.Pipeline.Scheduler.Events.{seed_from}

module _ {A : Type 0} where
  -- A node of that id is there.
  abbrev pub Has : String → Scheduler A → Type 0
  Has p s = (n : Work A) × (lookup p s.nodes ≡ some n)

  put-Has : (p id : String) (n' : Work A) (s : Scheduler A) → Has p s → Has p (set_node id n' s)
  unfolding set_node
  put-Has p id n' s (m, e) = go (str_eq id p) refl
    where
      go : (b : Bool) → str_eq id p ≡ b → Has p (set_node id n' s)
      go true q =
          (n', lookup-put id p n' s.nodes ∙ ap (λ b. if b then some n' else lookup p s.nodes) q)
      go false q = (
        m,
        lookup-put id p n' s.nodes ∙ (ap (λ b. if b then some n' else lookup p s.nodes) q ∙ e),
      )

  if-Has :
      (p : String) (b : Bool) (s t : Scheduler A) → Has p s → Has p t → Has p (if b then s else t)
  if-Has p true s t f g = f
  if-Has p false s t f g = g

  push-Has : (p id : String) (s : Scheduler A) → Has p s → Has p (push id s)
  unfolding push push_at
  push-Has p id s h = go (lookup id s.nodes)
    where
      go : (o : Option (Work A)) → Has p (push_at id o s)
      go none = h
      go (some n) =
          if-Has p (is_waiting n.life) _ s (put-Has p id (record n { life = queued }) s h) h

  lower_all-Has :
      (p : String) (ds : List String) (s : Scheduler A) → Has p s → Has p (lower_all ds s)
  unfolding lower_all lower_indeg
  lower_all-Has p [] s h = h
  lower_all-Has p (d ∷ ds) s h =
      let lowered = record s { indeg = put d (before (or_zero (lookup d s.indeg))) s.indeg } in
      lower_all-Has p ds (lower_indeg d s) (
        if-Has p (is_zero (before (or_zero (lookup d s.indeg))) && test_life is_pending d s)
          (push d lowered) lowered (push-Has p d lowered h) h)

  pub mark-Has :
      (p id : String) (status : State) (s : Scheduler A) → Has p s → Has p (mark id status s)
  unfolding mark mark_at
  mark-Has p id status s h = go (lookup id s.nodes)
    where
      go : (o : Option (Work A)) → Has p (mark_at id status o s)
      go none = h
      go (some n) = put-Has p id (record n { life = done; status = status }) s h

  pub Run-Has : {b : Bool} {s t : Scheduler A} (p : String) → Moves b s t → Has p s → Has p t
  unfolding release
  Run-Has p (quiet q) (m, e) = (m, rw (q.same_nodes) e)
  Run-Has p (chain r r') h = Run-Has p r' (Run-Has p r h)
  Run-Has p (revise {s = s} id n n' e r) h = put-Has p id n' s h
  Run-Has p (settle {s = s} {t = t} id status o r) h =
      lower_all-Has p (succ_of id t) t (Run-Has p r (mark-Has p id status s h))
  Run-Has p (waken m) h = Run-Has p m h

  pub seed_from-Has :
      (p : String) (ids : List String) (s : Scheduler A) → Has p s → Has p (seed_from ids s)
  unfolding seed_from
  seed_from-Has p [] s h = h
  seed_from-Has p (id ∷ ids) s h =
      if-Has p (is_zero (or_zero (lookup id s.indeg))) _ _
        (seed_from-Has p ids (push id s) (push-Has p id s h)) (seed_from-Has p ids s h)
