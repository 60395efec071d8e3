-- ===== src/Pipeline/Scheduler/Readiness/Edges.antt =====
-- pipeline/scheduler.go: the order that the edges impose, kept by each kind of move.
use faber.Common.{
  ◌≤◌, ◌≡◌, refl, sym, ◌∙◌, ap, subst, String, Bool, true, false, ◌&&◌, inl, inr, Option, none,
  some, List, [], ◌∷◌, if◌then◌else◌, str_eq, eq_iff, Table, lookup, put, IsUnique, arith,
  Bool-cases,
}
use mathlib.Core.Bool.{false≢true}
use faber.Failure.Skips.{contains}
use faber.Pipeline.Values.{State}
use faber.Pipeline.Scheduler.{
  Life, done, Work, Scheduler, is_done, is_waiting, is_pending, before, is_zero, list_or_nil,
  test_life, or_zero, set_node, succ_of, mark_at, push, push_at, lower_indeg, lower_all, release,
}
use faber.Pipeline.Scheduler.Runs.{is_started, IsQuiet, IsRevision}
use faber.Pipeline.Scheduler.Terminal.{Keeps, put-Keeps, lower_all-Keeps}
use faber.Pipeline.Scheduler.Readiness.Blocked.{Blocks, put-Blocks, lower_all-Blocks}
use faber.Pipeline.Scheduler.Readiness.Unmet.{unmet, unmet-release}
use faber.Pipeline.Scheduler.Readiness.{Tracks, Tracks-ext, put-Tracks, lower_all-Tracks}

revised_pending :
    (l l' : Life)
    → is_done l ≡ false
    → is_started l' ≡ is_started l
    → is_pending l' ≡ true
    → is_pending l ≡ true
revised_pending l l' o st h = ground arith

module _ {A : Type 0} where
  -- A node that is there and terminal.
  abbrev pub IsSettled : String → Scheduler A → Type 0
  IsSettled p s = (n : Work A) × (lookup p s.nodes ≡ some n) × (is_done n.life ≡ true)

  pub Keeps-IsSettled : (p : String) (s t : Scheduler A) → Keeps s t → IsSettled p s → IsSettled p t
  Keeps-IsSettled p s t k (n, e, h) = (n, k p n e h, h)

  pub record IsOrdered (released : List String) (s : Scheduler A) : Type 0 where
    pub unique : IsUnique s.succ
    pub tracks : Tracks (unmet released s.succ) s
    pub blocked : Blocks (unmet released s.succ) s
    pub terminal : (p : String) → contains released p ≡ true → IsSettled p s

  if-succ :
      {g : Table (List String)} (b : Bool) (t u : Scheduler A)
      → t.succ ≡ g
      → u.succ ≡ g
      → (if b then t else u).succ ≡ g
  if-succ true t u f h = f
  if-succ false t u f h = h

  pub push_at-succ :
      (id : String) (o : Option (Work A)) (s : Scheduler A) → (push_at id o s).succ ≡ s.succ
  unfolding push_at set_node
  push_at-succ id none s = refl
  push_at-succ id (some n) s = if-succ (is_waiting n.life) _ s refl refl

  lower_indeg-succ : (d : String) (s : Scheduler A) → (lower_indeg d s).succ ≡ s.succ
  unfolding lower_indeg push
  lower_indeg-succ d s =
      let lowered = record s { indeg = put d (before (or_zero (lookup d s.indeg))) s.indeg } in
      if-succ (is_zero (before (or_zero (lookup d s.indeg))) && test_life is_pending d s) _ lowered
        (push_at-succ d (lookup d s.nodes) lowered) refl

  pub lower_all-succ : (ds : List String) (s : Scheduler A) → (lower_all ds s).succ ≡ s.succ
  unfolding lower_all
  lower_all-succ [] s = refl
  lower_all-succ (d ∷ ds) s = lower_all-succ ds (lower_indeg d s) ∙ lower_indeg-succ d s

  told_settled :
      (id : String) (released : List String) (p : String) (s : Scheduler A)
      → IsSettled id s
      → ((q : String) → contains released q ≡ true → IsSettled q s)
      → contains (id ∷ released) p ≡ true
      → IsSettled p s
  unfolding contains
  told_settled id released p s d before h = go (str_eq id p) refl h
    where
      go :
          (b : Bool)
          → str_eq id p ≡ b
          → (if b then true else contains released p) ≡ true
          → IsSettled p s
      go true e h = subst (λ q. IsSettled q s) ((eq_iff id p).0 e) d
      go false e h = before p h

  pub release-IsOrdered :
      (id : String) (released : List String) (s : Scheduler A)
      → IsSettled id s
      → contains released id ≡ false
      → IsOrdered released s
      → IsOrdered (id ∷ released) (release id s)
  unfolding release succ_of
  release-IsOrdered id released s d f o =
      let ds = list_or_nil (lookup id s.succ) in
      let kept = lower_all-Keeps ds s in
      let told = Tracks-ext _ _ s (λ x. unmet-release id released s.succ x o.unique f) o.tracks in
      let same = lower_all-succ ds s in
      record {
        unique = subst IsUnique (sym same) o.unique;
        tracks =
            subst (λ g. Tracks (unmet (id ∷ released) g) (lower_all ds s)) (sym same)
              (lower_all-Tracks _ ds s told);
        blocked =
            subst (λ g. Blocks (unmet (id ∷ released) g) (lower_all ds s)) (sym same)
              (lower_all-Blocks _ ds s told (λ x n e h.
                subst (λ k. 1 ≤ k) (unmet-release id released s.succ x o.unique f)
                  (o.blocked x n e h)));
        terminal = λ p h.
            Keeps-IsSettled p s (lower_all ds s) kept (told_settled id released p s d o.terminal h);
      }

  pub mark-IsOrdered :
      (id : String) (status : State) (n : Work A) (released : List String) (s : Scheduler A)
      → lookup id s.nodes ≡ some n
      → is_done n.life ≡ false
      → IsOrdered released s
      → IsOrdered released (mark_at id status (some n) s)
  unfolding mark_at set_node
  mark-IsOrdered id status n released s e h o =
      let n' : Work A = record n { life = done; status = status } in
      let t =
        put-Tracks (unmet released s.succ) id n' s (λ absurd. elim (false≢true absurd) [ ])
          o.tracks in
      record {
        unique = o.unique;
        tracks = record { indegrees = t.indegrees; ready = t.ready };
        blocked =
            put-Blocks (unmet released s.succ) id n' s (λ absurd. elim (false≢true absurd) [ ])
              o.blocked;
        terminal = λ p c.
            Keeps-IsSettled p s (set_node id n' s) (put-Keeps id n n' s e h) (o.terminal p c);
      }

  pub open-unsettled :
      (id : String) (n : Work A) (s : Scheduler A)
      → lookup id s.nodes ≡ some n
      → is_done n.life ≡ false
      → IsSettled id s
      → ⊥
  open-unsettled id n s e h (m, f, d) = ground arith

  pub open-unreleased :
      (id : String) (released : List String) (n : Work A) (s : Scheduler A)
      → lookup id s.nodes ≡ some n
      → is_done n.life ≡ false
      → IsOrdered released s
      → contains released id ≡ false
  open-unreleased id released n s e h o = elim (Bool-cases (contains released id)) [
    | inl c ↦ elim (open-unsettled id n s e h (o.terminal id c)) [ ]
    | inr f ↦ f
  ]

  pub quiet-IsOrdered :
      {b : Bool} (released : List String) (s t : Scheduler A)
      → IsQuiet b s t
      → IsOrdered released s
      → IsOrdered released t
  quiet-IsOrdered released s t q o = record {
    unique = rw (q.same_succ) (o.unique);
    tracks = record {
      indegrees = λ d. rw (q.same_indeg, q.same_succ) (o.tracks.indegrees d);
      ready = λ d n e h.
          rw (q.same_succ) (o.tracks.ready d n (sym (ap (lookup d) (q.same_nodes)) ∙ e) h);
    };
    blocked =
        λ d n e h. rw (q.same_succ) (o.blocked d n (sym (ap (lookup d) (q.same_nodes)) ∙ e) h);
    terminal = λ p c. Keeps-IsSettled p s t (λ p n e h. rw (q.same_nodes) e) (o.terminal p c);
  }

  pub revise-IsOrdered :
      {b : Bool} (id : String) (n n' : Work A) (released : List String) (s : Scheduler A)
      → lookup id s.nodes ≡ some n
      → IsRevision b n n'
      → IsOrdered released s
      → IsOrdered released (set_node id n' s)
  unfolding set_node
  revise-IsOrdered id n n' released s e r o =
      let t =
        put-Tracks (unmet released s.succ) id n' s (λ h. o.tracks.ready id n e (sym r.started ∙ h))
          o.tracks in
      record {
        unique = o.unique;
        tracks = t;
        blocked =
            put-Blocks (unmet released s.succ) id n' s
              (λ h. o.blocked id n e (revised_pending n.life n'.life r.was_open r.started h))
              o.blocked;
        terminal = λ p c.
            Keeps-IsSettled p s (set_node id n' s) (put-Keeps id n n' s e r.was_open)
              (o.terminal p c);
      }
