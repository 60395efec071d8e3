-- ===== src/Pipeline/Scheduler/Readiness/Runs.antt =====
-- pipeline/scheduler.go: the order of the edges over a whole handler.
use faber.Common.{
  ◌≡◌, refl, sym, ap, subst, if◌then◌else◌, lookup-put, inl, inr, ◌⊎◌, true, Bool, ◌∙◌, String,
  false, not, some, List, ◌∷◌, str_eq, eq_iff, lookup, lookup-put_self, arith,
}
use faber.Failure.Skips.{contains}
use faber.Pipeline.Values.{State}
use faber.Pipeline.Scheduler.{
  done, Work, Scheduler, is_done, set_node, mark_at, mark, succ_of, release,
}
use faber.Pipeline.Scheduler.Settle.{is_open}
use faber.Pipeline.Scheduler.Runs.{Moves, waken, quiet, chain, revise, settle, test_life-some}
use faber.Pipeline.Scheduler.Terminal.{
  is_open-false, Run-Keeps, mark-Keeps, lower_all-Mirrors, put-Mirrors,
}
use faber.Pipeline.Scheduler.Readiness.Unmet.{contains-other}
use faber.Pipeline.Scheduler.Readiness.Edges.{
  IsSettled, Keeps-IsSettled, IsOrdered, lower_all-succ, release-IsOrdered, mark-IsOrdered,
  open-unreleased, quiet-IsOrdered, revise-IsOrdered,
}

contains-more :
    (id p : String) (xs : List String) → contains xs p ≡ true → contains (id ∷ xs) p ≡ true
unfolding contains
contains-more id p xs h = ground (arith, h)

contains-here :
    (id p : String) (xs : List String) → str_eq id p ≡ true → contains (id ∷ xs) p ≡ true
unfolding contains
contains-here id p xs h = rw h refl

module _ {A : Type 0} where
  -- A run leaves the edges, releases no node that was terminal before, and each node that it
  -- makes terminal.
  pub record Goes (released : List String) (s t : Scheduler A) : Type 0 where
    pub after : List String
    pub ordered : IsOrdered after t
    pub edges : t.succ ≡ s.succ
    pub told : (p : String) → IsSettled p t → (contains after p ≡ true) ⊎ IsSettled p s
    pub same : (p : String) → IsSettled p s → contains after p ≡ contains released p

  pub mark-IsSettled :
      (id : String) (status : State) (n : Work A) (s : Scheduler A)
      → lookup id s.nodes ≡ some n
      → IsSettled id (mark id status s)
  unfolding mark mark_at set_node
  mark-IsSettled id status n s e = rw e (_, lookup-put_self id _ s.nodes, refl)

  marked_before :
      (id : String) (status : State) (n : Work A) (p : String) (s : Scheduler A)
      → lookup id s.nodes ≡ some n
      → IsSettled p (mark id status s)
      → (str_eq id p ≡ true) ⊎ IsSettled p s
  unfolding mark mark_at set_node
  marked_before id status n p s e (m, f, d) = go (str_eq id p) refl (
      sym (lookup-put id p n' s.nodes)
      ∙ subst (λ o. lookup p (mark_at id status o s).nodes ≡ some m) e f)
    where
      n' : Work A
      n' = record n { life = done; status = status }

      go :
          (b : Bool)
          → str_eq id p ≡ b
          → (if b then some n' else lookup p s.nodes) ≡ some m
          → (str_eq id p ≡ true) ⊎ IsSettled p s
      go true q g = inl q
      go false q g = inr (m, g, d)

  pub mark-succ :
      (id : String) (status : State) (n : Work A) (s : Scheduler A)
      → lookup id s.nodes ≡ some n
      → (mark id status s).succ ≡ s.succ
  unfolding mark mark_at set_node
  mark-succ id status n s e = rw e refl

  open-other :
      (id : String) (n : Work A) (p : String) (s : Scheduler A)
      → lookup id s.nodes ≡ some n
      → is_done n.life ≡ false
      → IsSettled p s
      → str_eq id p ≡ false
  open-other id n p s e h (m, f, d) = ground (arith, eq_iff id p)

  pub Run-Goes :
      {b : Bool} {s t : Scheduler A} (released : List String)
      → Moves b s t
      → IsOrdered released s
      → Goes released s t
  unfolding mark is_open release set_node
  Run-Goes released (quiet {s = s} {t = t} q) o = record {
    after = released;
    ordered = quiet-IsOrdered released s t q o;
    edges = q.same_succ;
    told = λ p d. inr (Keeps-IsSettled p t s (λ p n e h. sym (ap (lookup p) (q.same_nodes)) ∙ e) d);
    same = λ p d. refl;
  }
  Run-Goes released (chain {s = s} {t = t} r r') o =
      let g = Run-Goes released r o in
      let g' = Run-Goes g.after r' g.ordered in
      record {
        after = g'.after;
        ordered = g'.ordered;
        edges = g'.edges ∙ g.edges;
        told = λ p d. elim (g'.told p d) [
          | inl c ↦ inl c
          | inr d' ↦ elim (g.told p d') [ inl c ↦ inl (g'.same p d' ∙ c) | inr d2 ↦ inr d2 ]
        ];
        same = λ p d. g'.same p (Keeps-IsSettled p s t (Run-Keeps r) d) ∙ g.same p d;
      }
  Run-Goes released (revise {s = s} id n n' e r) o = record {
    after = released;
    ordered = revise-IsOrdered id n n' released s e r o;
    edges = refl;
    told =
        λ p d. inr (Keeps-IsSettled p (set_node id n' s) s (put-Mirrors id n' s r.is_open_still) d);
    same = λ p d. refl;
  }
  Run-Goes released (settle {s = s} {t = t} id status isopen r) o =
      let (n, e, k) = test_life-some (λ l. not (is_done l)) id s isopen in
      let h = is_open-false n.life k in
      let d = mark-IsSettled id status n s e in
      let g = Run-Goes released r (rw e (mark-IsOrdered id status n released s e h o)) in
      record {
        after = id ∷ g.after;
        ordered =
            release-IsOrdered id g.after t (Keeps-IsSettled id (mark id status s) t (Run-Keeps r) d)
              (g.same id d ∙ open-unreleased id released n s e h o) g.ordered;
        edges = lower_all-succ (succ_of id t) t ∙ (g.edges ∙ mark-succ id status n s e);
        told = λ p d'.
            elim (g.told p
              (Keeps-IsSettled p (release id t) t (lower_all-Mirrors (succ_of id t) t) d')) [
                | inl c ↦ inl (contains-more id p g.after c)
                | inr m ↦ elim (marked_before id status n p s e m) [
                  | inl q ↦ inl (contains-here id p g.after q)
                  | inr d2 ↦ inr d2
                ]
              ];
        same = λ p d'.
            contains-other id p g.after (open-other id n p s e h d')
            ∙ g.same p (Keeps-IsSettled p s (mark id status s) (mark-Keeps id status s isopen) d');
      }
  Run-Goes released (waken m) o = Run-Goes released m o
