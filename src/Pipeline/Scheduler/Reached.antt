-- ===== src/Pipeline/Scheduler/Reached.antt =====
-- pipeline/scheduler.go: the states of a run. The loop of run takes an event, dispatches a ready node
-- or launches one that has its slot; which, and in what order, is left open.
use faber.Common.{
  ◌≡◌, refl, sym, ◌∙◌, subst, String, true, false, inl, inr, none, some, List, [], ◌∷◌, length, ltb,
  str_eq_self, eq_iff, Table, lookup, IsUnique, In, arith,
}
use mathlib.Core.Bool.{false≢true}
use faber.Metering.Cost.{pos}
use faber.Failure.Skips.{contains}
use faber.Pipeline.Scheduler.{
  Life, pending, queued, slot_wait, Work, Scheduler, Host, is_done, or_zero, list_or_nil, succ_of,
}
use faber.Pipeline.Scheduler.Events.{Event, step, sorted_ids, seed}
use faber.Pipeline.Scheduler.Gates.{Plan, Gates}
use faber.Pipeline.Scheduler.Dispatch.{ready_turn, slot_turn}
use faber.Pipeline.Scheduler.Runs.{Moves, any_move, is_started}
use faber.Pipeline.Scheduler.Runs.Handlers.{IsDelivered, step-Run}
use faber.Pipeline.Scheduler.Runs.Dispatches.{ready_turn-Run, slot_turn-Run}
use faber.Pipeline.Scheduler.Terminal.{Run-Keeps}
use faber.Pipeline.Scheduler.Counts.{count_done, IsCounted, Run-IsCounted, ended-done}
use faber.Pipeline.Scheduler.Readiness.{Tracks}
use faber.Pipeline.Scheduler.Readiness.Blocked.{Blocks}
use faber.Pipeline.Scheduler.Readiness.Unmet.{unmet, occurs-unmet}
use faber.Pipeline.Scheduler.Readiness.Edges.{IsSettled, IsOrdered}
use faber.Pipeline.Scheduler.Readiness.Runs.{Run-Goes}
use faber.Pipeline.Scheduler.Readiness.Seeds.{seed_from-Stays, seed-Seeded}

unstarted : (l : Life) → l ≡ pending → is_started l ≡ true → ⊥
unstarted l e h = ground arith

undone : (l : Life) → l ≡ pending → is_done l ≡ true → ⊥
undone l e h = ground arith

module _ {A : Type 0} where
  rest_untouched :
      (j : String) (w : Work A) (m : Table (Work A))
      → lookup j m ≡ none
      → ((d : String) (n : Work A) → lookup d ((j, w) ∷ m) ≡ some n → n.life ≡ pending)
      → (d : String) (n : Work A) → lookup d m ≡ some n
      → n.life ≡ pending
  unfolding lookup
  rest_untouched j w m u h d n e = h d n (ground (arith, eq_iff j d))

  -- A graph as it was built: no node has been touched, and the in-degrees count the edges.
  pub record IsFresh (s : Scheduler A) : Type 0 where
    pub unique_nodes : IsUnique s.nodes
    pub unique_succ : IsUnique s.succ
    pub none_done : s.done ≡ 0
    pub untouched : (d : String) (n : Work A) → lookup d s.nodes ≡ some n → n.life ≡ pending
    pub indegrees : (d : String) → or_zero (lookup d s.indeg) ≡ pos (unmet [] s.succ d)

  -- One turn of the loop.
  pub data Turn (host : Host A) : Scheduler A → Scheduler A → Type 0 where
    event : (e : Event) (s : Scheduler A) → IsDelivered e s → Turn host s (step host e s)
    dispatching :
        (gates : Gates A) (id : String) (plan : Plan A) (n : Work A) (s : Scheduler A)
        → lookup id s.nodes ≡ some n
        → n.life ≡ queued
        → Turn host s (ready_turn host gates id plan n s)
    launching :
        (gates : Gates A) (id : String) (n : Work A) (s : Scheduler A)
        → lookup id s.nodes ≡ some n
        → n.life ≡ slot_wait
        → Turn host s (slot_turn host gates id n s)

  pub data Reached (host : Host A) (s0 : Scheduler A) : Scheduler A → Type 0 where
    seeded : Reached host s0 (seed s0)
    turn : {s t : Scheduler A} → Reached host s0 s → Turn host s t → Reached host s0 t

  pub Turn-Run : {host : Host A} {s t : Scheduler A} → Turn host s t → Moves true s t
  Turn-Run {host = host} (event e s d) = step-Run host e s d
  Turn-Run {host = host} (dispatching gates id plan n s e q) =
      any_move (ready_turn-Run host gates id plan n s e q)
  Turn-Run {host = host} (launching gates id n s e q) =
      any_move (slot_turn-Run host gates id n s e q)

  -- A turn of the loop (an event, a deferral coming from a node that runs, a dispatch of a queued
  -- node, or a launch of one that waits for its slot, with all the settlements, skips and wake-ups
  -- that it sets off) leaves a node that is terminal exactly as it was.
  pub Turn-Keeps :
      {host : Host A} {s t : Scheduler A}
      → Turn host s t
      → (p : String) (n : Work A) → lookup p s.nodes ≡ some n
      → is_done n.life ≡ true
      → lookup p t.nodes ≡ some n
  Turn-Keeps r = Run-Keeps (Turn-Run r)

  -- The state between two turns: the ids released are the terminal nodes.
  pub record Between (s0 s : Scheduler A) : Type 0 where
    pub released : List String
    pub ordered : IsOrdered released s
    pub complete : (p : String) → IsSettled p s → contains released p ≡ true
    pub counted : IsCounted s
    pub edges : s.succ ≡ s0.succ

  count_untouched :
      (m : Table (Work A))
      → IsUnique m
      → ((d : String) (n : Work A) → lookup d m ≡ some n → n.life ≡ pending)
      → count_done m ≡ 0
  unfolding count_done lookup
  count_untouched [] u h = refl
  count_untouched ((j, w) ∷ m) u h =
      ground (arith, h j w, str_eq_self j, count_untouched m u.1 (rest_untouched j w m u.0 h))

  fresh-Tracks : (s0 : Scheduler A) → IsFresh s0 → Tracks (unmet [] s0.succ) s0
  fresh-Tracks s0 f = record {
    indegrees = f.indegrees;
    ready = λ d n e h. elim (unstarted n.life (f.untouched d n e) h) [ ];
  }

  fresh-unsettled : (s0 : Scheduler A) → IsFresh s0 → (p : String) → IsSettled p s0 → ⊥
  fresh-unsettled s0 f p (n, e, d) = undone n.life (f.untouched p n e) d

  seed-Between : (s0 : Scheduler A) → IsFresh s0 → Between s0 (seed s0)
  unfolding seed contains
  seed-Between s0 f =
      let st = seed_from-Stays (sorted_ids s0.nodes) s0 in
      let sd = seed-Seeded (unmet [] s0.succ) s0 (fresh-Tracks s0 f) in
      record {
        released = [];
        ordered = record {
          unique = subst IsUnique (sym st.same_succ) f.unique_succ;
          tracks = subst (λ g. Tracks (unmet [] g) (seed s0)) (sym st.same_succ) sd.tracks;
          blocked = subst (λ g. Blocks (unmet [] g) (seed s0)) (sym st.same_succ) sd.blocks;
          terminal = λ p c. elim (false≢true c) [ ];
        };
        complete = λ p (n, e, d). elim (fresh-unsettled s0 f p (n, st.mirrors p n e d, d)) [ ];
        counted = st.counts (record {
          unique = f.unique_nodes;
          counted = f.none_done ∙ sym (count_untouched s0.nodes f.unique_nodes f.untouched);
        });
        edges = st.same_succ;
      }

  Turn-Between :
      {host : Host A} (s0 s t : Scheduler A) → Turn host s t → Between s0 s → Between s0 t
  Turn-Between s0 s t r b =
      let g = Run-Goes b.released (Turn-Run r) b.ordered in
      record {
        released = g.after;
        ordered = g.ordered;
        complete = λ p d. elim (g.told p d) [ inl c ↦ c | inr d' ↦ g.same p d' ∙ b.complete p d' ];
        counted = Run-IsCounted (Turn-Run r) b.counted;
        edges = g.edges ∙ b.edges;
      }

  pub Reached-Between :
      {host : Host A} {s0 s : Scheduler A} → IsFresh s0 → Reached host s0 s → Between s0 s
  Reached-Between {s0 = s0} f seeded = seed-Between s0 f
  Reached-Between {s0 = s0} f (turn {s = s} {t = t} r u) =
      Turn-Between s0 s t u (Reached-Between f r)

  -- In every state that a run reaches from a fresh graph (no id stands twice, all nodes are
  -- pending, the counter is 0, the in-degrees count the successor entries), by events, dispatches
  -- and launches in any order, deferrals coming from nodes that run, a node that
  -- is queued, waits for a slot, runs or is deferred has only terminal nodes as predecessors: for
  -- each edge from p to it, p is a node and is terminal.
  pub Reached-ordered :
      {host : Host A} {s0 s : Scheduler A}
      → IsFresh s0
      → Reached host s0 s
      → (p d : String) (n : Work A) → In d (succ_of p s0)
      → lookup d s.nodes ≡ some n
      → is_started n.life ≡ true
      → IsSettled p s
  unfolding succ_of
  Reached-ordered {s = s} f r p d n i e h =
      let b = Reached-Between f r in
      let i' = subst (λ g. In d (list_or_nil (lookup p g))) (sym b.edges) i in
      b.ordered.terminal p
        (occurs-unmet b.released s.succ p d b.ordered.unique i' (b.ordered.tracks.ready d n e h))

  -- In every state that a run reaches from a fresh graph (no id stands twice, all nodes are
  -- pending, the counter is 0, the in-degrees count the successor entries), by events, dispatches
  -- and launches in any order, deferrals coming from nodes that run, if the
  -- counter of terminal nodes is not below the number of nodes, which is how the loop ends, then
  -- every node is terminal.
  pub Reached-ended :
      {host : Host A} {s0 s : Scheduler A}
      → IsFresh s0
      → Reached host s0 s
      → ltb s.done (length s.nodes) ≡ false
      → (p : String) (n : Work A) → lookup p s.nodes ≡ some n
      → is_done n.life ≡ true
  Reached-ended {s = s} f r = ended-done s (Reached-Between f r).counted
