-- ===== src/Pipeline/Scheduler/Declared.antt =====
-- pipeline/graph.go and pipeline/scheduler.go: a run over the graph that addLevel built of a level.
use faber.Common.{◌≡◌, sym, subst, ◌⊎◌, String, Bool, true, false, some, List, lookup, IsUnique, In}
use faber.Pipeline.Scheduler.{pending, Work, Scheduler, Host, list_or_nil, succ_of}
use faber.Pipeline.Scheduler.Runs.{is_started}
use faber.Pipeline.Scheduler.Readiness.Edges.{IsSettled}
use faber.Pipeline.Scheduler.Reached.{IsFresh, Reached, Reached-ordered}
use faber.Pipeline.Graph.{LevelEdge, level, Nodes, Graph, new_graph}
use faber.Pipeline.Graph.Levels.{add_level}
use faber.Pipeline.Graph.Wiring.{IsWired}
use faber.Pipeline.Graph.Built.{built-IsWired}
use faber.Pipeline.Graph.Edges.{Declares, Reads, built-Links}

module _ {A : Type 0} where
  -- A scheduler that was given a graph: every node is pending.
  pub record IsGiven (g : Graph) (s : Scheduler A) : Type 0 where
    pub unique_nodes : IsUnique s.nodes
    pub none_done : s.done ≡ 0
    pub untouched : (d : String) (n : Work A) → lookup d s.nodes ≡ some n → n.life ≡ pending
    pub same_succ : s.succ ≡ g.succ
    pub same_indeg : s.indeg ≡ g.indeg

  given-IsFresh : (g : Graph) (s : Scheduler A) → IsWired g → IsGiven g s → IsFresh s
  given-IsFresh g s w h = record {
    unique_nodes = h.unique_nodes;
    unique_succ = rw (h.same_succ) (w.unique);
    none_done = h.none_done;
    untouched = h.untouched;
    indegrees = λ d. rw (h.same_succ, h.same_indeg) (w.indegrees d);
  }

  -- What a level declares holds in the run. Let addLevel have built a level's graph without an
  -- error, and let the scheduler start from that graph with no id twice, all nodes pending and the
  -- counter at 0. Then in every state
  -- that the run reaches, a node that is queued, waits for a slot, runs or is deferred finds each
  -- node from which the level declares an edge to it, or that its condition reads, terminal.
  pub declared-ordered :
      {host : Host A} {s0 s : Scheduler A} (compiles : String → Bool) (ns : Nodes)
      (es : List LevelEdge)
      → (add_level compiles (level ns es) new_graph).failed ≡ false
      → IsGiven (add_level compiles (level ns es) new_graph).graph s0
      → Reached host s0 s
      → (p d : String) (n : Work A) → Declares p d es ⊎ Reads p d ns
      → lookup d s.nodes ≡ some n
      → is_started n.life ≡ true
      → IsSettled p s
  unfolding succ_of
  declared-ordered {s0 = s0} compiles ns es ok given r p d n i =
      let g = (add_level compiles (level ns es) new_graph).graph in
      Reached-ordered (given-IsFresh g s0 (built-IsWired compiles (level ns es)) given) r p d n (
        subst (λ t. In d (list_or_nil (lookup p t))) (sym given.same_succ)
          (built-Links compiles ns es ok p d i))
