-- ===== src/Pipeline/Graph/Built.antt =====
-- pipeline/graph.go: the graph that addLevel builds.
use faber.Common.{◌≡◌, String, Bool}
use faber.Pipeline.Graph.{Level, Graph, new_graph}
use faber.Pipeline.Graph.Levels.{add_level}
use faber.Pipeline.Graph.Wiring.{IsWired, new_graph-IsWired, edge-IsWired}
use faber.Pipeline.Graph.Kept.{add_level-holds}

-- The successors, the pairs and the in-degrees are what the property reads.
pub same-IsWired :
    (g h : Graph) → h.succ ≡ g.succ → h.pair ≡ g.pair → h.indeg ≡ g.indeg → IsWired g → IsWired h
same-IsWired g h s p i w = record {
  unique = rw s (w.unique);
  indegrees = λ d. rw (s, i) (w.indegrees d);
  paired = λ q d. rw (s, p) (w.paired q d);
  once = λ q d. rw s (w.once q d);
}

module _ (compiles : String → Bool) where
  -- The graph that addLevel builds of any level from the empty graph, and what it leaves when it
  -- fails, lists no successor of a node twice, and the in-degree of each id is the number of the
  -- successor entries that name it.
  pub built-IsWired : (l : Level) → IsWired (add_level compiles l new_graph).graph
  built-IsWired l =
      add_level-holds IsWired edge-IsWired same-IsWired compiles l new_graph new_graph-IsWired
