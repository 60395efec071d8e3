-- ===== src/Tests/Declared.antt =====
-- The run of two nodes, over the graph that is built of its level; and a walk from the first node.
use faber.Common.{◌≡◌, refl, inl, inr, String, Bool, true, false, List, [], ◌∷◌}
use faber.Pipeline.Values.{skipped_dependency}
use faber.Pipeline.Scheduler.{succ_of}
use faber.Pipeline.Scheduler.Settle.{propagate, skipping}
use faber.Pipeline.Scheduler.Readiness.Edges.{IsSettled}
use faber.Pipeline.Scheduler.Walks.{Walked, propagate-Walked}
use faber.Pipeline.Scheduler.Declared.{IsGiven, declared-ordered}
use faber.Pipeline.Graph.{LevelEdge, level, Nodes, no_more, entry, step, new_graph}
use faber.Pipeline.Graph.Levels.{add_level}
use faber.Tests.Runs.{built, desk, after_a, queued_b, built-IsFresh, Reached-after_a, at_b}

abbrev pair_nodes : Nodes
pair_nodes = entry "a" [] step (entry "b" ("a" ∷ []) step no_more)

abbrev pair_edges : List LevelEdge
pair_edges = record { from = "a"; to = "b"; ordering = true } ∷ []

abbrev compiles_all : String → Bool
compiles_all id = true

pair_added : (add_level compiles_all (level pair_nodes pair_edges) new_graph).failed ≡ false
unfolding add_level new_graph faber.Common.lookup
pair_added = refl

built-IsGiven : IsGiven (add_level compiles_all (level pair_nodes pair_edges) new_graph).graph built
unfolding add_level new_graph faber.Common.lookup faber.Common.put faber.Common.delete
built-IsGiven = record {
  unique_nodes = built-IsFresh.unique_nodes;
  none_done = refl;
  untouched = built-IsFresh.untouched;
  same_succ = refl;
  same_indeg = refl;
}

declared-ordered_example : IsSettled "a" after_a
declared-ordered_example =
    declared-ordered compiles_all pair_nodes pair_edges pair_added built-IsGiven Reached-after_a "a"
      "b" queued_b (inl (inl (refl, refl))) at_b refl

propagate-Walked_example :
    Walked
      (skipping desk built)
      "a"
      skipped_dependency
      []
      (succ_of "a" built)
      built
      (propagate (skipping desk built) "a" skipped_dependency built)
unfolding faber.Common.lookup
propagate-Walked_example = propagate-Walked desk "a" skipped_dependency built built (refl, tt)
