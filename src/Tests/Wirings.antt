-- ===== src/Tests/Wirings.antt =====
-- A level with a sub-workflow in it, added to the empty graph.
use faber.Common.{◌≡◌, refl, inl, inr, String, Bool, true, false, List, [], ◌∷◌}
use faber.Pipeline.Graph.{Level, level, Nodes, no_more, entry, step, inlined, LevelEdge, new_graph}
use faber.Pipeline.Graph.Levels.{add_level}
use faber.Pipeline.Graph.Wiring.{IsWired}
use faber.Pipeline.Graph.Built.{built-IsWired}
use faber.Pipeline.Graph.Edges.{Links, built-Links}

abbrev inner : Level
inner =
    level (entry "s/x" [] step (entry "s/y" [] step no_more))
      (record { from = "s/x"; to = "s/y"; ordering = false } ∷ [])

abbrev outer_nodes : Nodes
outer_nodes = entry "a" [] step (entry "s" ("a" ∷ []) (inlined inner) (entry "z" [] step no_more))

abbrev outer_edges : List LevelEdge
outer_edges = record { from = "s"; to = "z"; ordering = true } ∷ []

abbrev compiles : String → Bool
compiles id = true

outer_added : (add_level compiles (level outer_nodes outer_edges) new_graph).failed ≡ false
unfolding add_level new_graph faber.Common.lookup faber.Common.put faber.Common.delete
outer_added = refl

sinks_gate : Links "s/y" "z" (add_level compiles (level outer_nodes outer_edges) new_graph).graph
unfolding faber.Pipeline.Scheduler.list_or_nil faber.Common.lookup add_level new_graph
    faber.Common.put faber.Common.delete
sinks_gate = inl refl

built-IsWired_example : IsWired (add_level compiles (level outer_nodes outer_edges) new_graph).graph
built-IsWired_example = built-IsWired compiles (level outer_nodes outer_edges)

built-Links_example :
    Links "s" "z" (add_level compiles (level outer_nodes outer_edges) new_graph).graph
built-Links_example =
    built-Links compiles outer_nodes outer_edges outer_added "s" "z" (inl (inl (refl, refl)))
