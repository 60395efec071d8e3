-- ===== src/Pipeline/Graph/Levels.antt =====
-- pipeline/graph.go: addLevel, which splices a level and what it inlines into the graph.
use faber.Common.{String, Bool, true, false, not, ◌||◌, List, [], ◌∷◌, ◌++◌, if◌then◌else◌, put}
use faber.Failure.Skips.{contains}
use faber.Pipeline.Graph.{
  LevelEdge, Level, level, Nodes, no_more, entry, Sub, step, missing, inlined, Graph, Added, gate,
  link_edges, link_reads, link_sinks, level_sources,
}

unfoldable pub register : String → Graph → Graph
register id g = record g { nodes = id ∷ g.nodes }

unfoldable pub nothing : Bool → Graph → Added
nothing failed g = record { ids = []; failed = failed; graph = g }

-- The inner level of an entry, whose sources it gates.
unfoldable pub enclose : String → Level → Added → Added
unfolding gate level_sources
enclose id inner a = if a.failed then a else record a {
  graph = gate id (level_sources inner) (record a.graph { members = put id a.ids a.graph.members });
}

-- The loops after that over the nodes.
unfoldable pub link_level : Nodes → List LevelEdge → Graph → Bool × Graph
unfolding link_edges link_reads link_sinks
link_level ns es g =
    let edges = link_edges es g in
    let deps = link_reads ns edges.1 in
    if edges.0 then edges else if deps.0 then deps else (false, link_sinks ns es deps.1)

unfoldable pub linked : Nodes → List LevelEdge → Added → Added
unfolding link_level
linked ns es a =
    let out = link_level ns es a.graph in
    if a.failed then a else record a { failed = out.0; graph = out.1 }

-- A node before those after it.
unfoldable pub joined : String → Added → Added → Added
joined id own rest =
    if own.failed
    then record own { ids = id ∷ own.ids }
    else record rest { ids = id ∷ (own.ids ++ rest.ids) }

-- Whether a node's conditions compile.
module _ (compiles : String → Bool) where
  unfoldable mutual
    unfolding contains enclose linked joined register nothing

    -- `addLevel`
    pub add_level : Level → Graph → Added
    add_level (level ns es) g = linked ns es (add_nodes ns g)

    -- Its loop over the nodes.
    pub add_nodes : Nodes → Graph → Added
    add_nodes no_more g = nothing false g
    add_nodes (entry id deps sub ns) g =
        let own = add_sub id sub (register id g) in
        let rest = add_nodes ns own.graph in
        if contains g.nodes id || not (compiles id) then nothing true g else joined id own rest

    pub add_sub : String → Sub → Graph → Added
    add_sub id step g = nothing false g
    add_sub id missing g = nothing true g
    add_sub id (inlined inner) g = enclose id inner (add_level inner g)
