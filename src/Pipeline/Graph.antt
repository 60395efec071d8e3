-- ===== src/Pipeline/Graph.antt =====
-- pipeline/graph.go: the flattened graph. A node of the graph is here its id, its condition the ids
-- that it reads, and whether the condition compiles a parameter; the sub-workflow's scope, which
-- holds no state yet, and the texts of errors are left out.
pub mod Levels
pub mod Wiring
pub mod Kept
pub mod Built
pub mod Edges
use faber.Common.{
  ℕ, zero, suc, String, Bool, true, false, not, ◌&&◌, ◌||◌, Option, none, some, List, [], ◌∷◌, ◌++◌,
  if◌then◌else◌, str_eq, str_lt, Table, lookup, put,
}
use faber.Metering.Cost.{ℤ, pos, negsuc}
use faber.Failure.Skips.{contains}
use faber.Pipeline.Scheduler.{list_or_nil, or_zero, enqueue}

pub record LevelEdge : Type 0 where
  pub from : String
  pub to : String
  pub ordering : Bool

-- A level of the IR. `entry`: the next node's id, what its conditions read, and what it inlines, if
-- it is a sub-workflow's.
mutual
  pub data Level : Type 0 where
    level : Nodes → List LevelEdge → Level

  pub data Nodes : Type 0 where
    no_more : Nodes
    entry : String → List String → Sub → Nodes → Nodes

  pub data Sub : Type 0 where
    step missing : Sub
    inlined : Level → Sub

pub record Graph : Type 0 where
  pub nodes : List String
  pub succ : Table (List String)
  pub pair : Table (List String)
  pub indeg : Table ℤ
  pub data_in : Table (List LevelEdge)
  pub members : Table (List String)

-- What addLevel returns: the ids it added, whether it failed, and the graph.
pub record Added : Type 0 where
  pub ids : List String
  pub failed : Bool
  pub graph : Graph

unfoldable pub new_graph : Graph
new_graph = record { nodes = []; succ = []; pair = []; indeg = []; data_in = []; members = [] }

unfoldable pub next : ℤ → ℤ
next (pos n) = pos (suc n)
next (negsuc zero) = pos 0
next (negsuc (suc n)) = negsuc n

-- `edge`
unfoldable pub edge : String → String → Graph → Graph
unfolding contains list_or_nil or_zero next
edge from to g = if contains (list_or_nil (lookup from g.pair)) to then g else record g {
  pair = put from (to ∷ list_or_nil (lookup from g.pair)) g.pair;
  succ = put from (list_or_nil (lookup from g.succ) ++ to ∷ []) g.succ;
  indeg = put to (next (or_zero (lookup to g.indeg))) g.indeg;
}

-- `edge` from one id, and to one.
unfoldable pub gate : String → List String → Graph → Graph
unfolding edge
gate id [] g = g
gate id (x ∷ xs) g = gate id xs (edge id x g)

unfoldable pub await : List String → String → Graph → Graph
unfolding edge
await [] to g = g
await (x ∷ xs) to g = await xs to (edge x to g)

edges_or_nil : Option (List LevelEdge) → List LevelEdge
edges_or_nil none = []
edges_or_nil (some es) = es

unfoldable pub note_data : LevelEdge → Graph → Graph
unfolding edges_or_nil
note_data e g =
    if e.ordering
    then g
    else record g { data_in = put e.to (edges_or_nil (lookup e.to g.data_in) ++ e ∷ []) g.data_in }

-- The loop over the level's edges; `true` is the error of an unknown node.
unfoldable pub link_edges : List LevelEdge → Graph → Bool × Graph
unfolding note_data edge contains
link_edges [] g = (false, g)
link_edges (e ∷ es) g =
    let rest = link_edges es (note_data e (edge e.from e.to g)) in
    if contains g.nodes e.from && contains g.nodes e.to then rest else (true, g)

unfoldable pub link_deps : String → List String → Graph → Bool × Graph
unfolding edge contains
link_deps id [] g = (false, g)
link_deps id (dep ∷ deps) g =
    let rest = link_deps id deps (edge dep id g) in if contains g.nodes dep then rest else (true, g)

-- The loop over what the conditions read.
unfoldable pub link_reads : Nodes → Graph → Bool × Graph
unfolding link_deps
link_reads no_more g = (false, g)
link_reads (entry id deps sub ns) g =
    let linked = link_deps id deps g in
    let rest = link_reads ns linked.1 in if linked.0 then linked else rest

-- The ids that an edge or a condition of the level leads to, or comes from.
targets : List LevelEdge → List String
targets [] = []
targets (e ∷ es) = e.to ∷ targets es

origins : List LevelEdge → List String
origins [] = []
origins (e ∷ es) = e.from ∷ origins es

reads : Nodes → List String
reads no_more = []
reads (entry id deps sub ns) = deps ++ reads ns

readers : Nodes → List String
readers no_more = []
readers (entry id [] sub ns) = readers ns
readers (entry id (dep ∷ deps) sub ns) = id ∷ readers ns

without : List String → Nodes → List String
unfolding contains enqueue
without seen no_more = []
without seen (entry id deps sub ns) =
    let rest = without seen ns in if contains seen id then rest else enqueue id rest

-- `levelSources`
unfoldable pub level_sources : Level → List String
unfolding without targets readers
level_sources (level ns es) = without (targets es ++ readers ns) ns

insert_all : List String → List String → List String
unfolding enqueue
insert_all [] ids = ids
insert_all (x ∷ xs) ids = enqueue x (insert_all xs ids)

-- `deepSinks`, and its loop over a level whose ids with an edge out are `seen`.
unfoldable mutual
  unfolding origins reads contains enqueue insert_all

  pub deep_sinks : Level → List String
  deep_sinks (level ns es) = sinks_of (origins es ++ reads ns) ns

  pub sinks_of : List String → Nodes → List String
  sinks_of seen no_more = []
  sinks_of seen (entry id deps sub ns) =
      let rest = sinks_of seen ns in
      let own = inner_sinks id sub in if contains seen id then rest else insert_all own rest

  pub inner_sinks : String → Sub → List String
  inner_sinks id step = id ∷ []
  inner_sinks id missing = id ∷ []
  inner_sinks id (inlined inner) = deep_sinks inner

-- What comes after an entry waits for the sinks of its sub-workflow too.
unfoldable pub await_after : String → List String → List LevelEdge → Graph → Graph
unfolding await
await_after id sinks [] g = g
await_after id sinks (e ∷ es) g =
    let here = await_after id sinks es (await sinks e.to g) in
    let rest = await_after id sinks es g in if str_eq e.from id then here else rest

unfoldable pub link_sinks : Nodes → List LevelEdge → Graph → Graph
unfolding await_after deep_sinks
link_sinks no_more es g = g
link_sinks (entry id deps (inlined inner) ns) es g =
    link_sinks ns es (await_after id (deep_sinks inner) es g)
link_sinks (entry id deps step ns) es g = link_sinks ns es g
link_sinks (entry id deps missing ns) es g = link_sinks ns es g
