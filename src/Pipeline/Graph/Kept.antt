-- ===== src/Pipeline/Graph/Kept.antt =====
-- pipeline/graph.go: addLevel over any level, whether it succeeds or fails, and a predicate of graphs
-- that one more edge keeps.
use faber.Common.{
  ◌≡◌, refl, String, Bool, true, false, not, ◌&&◌, ◌||◌, List, [], ◌∷◌, if◌then◌else◌, str_eq,
}
use faber.Failure.Skips.{contains}
use faber.Pipeline.Graph.{
  LevelEdge, Level, level, Nodes, no_more, entry, Sub, step, missing, inlined, Graph, Added, edge,
  gate, await, note_data, link_edges, link_deps, link_reads, await_after, deep_sinks, link_sinks,
  level_sources,
}
use faber.Pipeline.Graph.Levels.{
  register, nothing, enclose, link_level, linked, joined, add_level, add_nodes, add_sub,
}

module _ (P : Graph → Type 0)
    (keep_edge : (from to : String) (g : Graph) → P g → P (edge from to g))
    (keep_same : (g h : Graph)
      → h.succ ≡ g.succ
      → h.pair ≡ g.pair
      → h.indeg ≡ g.indeg
      → P g
      → P h) where
  gate-holds : (id : String) (xs : List String) (g : Graph) → P g → P (gate id xs g)
  unfolding gate
  gate-holds id [] g w = w
  gate-holds id (x ∷ xs) g w = gate-holds id xs (edge id x g) (keep_edge id x g w)

  await-holds : (xs : List String) (to : String) (g : Graph) → P g → P (await xs to g)
  unfolding await
  await-holds [] to g w = w
  await-holds (x ∷ xs) to g w = await-holds xs to (edge x to g) (keep_edge x to g w)

  if-graph : (b : Bool) (g h : Graph) → P g → P h → P (if b then g else h)
  if-graph true g h v w = v
  if-graph false g h v w = w

  -- The same of the graph in a pair.
  abbrev HoldsOut : Bool × Graph → Type 0
  HoldsOut out = P (out.1)

  if-out : (b : Bool) (v w : Bool × Graph) → HoldsOut v → HoldsOut w → HoldsOut (if b then v else w)
  if-out true v w f g = f
  if-out false v w f g = g

  pub note_data-holds : (e : LevelEdge) (g : Graph) → P g → P (note_data e g)
  unfolding note_data
  note_data-holds e g w = if-graph e.ordering g _ w (keep_same g _ refl refl refl w)

  pub link_edges-holds : (es : List LevelEdge) (g : Graph) → P g → HoldsOut (link_edges es g)
  unfolding link_edges
  link_edges-holds [] g w = w
  link_edges-holds (e ∷ es) g w =
      if-out (contains g.nodes e.from && contains g.nodes e.to) _ _
        (link_edges-holds es _ (note_data-holds e _ (keep_edge e.from e.to g w))) w

  pub link_deps-holds :
      (id : String) (deps : List String) (g : Graph) → P g → HoldsOut (link_deps id deps g)
  unfolding link_deps
  link_deps-holds id [] g w = w
  link_deps-holds id (dep ∷ deps) g w =
      if-out (contains g.nodes dep) _ _ (link_deps-holds id deps _ (keep_edge dep id g w)) w

  pub link_reads-holds : (ns : Nodes) (g : Graph) → P g → HoldsOut (link_reads ns g)
  unfolding link_reads
  link_reads-holds no_more g w = w
  link_reads-holds (entry id deps sub ns) g w =
      let own = link_deps-holds id deps g w in
      if-out (link_deps id deps g).0 _ _ own (link_reads-holds ns _ own)

  await_after-holds :
      (id : String) (sinks : List String) (es : List LevelEdge) (g : Graph)
      → P g
      → P (await_after id sinks es g)
  unfolding await_after
  await_after-holds id sinks [] g w = w
  await_after-holds id sinks (e ∷ es) g w =
      if-graph (str_eq e.from id) _ _ (await_after-holds id sinks es _ (await-holds sinks e.to g w))
        (await_after-holds id sinks es g w)

  pub link_sinks-holds :
      (ns : Nodes) (es : List LevelEdge) (g : Graph) → P g → P (link_sinks ns es g)
  unfolding link_sinks
  link_sinks-holds no_more es g w = w
  link_sinks-holds (entry id deps (inlined inner) ns) es g w =
      link_sinks-holds ns es _ (await_after-holds id (deep_sinks inner) es g w)
  link_sinks-holds (entry id deps step ns) es g w = link_sinks-holds ns es g w
  link_sinks-holds (entry id deps missing ns) es g w = link_sinks-holds ns es g w

  link_level-holds :
      (ns : Nodes) (es : List LevelEdge) (g : Graph) → P g → HoldsOut (link_level ns es g)
  unfolding link_level
  link_level-holds ns es g w =
      let a = link_edges-holds es g w in
      let b = link_reads-holds ns _ a in
      if-out (link_edges es g).0 _ _ a
        (if-out (link_reads ns (link_edges es g).1).0 _ _ b (link_sinks-holds ns es _ b))

  -- The same of what was added.
  abbrev HoldsAdded : Added → Type 0
  HoldsAdded a = P a.graph

  if-added :
      (b : Bool) (v w : Added) → HoldsAdded v → HoldsAdded w → HoldsAdded (if b then v else w)
  if-added true v w f g = f
  if-added false v w f g = g

  linked-holds :
      (ns : Nodes) (es : List LevelEdge) (a : Added) → HoldsAdded a → HoldsAdded (linked ns es a)
  unfolding linked
  linked-holds ns es a w = if-added a.failed a _ w (link_level-holds ns es a.graph w)

  enclose-holds :
      (id : String) (inner : Level) (a : Added) → HoldsAdded a → HoldsAdded (enclose id inner a)
  unfolding enclose
  enclose-holds id inner a w =
      if-added a.failed a _ w
        (gate-holds id (level_sources inner) _ (keep_same a.graph _ refl refl refl w))

  joined-holds :
      (id : String) (own rest : Added)
      → HoldsAdded own
      → HoldsAdded rest
      → HoldsAdded (joined id own rest)
  unfolding joined
  joined-holds id own rest v w = if-added own.failed _ _ v w

  module _ (compiles : String → Bool) where
    mutual
      unfolding add_level add_nodes add_sub register nothing

      pub add_level-holds : (l : Level) (g : Graph) → P g → HoldsAdded (add_level compiles l g)
      add_level-holds (level ns es) g w = linked-holds ns es _ (add_nodes-holds ns g w)

      pub add_nodes-holds : (ns : Nodes) (g : Graph) → P g → HoldsAdded (add_nodes compiles ns g)
      add_nodes-holds no_more g w = w
      add_nodes-holds (entry id deps sub ns) g w =
          let own = add_sub-holds sub id (register id g) (keep_same g _ refl refl refl w) in
          if-added (contains g.nodes id || not (compiles id)) _ _ w
            (joined-holds id _ _ own (add_nodes-holds ns _ own))

      add_sub-holds :
          (sub : Sub) (id : String) (g : Graph) → P g → HoldsAdded (add_sub compiles id sub g)
      add_sub-holds step id g w = w
      add_sub-holds missing id g w = w
      add_sub-holds (inlined inner) id g w = enclose-holds id inner _ (add_level-holds inner g w)
