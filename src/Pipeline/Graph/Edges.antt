-- ===== src/Pipeline/Graph/Edges.antt =====
-- pipeline/graph.go: the edges of a level, in the graph that addLevel builds.
use faber.Common.{
  ◌≡◌, refl, sym, ◌∙◌, subst, ◌⊎◌, inl, inr, String, Bool, true, false, ◌&&◌, List, [], ◌∷◌, ◌++◌,
  if◌then◌else◌, str_eq, str_eq_self, eq_iff, lookup, put, In, Bool-cases,
}
use mathlib.Core.Bool.{false≢true}
use faber.Failure.Skips.{contains}
use faber.Failure.Skips.Marks.{contains-In, In-append_left, In-append_right}
use faber.Pipeline.Scheduler.{list_or_nil, or_zero}
use faber.Pipeline.Graph.{
  LevelEdge, level, Nodes, no_more, entry, Graph, Added, new_graph, next, edge, note_data,
  link_edges, link_deps, link_reads, link_sinks,
}
use faber.Pipeline.Graph.Levels.{link_level, linked, add_level, add_nodes}
use faber.Pipeline.Graph.Wiring.{IsWired, new_graph-IsWired, edge-IsWired, list-put}
use faber.Pipeline.Graph.Built.{same-IsWired}
use faber.Pipeline.Graph.Kept.{
  note_data-holds, link_edges-holds, link_deps-holds, link_reads-holds, link_sinks-holds,
  add_nodes-holds,
}

-- `d` is listed as a successor of `p`.
abbrev pub Links : String → String → Graph → Type 0
Links p d g = In d (list_or_nil (lookup p g.succ))

-- The level has that edge, and a condition of `d` reads `p`.
abbrev pub Declares : String → String → List LevelEdge → Type 0
Declares p d [] = ⊥
Declares p d (e ∷ es) = ((e.from ≡ p) × (e.to ≡ d)) ⊎ Declares p d es

abbrev pub Reads : String → String → Nodes → Type 0
Reads p d no_more = ⊥
Reads p d (entry id deps sub ns) = (In p deps × (id ≡ d)) ⊎ Reads p d ns

-- An edge more.
more_links : (p d from to : String) (g : Graph) → Links p d g → Links p d (edge from to g)
unfolding edge
more_links p d from to g l = go (contains (list_or_nil (lookup from g.pair)) to)
  where
    told : List String
    told = list_or_nil (lookup from g.succ)

    at :
        (b : Bool)
        → str_eq from p ≡ b
        → In d (if b then told ++ to ∷ [] else list_or_nil (lookup p g.succ))
    at true q =
        In-append_left d told (to ∷ [])
          (subst (λ k. In d (list_or_nil (lookup k g.succ))) (sym ((eq_iff from p).0 q)) l)
    at false q = l

    go :
        (b : Bool)
        → Links p d (
            if b then g else record g {
              pair = put from (to ∷ list_or_nil (lookup from g.pair)) g.pair;
              succ = put from (told ++ to ∷ []) g.succ;
              indeg = put to (next (or_zero (lookup to g.indeg))) g.indeg;
            })
    go true = l
    go false = rw (list-put from p (told ++ to ∷ []) g.succ) (at (str_eq from p) refl)

same_links :
    (p d : String) (g h : Graph)
    → h.succ ≡ g.succ
    → h.pair ≡ g.pair
    → h.indeg ≡ g.indeg
    → Links p d g
    → Links p d h
same_links p d g h s q i l = rw s l

-- The edge itself.
edge-Links : (from to : String) (g : Graph) → IsWired g → Links from to (edge from to g)
unfolding edge
edge-Links from to g w = elim (Bool-cases (contains (list_or_nil (lookup from g.pair)) to)) [
  | inl old ↦ rw old (contains-In _ to (sym (w.paired from to) ∙ old))
  | inr new ↦ rw new (
      rw (list-put from from (list_or_nil (lookup from g.succ) ++ to ∷ []) g.succ, str_eq_self from)
        (In-append_right to _ (to ∷ []) (inl refl)))
]

-- A loop that has not failed went on.
went_on :
    (p d : String) (b : Bool) (rest : Bool × Graph) (g : Graph)
    → (if b then rest else (true, g)).0 ≡ false
    → (rest.0 ≡ false → Links p d rest.1)
    → Links p d (if b then rest else (true, g)).1
went_on p d true rest g h l = l h
went_on p d false rest g h l = elim (false≢true (sym h)) [ ]

link_edges-Links :
    (p d : String) (es : List LevelEdge) (g : Graph)
    → IsWired g
    → (link_edges es g).0 ≡ false
    → Declares p d es
    → Links p d (link_edges es g).1
unfolding link_edges
link_edges-Links p d [] g w h i = elim i [ ]
link_edges-Links p d (e ∷ es) g w h i =
    let g' = note_data e (edge e.from e.to g) in
    let w' = note_data-holds IsWired edge-IsWired same-IsWired e _ (edge-IsWired e.from e.to g w) in
    went_on p d (contains g.nodes e.from && contains g.nodes e.to) (link_edges es g') g h (λ k.
      elim i [
        | inl (a, b) ↦ link_edges-holds (Links p d) (more_links p d) (same_links p d) es g' (
            note_data-holds (Links p d) (more_links p d) (same_links p d) e _ (
              subst (λ x. Links x d (edge e.from e.to g)) a
                (subst (λ x. Links e.from x (edge e.from e.to g)) b (edge-Links e.from e.to g w))))
        | inr j ↦ link_edges-Links p d es g' w' k j
      ])

link_deps-Links :
    (p id : String) (deps : List String) (g : Graph)
    → IsWired g
    → (link_deps id deps g).0 ≡ false
    → In p deps
    → Links p id (link_deps id deps g).1
unfolding link_deps
link_deps-Links p id [] g w h i = elim i [ ]
link_deps-Links p id (dep ∷ deps) g w h i =
    let g' = edge dep id g in
    went_on p id (contains g.nodes dep) (link_deps id deps g') g h (λ k. elim i [
      | inl a ↦
          link_deps-holds (Links p id) (more_links p id) (same_links p id) id deps g'
            (subst (λ x. Links x id g') a (edge-Links dep id g w))
      | inr j ↦ link_deps-Links p id deps g' (edge-IsWired dep id g w) k j
    ])

-- A loop whose first part has not failed went on to the rest.
passed :
    (p d : String) (b : Bool) (v rest : Bool × Graph)
    → v.0 ≡ b
    → (if b then v else rest).0 ≡ false
    → (v.0 ≡ false → rest.0 ≡ false → Links p d rest.1)
    → Links p d (if b then v else rest).1
passed p d true v rest q h l = elim (false≢true (sym h ∙ q)) [ ]
passed p d false v rest q h l = l q h

link_reads-Links :
    (p d : String) (ns : Nodes) (g : Graph)
    → IsWired g
    → (link_reads ns g).0 ≡ false
    → Reads p d ns
    → Links p d (link_reads ns g).1
unfolding link_reads
link_reads-Links p d no_more g w h i = elim i [ ]
link_reads-Links p d (entry id deps sub ns) g w h i =
    let own = link_deps id deps g in
    passed p d own.0 own (link_reads ns own.1) refl h (λ first rest. elim i [
      | inl (a, b) ↦
          link_reads-holds (Links p d) (more_links p d) (same_links p d) ns own.1
            (subst (λ x. Links p x own.1) b (link_deps-Links p id deps g w first a))
      | inr j ↦
          link_reads-Links p d ns own.1
            (link_deps-holds IsWired edge-IsWired same-IsWired id deps g w) rest j
    ])

link_level-Links :
    (p d : String) (ns : Nodes) (es : List LevelEdge) (g : Graph)
    → IsWired g
    → (link_level ns es g).0 ≡ false
    → Declares p d es ⊎ Reads p d ns
    → Links p d (link_level ns es g).1
unfolding link_level
link_level-Links p d ns es g w h i =
    let edges = link_edges es g in
    let deps = link_reads ns edges.1 in
    passed p d edges.0 edges (if deps.0 then deps else (false, link_sinks ns es deps.1)) refl h
      (λ first rest.
        passed p d deps.0 deps (false, link_sinks ns es deps.1) refl rest
          (λ second last.
            link_sinks-holds (Links p d) (more_links p d) (same_links p d) ns es deps.1 (elim i [
              | inl j ↦
                  link_reads-holds (Links p d) (more_links p d) (same_links p d) ns edges.1
                    (link_edges-Links p d es g w first j)
              | inr j ↦
                  link_reads-Links p d ns edges.1
                    (link_edges-holds IsWired edge-IsWired same-IsWired es g w) second j
            ])))

linked-Links :
    (p d : String) (ns : Nodes) (es : List LevelEdge) (a : Added)
    → IsWired a.graph
    → (linked ns es a).failed ≡ false
    → Declares p d es ⊎ Reads p d ns
    → Links p d (linked ns es a).graph
unfolding linked
linked-Links p d ns es a w h i = go a.failed refl h
  where
    out : Added
    out = record a { failed = (link_level ns es a.graph).0; graph = (link_level ns es a.graph).1 }

    go :
        (b : Bool)
        → a.failed ≡ b
        → (if b then a else out).failed ≡ false
        → Links p d (if b then a else out).graph
    go true q k = elim (false≢true (sym k ∙ q)) [ ]
    go false q k = link_level-Links p d ns es a.graph w k i

-- When addLevel succeeds on a level, from the empty graph, each edge that the level declares and
-- each id that a condition of one of its nodes reads is an edge of the graph.
pub built-Links :
    (compiles : String → Bool) (ns : Nodes) (es : List LevelEdge)
    → (add_level compiles (level ns es) new_graph).failed ≡ false
    → (p d : String) → Declares p d es ⊎ Reads p d ns
    → Links p d (add_level compiles (level ns es) new_graph).graph
unfolding add_level
built-Links compiles ns es h p d =
    linked-Links p d ns es (add_nodes compiles ns new_graph)
      (add_nodes-holds IsWired edge-IsWired same-IsWired compiles ns new_graph new_graph-IsWired) h
