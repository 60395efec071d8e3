-- ===== src/Tests/Graphs.antt =====
-- failure/policy.go and pipeline/ at concrete graphs, bounds and nodes.
use faber.Common.{
  ℕ, String, ◌≡◌, ◌↔◌, refl, true, false, put, Option, none, some, List, [], ◌∷◌, ◌++◌, Table, In,
  lookup, if◌then◌else◌, str_eq, eq_iff, inl, inr, All, ◌≢◌, arith,
}
use faber.Failure.Skips.{Ir, Edge, Node, dependencies, skip_set}
use faber.Failure.Skips.Dependents.{Dependent, skip_set_iff}
use faber.Pipeline.Pools.{ExecNode, Slots, hold_reason, take_pools, release_pools, grant, pool_of}
use faber.Pipeline.Values.{
  Source, ok, skipped_condition, DataEdge, literal, resolve_inputs, eval, answer, skip,
}
use faber.Pipeline.Values.Precedence.{
  or_else, edge_value, binding_value, default_value, lookup-resolve_inputs,
}
use faber.Pipeline.Values.Conditions.{Ready, more, done, IsSkip, eval_decides}
use faber.Pipeline.Pools.Grants.{
  IsIdle, IsCounted, Reach, idle, launching, settling, concurrency_bounded,
}
use faber.Pipeline.Pools.Drain.{started, grant_leaves_held, grant_reaches}

-- a feeds b, and c reads b in its condition; d stands alone.
abbrev pipeline : Ir
pipeline = record {
  edges = record { from = "a"; to = "b" } ∷ [];
  nodes =
      record { id = "a"; deps = [] }
      ∷ record { id = "b"; deps = [] }
      ∷ record { id = "c"; deps = "b" ∷ [] }
      ∷ record { id = "d"; deps = [] }
      ∷ [];
}

skips_chain : skip_set pipeline ("a" ∷ []) ≡ "c" ∷ "b" ∷ []
unfolding skip_set faber.Failure.Skips.successors
skips_chain = refl

skip_set_iff_example :
    In "c" (skip_set pipeline ("a" ∷ []))
    ↔ (Dependent (dependencies pipeline) ("a" ∷ []) "c" × (¬ In "c" ("a" ∷ [])))
skip_set_iff_example = skip_set_iff pipeline ("a" ∷ []) "c"

-- Two slots, and one lane of one.
abbrev bounds : Slots
bounds = record {
  max_par = 2;
  slots_used = 0;
  gen_pools = [];
  lanes = ("gpu", record { max = 1; used = 0 }) ∷ [];
}

abbrev on_lane : String → ExecNode
on_lane id = record { id = id; gen = ""; template = some (record { lane = "gpu" }) }

abbrev plain : String → ExecNode
plain id = record { id = id; gen = ""; template = some (record { lane = "" }) }

abbrev queue : List ExecNode
queue = on_lane "a" ∷ on_lane "b" ∷ plain "c" ∷ plain "d" ∷ []

-- b waits for the lane while c passes it by.
grants_past_held : (grant bounds queue).launched ≡ on_lane "a" ∷ plain "c" ∷ []
unfolding grant faber.Common.lookup faber.Common.put
grants_past_held = refl

bounds-IsIdle : IsIdle bounds
unfolding pool_of lookup
bounds-IsIdle = record {
  slots = refl;
  gens = λ g p e. ground (arith, e);
  lanes = λ g p e. ground (arith, e);
}

concurrency_bounded_example :
    IsCounted (release_pools (take_pools bounds (on_lane "a")) (some (on_lane "a"))) []
unfolding hold_reason faber.Common.lookup
concurrency_bounded_example =
    concurrency_bounded (release_pools (take_pools bounds (on_lane "a")) (some (on_lane "a"))) [] (
      settling (take_pools bounds (on_lane "a")) (on_lane "a") [] []
        (launching bounds (on_lane "a") [] (idle bounds bounds-IsIdle) refl))

grant_leaves_held_example :
    All
      (λ n. hold_reason (grant bounds queue).slots n ≢ none)
      ((grant bounds queue).held ++ (grant bounds queue).queue)
grant_leaves_held_example = grant_leaves_held bounds queue

grant_reaches_example : Reach (grant bounds queue).slots (started (grant bounds queue).launched [])
grant_reaches_example = grant_reaches bounds [] queue (idle bounds bounds-IsIdle)

-- a settled ok with a field, b was skipped, c is still open.
abbrev settled_nodes : Table (Source ℕ)
settled_nodes =
    ("a", record { terminal = true; status = ok; payload = ("count", 7) ∷ [] })
    ∷ ("b", record { terminal = true; status = skipped_condition; payload = [] })
    ∷ ("c", record { terminal = false; status = ok; payload = [] })
    ∷ []

abbrev count_edge : List DataEdge
count_edge = record { from = "a"; from_port = "count"; to_port = "n" } ∷ []

abbrev slots_of : List (String × Option ℕ)
slots_of = ("n", some 1) ∷ ("m", some 2) ∷ []

lookup-resolve_inputs_example :
    some 7
    ≡ or_else
        (edge_value count_edge settled_nodes "n")
        (or_else (binding_value (("n", literal 3) ∷ []) [] "n") (default_value slots_of "n"))
unfolding resolve_inputs lookup put faber.Common.delete
lookup-resolve_inputs_example =
    lookup-resolve_inputs settled_nodes (("n", literal 3) ∷ []) [] count_edge slots_of
      (("m", 2) ∷ ("n", 7) ∷ []) "n" refl

a_ready : Ready settled_nodes ("a" ∷ []) [] (("a", ("count", 7) ∷ []) ∷ [])
unfolding put lookup faber.Common.delete
a_ready = more (record { found = refl; terminal = refl; ran = refl }) done

eval_decides_example :
    ((id : String) (src : Source ℕ)
      → IsSkip settled_nodes id src
      → eval (λ steps params. some (some true)) (("a" ∷ []) ++ id ∷ "c" ∷ []) settled_nodes []
        ≡ skip)
    × (eval (λ steps params. some (some true)) ("a" ∷ []) settled_nodes []
        ≡ answer (some (some true)))
eval_decides_example =
    eval_decides (λ steps params. some (some true)) ("a" ∷ []) ("c" ∷ []) settled_nodes [] a_ready
