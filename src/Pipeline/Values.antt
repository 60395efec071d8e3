-- ===== src/Pipeline/Values.antt =====
-- pipeline/values.go and pipeline/cond.go: the inputs of a node, and the test of its condition. A
-- value is of any type; a map is a table; the CEL program is a parameter. The texts of errors are
-- left out.
pub mod Precedence
pub mod Conditions
use faber.Common.{
  String, Bool, true, false, not, Option, none, some, List, [], ◌∷◌, if◌then◌else◌, Table, lookup,
  put,
}

-- The terminal states of a node.
pub data State : Type 0 where
  ok failed halted skipped_condition skipped_dependency skipped_halt : State

abbrev pub is_skipped : State → Bool
is_skipped skipped_condition = true
is_skipped skipped_dependency = true
is_skipped skipped_halt = true
is_skipped _ = false

-- A node as its readers see it; `terminal` is its life being done.
pub record Source (A : Type 0) : Type 0 where
  pub terminal : Bool
  pub status : State
  pub payload : Table A

-- `unknown` is any other kind word.
pub data BindingDesc (A : Type 0) : Type 0 where
  literal : A → BindingDesc A
  param item unknown : String → BindingDesc A

pub record DataEdge : Type 0 where
  pub from : String
  pub from_port : String
  pub to_port : String

-- A binding's value, an optional param that the scope does not carry, or an error.
pub data Bound (A : Type 0) : Type 0 where
  bound : A → Bound A
  unbound bad : Bound A

pub data InputError : Type 0 where
  bad_binding : InputError
  unsettled_source missing_field broken_source : String → InputError

pub data Inputs (A : Type 0) : Type 0 where
  resolved : Table A → Inputs A
  skipped : String → Inputs A
  refused : InputError → Inputs A

pub data Verdict : Type 0 where
  run skip unknown_node unsettled_node program_error not_bool : Verdict

-- What the dependencies of a condition give: the activation, or the verdict that needs none.
pub data Activation (A : Type 0) : Type 0 where
  active : Table (Table A) → Activation A
  decided : Verdict → Activation A

unfoldable pub answer : Option (Option Bool) → Verdict
answer none = program_error
answer (some none) = not_bool
answer (some (some true)) = run
answer (some (some false)) = skip

module _ {A : Type 0} where
  from_scope : Option A → Bound A
  from_scope none = unbound
  from_scope (some v) = bound v

  -- `resolveBinding`
  unfoldable pub resolve_binding : BindingDesc A → Table A → Bound A
  unfolding from_scope
  resolve_binding (literal v) params = bound v
  resolve_binding (param name) params = from_scope (lookup name params)
  resolve_binding (item field) params = bad
  resolve_binding (unknown kind) params = bad

  add_binding : String → Bound A → Table A → Option (Table A)
  add_binding slot (bound v) inputs = some (put slot v inputs)
  add_binding slot unbound inputs = some inputs
  add_binding slot bad inputs = none

  -- The loop over the bindings, in the order of their slots.
  unfoldable pub bind_slots : List (String × BindingDesc A) → Table A → Table A → Option (Table A)
  unfolding resolve_binding add_binding
  bind_slots [] params inputs = some inputs
  bind_slots ((slot, b) ∷ bs) params inputs =
      elim (add_binding slot (resolve_binding b params) inputs) [
        | none ↦ none
        | some inputs' ↦ bind_slots bs params inputs'
      ]

  -- What one data edge gives.
  unfoldable pub follow_edge : DataEdge → Option (Source A) → Table A → Inputs A
  follow_edge e none inputs = refused (unsettled_source e.from)
  follow_edge e (some src) inputs =
      if not src.terminal then refused (unsettled_source e.from) else elim src.status [
        | ok ↦ elim (lookup e.from_port src.payload) [
          | none ↦ refused (missing_field e.from)
          | some v ↦ resolved (put e.to_port v inputs)
        ]
        | skipped_condition ↦ skipped e.from
        | skipped_dependency ↦ skipped e.from
        | skipped_halt ↦ skipped e.from
        | failed ↦ refused (broken_source e.from)
        | halted ↦ refused (broken_source e.from)
      ]

  -- The loop over the data edges.
  unfoldable pub follow_edges : List DataEdge → Table (Source A) → Table A → Inputs A
  unfolding follow_edge
  follow_edges [] nodes inputs = resolved inputs
  follow_edges (e ∷ es) nodes inputs = elim (follow_edge e (lookup e.from nodes) inputs) [
    | resolved inputs' ↦ follow_edges es nodes inputs'
    | skipped from ↦ skipped from
    | refused x ↦ refused x
  ]

  -- A declared default fills a slot that is still unbound.
  unfoldable pub fill_slot : String → Option A → Table A → Table A
  fill_slot slot none inputs = inputs
  fill_slot slot (some v) inputs = elim (lookup slot inputs) [
    | none ↦ put slot v inputs
    | some w ↦ inputs
  ]

  unfoldable pub fill_slots : List (String × Option A) → Table A → Table A
  unfolding fill_slot
  fill_slots [] inputs = inputs
  fill_slots ((slot, default) ∷ ds) inputs = fill_slots ds (fill_slot slot default inputs)

  filled : List (String × Option A) → Inputs A → Inputs A
  unfolding fill_slots
  filled ds (resolved inputs) = resolved (fill_slots ds inputs)
  filled ds (skipped from) = skipped from
  filled ds (refused x) = refused x

  -- `resolveInputs`, of a node's bindings, its inbound data edges and its template's slots.
  unfoldable pub resolve_inputs :
      Table (Source A)
      → List (String × BindingDesc A)
      → Table A
      → List DataEdge
      → List (String × Option A)
      → Inputs A
  unfolding bind_slots follow_edges filled
  resolve_inputs nodes bindings params edges slots = elim (bind_slots bindings params []) [
    | none ↦ refused bad_binding
    | some inputs ↦ filled slots (follow_edges edges nodes inputs)
  ]

  activate : String → Option (Source A) → Table (Table A) → Activation A
  activate id none steps = decided unknown_node
  activate id (some src) steps =
      if not src.terminal
      then decided unsettled_node
      else if is_skipped src.status
      then decided skip
      else active (put id src.payload steps)

  -- The loop over the dependencies.
  unfoldable pub activation : List String → Table (Source A) → Table (Table A) → Activation A
  unfolding activate
  activation [] nodes steps = active steps
  activation (id ∷ ids) nodes steps = elim (activate id (lookup id nodes) steps) [
    | active steps' ↦ activation ids nodes steps'
    | decided v ↦ decided v
  ]

  -- `eval`: the program answers `none` for an error, and `some none` for a value that is no bool.
  unfoldable pub eval :
      (Table (Table A) → Table A → Option (Option Bool))
      → List String
      → Table (Source A)
      → Table A
      → Verdict
  unfolding activation answer
  eval program deps nodes params = elim (activation deps nodes []) [
    | active steps ↦ answer (program steps params)
    | decided v ↦ v
  ]
