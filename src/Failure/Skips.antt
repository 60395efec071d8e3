-- ===== src/Failure/Skips.antt =====
-- failure/policy.go: SkipSet, the fail-stop rule as data. Of the IR it reads the edges, and the
-- conditions' reads; a set of ids is a list.
pub mod Marks
pub mod Dependents
use faber.Common.{
  ℕ, zero, suc, ◌+◌, String, Bool, true, false, List, [], ◌∷◌, ◌++◌, str_eq, if◌then◌else◌, length,
}

pub record Edge : Type 0 where
  pub from : String
  pub to : String

-- A node with the ids that its `when` reads; none where it has no condition.
pub record Node : Type 0 where
  pub id : String
  pub deps : List String

pub record Ir : Type 0 where
  pub edges : List Edge
  pub nodes : List Node

reads_of : String → List String → List Edge
reads_of id [] = []
reads_of id (dep ∷ deps) = record { from = dep; to = id } ∷ reads_of id deps

condition_reads : List Node → List Edge
unfolding reads_of
condition_reads [] = []
condition_reads (n ∷ ns) = reads_of n.id n.deps ++ condition_reads ns

-- The pairs that `succ` indexes: the edges, then the condition reads.
unfoldable pub dependencies : Ir → List Edge
unfolding condition_reads
dependencies ir = ir.edges ++ condition_reads ir.nodes

-- `succ[id]`
unfoldable pub successors : List Edge → String → List String
successors [] id = []
successors (e ∷ es) id =
    let rest = successors es id in if str_eq e.from id then e.to ∷ rest else rest

unfoldable pub contains : List String → String → Bool
contains [] id = false
contains (x ∷ xs) id = let rest = contains xs id in if str_eq x id then true else rest

-- The inner loop: an id that is not yet skipped is skipped and queued.
unfoldable pub mark : List String → List String → List String → List String × List String
unfolding contains
mark [] skip queue = (skip, queue)
mark (next ∷ nexts) skip queue =
    let seen = mark nexts skip queue in
    let fresh = mark nexts (next ∷ skip) (queue ++ next ∷ []) in
    if contains skip next then seen else fresh

-- The outer loop, with fuel.
unfoldable pub walk : ℕ → List Edge → List String → List String → List String
unfolding mark
walk zero deps skip queue = skip
walk (suc fuel) deps skip [] = skip
walk (suc fuel) deps skip (id ∷ queue) =
    let (skip', queue') = mark (successors deps id) skip queue in walk fuel deps skip' queue'

-- `delete(skip, id)` for each failed id.
unfoldable pub without : List String → List String → List String
unfolding contains
without failed [] = []
without failed (x ∷ xs) =
    let rest = without failed xs in if contains failed x then rest else x ∷ rest

-- Each round takes one id off the queue, and an id is queued at most once beside the failed ones.
abbrev pub enough_fuel : List Edge → List String → ℕ
enough_fuel deps failed = suc (length failed + length deps)

-- `SkipSet`
unfoldable pub skip_set : Ir → List String → List String
unfolding walk without dependencies
skip_set ir failed =
    let deps = dependencies ir in without failed (walk (enough_fuel deps failed) deps [] failed)
