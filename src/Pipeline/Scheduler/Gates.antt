-- ===== src/Pipeline/Scheduler/Gates.antt =====
-- pipeline/scheduler.go: the cheap gates of a ready node: conditions, selectors and entries. The
-- programs of the conditions, the image tags, the input hash and the prior journal are the parameter
-- `Gates`, which may differ from node to node. The texts of errors, the inputs, the image and the
-- job of a worker, which no handler reads again, and the expect command of a loop are left out.
use faber.Common.{
  String, Bool, false, not, ◌&&◌, Option, none, some, List, [], ◌∷◌, if◌then◌else◌, Table, lookup,
  put,
}
use faber.Failure.Result.{Status, Result}
use faber.Failure.Journal.{Key, ResultRecord}
use faber.Pipeline.Values.{
  skipped_condition, skipped_dependency, Source, BindingDesc, DataEdge, bound, unbound, bad,
  resolve_binding, Verdict, run, skip, eval,
}
use faber.Pipeline.Scheduler.{Work, Scheduler, Host, is_done, is_ok}
use faber.Pipeline.Scheduler.Settle.{skipping, settle_result, settle_failed}

pub data Kind : Type 0 where
  agent selector sub_workflow generate : Kind
  unsupported : String → Kind

pub record Selector : Type 0 where
  pub candidates : List String
  pub exhausted : Option (List String)

-- What dispatch reads of a node's IR; a condition is the list of ids that it reads.
pub record Plan (A : Type 0) : Type 0 where
  pub kind : Kind
  pub when : Option (List String)
  pub template : Option String
  pub scope : String
  pub bindings : List (String × BindingDesc A)
  pub edges : List DataEdge
  pub inputs : List (String × Option A)
  pub sel : Option Selector

pub record Gates (A : Type 0) : Type 0 where
  pub when_program : Table (Table A) → Table A → Option (Option Bool)
  pub exhausted_program : Table (Table A) → Table A → Option (Option Bool)
  pub tag : String → Option String
  pub digest : Table A → String → String → Option String
  pub prior : List (Key × ResultRecord)
  pub has_boxes : Bool

-- How a node stands to those that read it.
as_source : {A : Type 0} → Work A → Source A
as_source n = record { terminal = is_done n.life; status = n.status; payload = n.payload }

unfoldable pub sources : {A : Type 0} → Table (Work A) → Table (Source A)
unfolding as_source
sources [] = []
sources ((id, n) ∷ nodes) = (id, as_source n) ∷ sources nodes

-- A node's raw payload, once it has settled ok.
unfoldable pub ok_raw : {A : Type 0} → Option (Work A) → Option (Option String)
ok_raw none = none
ok_raw (some n) = if is_done n.life && is_ok n.status then some n.raw else none

-- The scope of a sub-workflow's entry after a loop: whole, or up to where the loop was stopped.
pub data Scope (A : Type 0) : Type 0 where
  scoped unbindable : Table A → Scope A
  unsourced : String → Table A → Scope A

-- The loop of resolveSelector over the candidates.
unfoldable pub first_ok : {A : Type 0} → List String → Table (Work A) → Option (Option String)
unfolding ok_raw
first_ok [] nodes = none
first_ok (c ∷ cs) nodes = elim (ok_raw (lookup c nodes)) [
  | none ↦ first_ok cs nodes
  | some raw ↦ some raw
]

module _ {A : Type 0} where
  table_or_nil : Option (Table A) → Table A
  table_or_nil none = []
  table_or_nil (some m) = m

  -- `n.env.params`
  unfoldable pub params_of : Plan A → Scheduler A → Table A
  unfolding table_or_nil
  params_of plan s = table_or_nil (lookup plan.scope s.scopes)

  -- The loop of settleSubEntry over the bindings.
  unfoldable pub bind_entry : List (String × BindingDesc A) → Table A → Table A → Scope A
  unfolding resolve_binding
  bind_entry [] params env = scoped env
  bind_entry ((name, b) ∷ bs) params env = elim (resolve_binding b params) [
    | bound v ↦ bind_entry bs params (put name v env)
    | unbound ↦ bind_entry bs params env
    | bad ↦ unbindable env
  ]

  follow_entry : DataEdge → Option (Source A) → Table A → Scope A
  follow_entry e none env = unbindable env
  follow_entry e (some src) env =
      if not src.terminal
      then unbindable env
      else if is_ok src.status
      then (elim (lookup e.from_port src.payload) [
        | none ↦ unbindable env
        | some v ↦ scoped (put e.to_port v env)
      ])
      else unsourced e.from env

  -- The loop of settleSubEntry over the data edges.
  unfoldable pub follow_entries : List DataEdge → Table (Source A) → Table A → Scope A
  unfolding follow_entry
  follow_entries [] nodes env = scoped env
  follow_entries (e ∷ es) nodes env = elim (follow_entry e (lookup e.from nodes) env) [
    | scoped env' ↦ follow_entries es nodes env'
    | unbindable env' ↦ unbindable env'
    | unsourced from env' ↦ unsourced from env'
  ]

  then_follow : List DataEdge → Table (Source A) → Scope A → Scope A
  unfolding follow_entries
  then_follow es nodes (scoped env) = follow_entries es nodes env
  then_follow es nodes (unbindable env) = unbindable env
  then_follow es nodes (unsourced from env) = unsourced from env

module _ {A : Type 0} (host : Host A) (gates : Gates A) where
  unfoldable pub set_scope : String → Table A → Scheduler A → Scheduler A
  set_scope id env s = record s { scopes = put id env s.scopes }

  unfoldable pub ok_result : Option String → Result
  ok_result payload = record {
    status = Status.ok;
    payload = payload;
    error = none;
    halt = none;
    timing = record { started = some host.now; finished = some host.now };
    attempt = 1;
    attempts = [];
    agent_skipped = false;
    check = false;
  }

  unfoldable pub settle_scope : String → Scope A → Scheduler A → Scheduler A
  unfolding set_scope settle_failed settle_result ok_result skipping
  settle_scope id (scoped env) s =
      settle_result host id (ok_result (some "{}")) false [] (set_scope id env s)
  settle_scope id (unbindable env) s = settle_failed host id "expansion" "" (set_scope id env s)
  settle_scope id (unsourced from env) s =
      skipping host s id skipped_dependency from (set_scope id env s)

  -- `settleSubEntry`; the scope of an entry is registered, or not.
  unfoldable pub settle_sub_entry : String → Plan A → Option (Table A) → Scheduler A → Scheduler A
  unfolding settle_scope then_follow bind_entry params_of sources settle_failed
  settle_sub_entry id plan none s = settle_failed host id "expansion" "" s
  settle_sub_entry id plan (some env) s =
      settle_scope id
        (then_follow plan.edges (sources s.nodes) (bind_entry plan.bindings (params_of plan s) env))
        s

  -- The payload of the first candidate that settled ok, if there is one.
  unfoldable pub adopt_found : String → Option (Option String) → Scheduler A → Scheduler A
  unfolding settle_result skipping ok_result
  adopt_found id none s = skipping host s id skipped_condition "" s
  adopt_found id (some raw) s = settle_result host id (ok_result raw) false [] s

  unfoldable pub adopt_first : String → List String → Scheduler A → Scheduler A
  unfolding first_ok adopt_found
  adopt_first id cs s = adopt_found id (first_ok cs s.nodes) s

  -- Whether the condition of exhaustion is asked: the last iteration is the first candidate.
  asks_exhausted : Option (Option String) → Option (List String) → Option (List String)
  asks_exhausted none deps = none
  asks_exhausted (some raw) deps = deps

  unfoldable pub exhaust : String → List String → Option Verdict → Scheduler A → Scheduler A
  unfolding adopt_first settle_failed
  exhaust id cs none s = adopt_first id cs s
  exhaust id cs (some skip) s = adopt_first id cs s
  exhaust id cs (some run) s = settle_failed host id "loop-exhausted" "" s
  exhaust id cs (some error) s = settle_failed host id "condition" "" s

  unfoldable pub verdict_of :
      (Table (Table A) → Table A → Option (Option Bool))
      → Plan A
      → Option (List String)
      → Scheduler A
      → Option Verdict
  unfolding eval sources params_of
  verdict_of program plan none s = none
  verdict_of program plan (some deps) s =
      some (eval program deps (sources s.nodes) (params_of plan s))

  -- `resolveSelector`
  unfoldable pub resolve_selector : String → Plan A → Option Selector → Scheduler A → Scheduler A
  unfolding exhaust verdict_of asks_exhausted ok_raw settle_failed
  resolve_selector id plan none s = settle_failed host id "expansion" "" s
  resolve_selector id plan (some sel) s = elim sel.candidates [
    | [] ↦ settle_failed host id "expansion" "" s
    | c ∷ cs ↦
        exhaust id (c ∷ cs)
          (verdict_of gates.exhausted_program plan
            (asks_exhausted (ok_raw (lookup c s.nodes)) sel.exhausted) s)
          s
  ]
