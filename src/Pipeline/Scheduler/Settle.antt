-- ===== src/Pipeline/Scheduler/Settle.antt =====
-- pipeline/scheduler.go: settlement. A settlement may settle others, whose settlements call
-- it again; the nesting has fuel, and so has the walk of propagate.
use faber.Common.{
  ℕ, zero, suc, ◌+◌, String, Bool, true, false, ◌||◌, not, Option, none, some, List, [], ◌∷◌, ◌++◌,
  if◌then◌else◌, length, Table, lookup,
}
use faber.Metering.Cost.{Cost}
use faber.Failure.Result.{Status, HaltRecord, Timing, Result}
use faber.Failure.Policy.{failed_result, error_of}
use faber.Failure.Journal.{Record, result, cost}
use faber.Failure.Skips.{contains}
use faber.Pipeline.Values.{
  State, ok, failed, halted, skipped_condition, skipped_dependency, skipped_halt,
}
use faber.Pipeline.Scheduler.{
  Work, Scheduler, Host, is_done, is_ok, is_passive, test_life, succ_of, members_of, set_node, mark,
  release, wake_parked,
}

unfoldable pub state_name : State → String
state_name ok = "ok"
state_name failed = "failed"
state_name halted = "halted"
state_name skipped_condition = "skipped-condition"
state_name skipped_dependency = "skipped-dependency"
state_name skipped_halt = "skipped-halt"

-- How a sub-workflow's entry that is not ok skips its members: the state, and the ancestor.
unfoldable pub member_skip : State → String → State × String
member_skip skipped_condition id = (skipped_condition, "")
member_skip skipped_halt id = (skipped_halt, id)
member_skip status id = (skipped_dependency, id)

unfoldable pub total_succ : Table (List String) → ℕ
total_succ [] = 0
total_succ ((p, ds) ∷ succ) = length ds + total_succ succ

-- What a verdict of the box becomes.
unfoldable pub state_of : Status → State
state_of Status.failed = failed
state_of Status.halted = halted
state_of _ = ok

module _ {A : Type 0} where
  unfoldable pub is_open : String → Scheduler A → Bool
  unfolding test_life
  is_open id s = test_life (λ l. not (is_done l)) id s

  -- An append that the journal refuses aborts the run.
  unfoldable pub log_record : Host A → Record → Scheduler A → Scheduler A
  log_record host rec s =
      if host.accepts s.journal rec
      then record s { journal = s.journal ++ rec ∷ [] }
      else record s { fatal = true }

  unfoldable pub skip_members :
      (String → State → String → Scheduler A → Scheduler A)
      → State
      → String
      → List String
      → Scheduler A
      → Scheduler A
  unfolding is_open
  skip_members skip state ancestor [] s = s
  skip_members skip state ancestor (m ∷ ms) s =
      let taken = skip_members skip state ancestor ms (skip m state ancestor s) in
      let rest = skip_members skip state ancestor ms s in if is_open m s then taken else rest

  -- The members of an entry that is not ok.
  unfoldable pub cascade :
      (String → State → String → Scheduler A → Scheduler A)
      → String
      → State
      → Scheduler A
      → Scheduler A
  unfolding skip_members member_skip members_of
  cascade skip id status s =
      let (state, ancestor) = member_skip status id in
      if is_ok status then s else skip_members skip state ancestor (members_of id s) s

  -- The loop of `propagate`.
  unfoldable pub walk :
      (String → State → String → Scheduler A → Scheduler A)
      → String
      → State
      → ℕ
      → List String
      → List String
      → Scheduler A
      → Scheduler A
  unfolding contains test_life succ_of
  walk skip root state zero visited queue s = s
  walk skip root state (suc fuel) visited [] s = s
  walk skip root state (suc fuel) visited (id ∷ queue) s =
      let again = walk skip root state fuel visited queue s in
      let beyond = walk skip root state fuel (id ∷ visited) queue s in
      let s' = skip id state root s in
      let taken = walk skip root state fuel (id ∷ visited) (queue ++ succ_of id s') s' in
      if contains visited id then again else if test_life is_passive id s then taken else beyond

  -- `propagate`; every round takes an id off the queue, and an id queues its successors once.
  unfoldable pub propagate :
      (String → State → String → Scheduler A → Scheduler A)
      → String
      → State
      → Scheduler A
      → Scheduler A
  unfolding walk succ_of total_succ
  propagate skip root state s =
      walk skip root state (suc (length (succ_of root s) + total_succ s.succ)) [] (succ_of root s) s

  unfoldable pub spread :
      (String → State → String → Scheduler A → Scheduler A)
      → String
      → State
      → Scheduler A
      → Scheduler A
  unfolding propagate
  spread skip id failed s = propagate skip id skipped_dependency s
  spread skip id halted s = propagate skip id skipped_halt s
  spread skip id _ s = s

  -- `finish`
  unfoldable pub finish :
      (String → State → String → Scheduler A → Scheduler A)
      → String
      → State
      → Scheduler A
      → Scheduler A
  unfolding mark cascade spread release wake_parked
  finish skip id status s =
      wake_parked (release id (spread skip id status (cascade skip id status (mark id status s))))

module _ {A : Type 0} (host : Host A) where
  abbrev pub instant : Timing
  instant = record { started = some host.now; finished = some host.now }

  unfoldable pub skip_record : String → State → String → Record
  unfolding failed_result state_name
  skip_record id state ancestor = result (record {
    step_id = id;
    input_hash = "";
    result = failed_result (error_of (state_name state) ancestor) instant 1 [];
  })

  -- `settleSkip`, with fuel for the nesting.
  unfoldable pub settle_skip : ℕ → String → State → String → Scheduler A → Scheduler A
  unfolding finish log_record skip_record
  settle_skip zero id state ancestor s = s
  settle_skip (suc fuel) id state ancestor s =
      finish (settle_skip fuel) id state (log_record host (skip_record id state ancestor) s)

  -- A nested settlement settles one open node more than the one around it.
  unfoldable pub skipping : Scheduler A → String → State → String → Scheduler A → Scheduler A
  unfolding settle_skip
  skipping s = settle_skip (suc (length s.nodes))

  -- An ok payload that does not decode fails the node.
  unfoldable pub judge_at : Result → State → Option (Table A) → State × Result × Option (Table A)
  unfolding failed_result
  judge_at res ok (some payload) = (ok, res, some payload)
  judge_at res ok none =
      (failed, failed_result (error_of "result-schema" "") res.timing res.attempt [], none)
  judge_at res state payload = (state, res, none)

  unfoldable pub keep_payload :
      String → Option String → Option (Table A) → Work A → Scheduler A → Scheduler A
  unfolding set_node
  keep_payload id raw none n s = s
  keep_payload id raw (some payload) n s = set_node id (record n { payload = payload; raw = raw }) s

  unfoldable pub cost_text : List Cost → String
  cost_text [] = "[]"
  cost_text (c ∷ cs) = host.render (c ∷ cs)

  abbrev is_nonempty : List Cost → Bool
  is_nonempty [] = false
  is_nonempty (c ∷ cs) = true

  -- The cost record that a settlement owes.
  unfoldable pub log_costs : String → Work A → Bool → List Cost → Scheduler A → Scheduler A
  unfolding log_record cost_text
  log_costs id n executed costs s =
      if executed || is_nonempty costs
      then log_record host
          (cost (record { step_id = id; input_hash = n.hash; cost = cost_text costs })) s
      else s

  unfoldable pub note_halt : String → State → Option HaltRecord → Scheduler A → Scheduler A
  note_halt id halted (some halt) s = record s { halts = s.halts ++ (id, halt.reason) ∷ [] }
  note_halt id state halt s = s

  -- What a settlement writes before finish: the payload, the result, the costs, the halt.
  unfoldable pub write_result :
      String
      → Option String
      → Bool
      → List Cost
      → Work A
      → State
      → Result
      → Option (Table A)
      → Scheduler A
      → Scheduler A
  unfolding keep_payload log_record log_costs note_halt
  write_result id raw executed costs n status res payload s =
      let kept = keep_payload id raw payload n s in
      let hash = if executed || n.cached then n.hash else "" in
      let logged =
        log_record host (result (record { step_id = id; input_hash = hash; result = res })) kept in
      note_halt id status res.halt (log_costs id n executed (n.costs ++ costs) logged)

  unfoldable pub settle_at :
      String → Result → Bool → List Cost → Option (Work A) → Scheduler A → Scheduler A
  unfolding judge_at write_result finish skipping state_of
  settle_at id res executed costs none s = s
  settle_at id res executed costs (some n) s =
      let (status, res', payload) = judge_at res (state_of res.status) (host.decode res.payload) in
      finish (skipping s) id status
        (write_result id res.payload executed costs n status res' payload s)

  -- `settleResult`
  unfoldable pub settle_result : String → Result → Bool → List Cost → Scheduler A → Scheduler A
  unfolding settle_at
  settle_result id res executed costs s = settle_at id res executed costs (lookup id s.nodes) s

  -- `settleFailed`
  unfoldable pub settle_failed : String → String → String → Scheduler A → Scheduler A
  unfolding settle_result failed_result
  settle_failed id reason detail s =
      settle_result id (failed_result (error_of reason detail) instant 1 []) false [] s
