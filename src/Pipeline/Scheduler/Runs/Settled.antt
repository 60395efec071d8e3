-- ===== src/Pipeline/Scheduler/Runs/Settled.antt =====
-- pipeline/scheduler.go: settleSkip and settleResult, taken apart into moves.
use faber.Common.{
  ℕ, zero, suc, ◌≡◌, refl, String, Bool, true, false, not, Option, none, some, List, ◌++◌,
  if◌then◌else◌, ◌||◌, length, lookup, Table, lookup-put_self, arith,
}
use faber.Metering.Cost.{Cost}
use faber.Failure.Result.{HaltRecord, Result}
use faber.Failure.Journal.{Record, result}
use faber.Pipeline.Values.{
  State, ok, failed, halted, skipped_condition, skipped_dependency, skipped_halt,
}
use faber.Pipeline.Scheduler.{Life, Work, Scheduler, Host, is_done, test_at, test_life, set_node}
use faber.Pipeline.Scheduler.Settle.{
  is_open, log_record, settle_skip, skipping, judge_at, keep_payload, log_costs, note_halt,
  write_result, state_of, settle_at, settle_result,
}
use faber.Pipeline.Scheduler.Runs.{
  IsQuiet, IsRevision, Run, quiet, chain, revise, stay, test_life-some, Nests, finish-Run,
}

is_open-false : (l : Life) → not (is_done l) ≡ true → is_done l ≡ false
is_open-false l h = ground arith

module _ {A : Type 0} where
  -- A run after which the node is open still.
  abbrev pub Steady : String → Scheduler A → Scheduler A → Type 0
  Steady id s t = Run s t × (is_open id t ≡ true)

  quiet-Steady :
      {s t : Scheduler A} (id : String) → IsQuiet false s t → is_open id s ≡ true → Steady id s t
  unfolding is_open test_life
  quiet-Steady {s = s} {t = t} id q h = (quiet q, rw (q.same_nodes) h)

  if-Steady :
      {s t u : Scheduler A} (id : String) (b : Bool)
      → Steady id s t
      → Steady id s u
      → Steady id s (if b then t else u)
  if-Steady id true f g = f
  if-Steady id false f g = g

  pub log_record-Steady :
      (host : Host A) (rec : Record) (id : String) (s : Scheduler A)
      → is_open id s ≡ true
      → Steady id s (log_record host rec s)
  unfolding log_record
  log_record-Steady host rec id s h =
      if-Steady id (host.accepts s.journal rec)
        (quiet-Steady id
          (record {
            same_nodes = refl;
            same_succ = refl;
            same_indeg = refl;
            same_members = refl;
            same_done = refl;
            same_parked = λ h. refl;
            still_out = λ h. omega arith;
          })
          h)
        (quiet-Steady id
          (record {
            same_nodes = refl;
            same_succ = refl;
            same_indeg = refl;
            same_members = refl;
            same_done = refl;
            same_parked = λ h. refl;
            still_out = λ h. omega arith;
          })
          h)

  -- A nested settlement on an open node is a run.
  pub settle_skip-Nests : (host : Host A) (fuel : ℕ) → Nests (settle_skip host fuel)
  unfolding settle_skip
  settle_skip-Nests host zero id state ancestor s h = stay s
  settle_skip-Nests host (suc fuel) id state ancestor s h =
      let (r, o) = log_record-Steady host _ id s h in
      chain r (finish-Run (settle_skip host fuel) (settle_skip-Nests host fuel) id state _ o)

  pub skipping-Nests : (host : Host A) (s : Scheduler A) → Nests (skipping host s)
  unfolding skipping
  skipping-Nests host s = settle_skip-Nests host (suc (length s.nodes))

  pub open_at :
      (id : String) (n : Work A) (s : Scheduler A)
      → lookup id s.nodes ≡ some n
      → is_done n.life ≡ false
      → is_open id s ≡ true
  unfolding is_open test_life test_at
  open_at id n s e h = simp (e, h) refl

  pub set_node-Steady :
      (id : String) (n n' : Work A) (s : Scheduler A)
      → lookup id s.nodes ≡ some n
      → IsRevision false n n'
      → Steady id s (set_node id n' s)
  unfolding set_node
  set_node-Steady id n n' s e r = (
    revise id n n' e r,
    open_at id n' (set_node id n' s) (lookup-put_self id n' s.nodes) r.is_open_still,
  )

  keep_payload-Steady :
      (id : String) (raw : Option String) (payload : Option (Table A)) (n : Work A)
      (s : Scheduler A) (host : Host A)
      → lookup id s.nodes ≡ some n
      → is_done n.life ≡ false
      → Steady id s (keep_payload host id raw payload n s)
  unfolding keep_payload
  keep_payload-Steady id raw none n s host e h = (stay s, open_at id n s e h)
  keep_payload-Steady id raw (some payload) n s host e h =
      set_node-Steady id n _ s e
        (record { was_open = h; is_open_still = h; started = refl; no_defer = λ p d. d })

  log_costs-Steady :
      (host : Host A) (id : String) (n : Work A) (executed : Bool) (costs : List Cost)
      (s : Scheduler A)
      → is_open id s ≡ true
      → Steady id s (log_costs host id n executed costs s)
  unfolding log_costs
  log_costs-Steady host id n executed costs s h =
      if-Steady id _ (log_record-Steady host _ id s h) (stay s, h)

  note_halt-Steady :
      (host : Host A) (id : String) (status : State) (halt : Option HaltRecord) (s : Scheduler A)
      → is_open id s ≡ true
      → Steady id s (note_halt host id status halt s)
  unfolding note_halt
  note_halt-Steady host id halted (some halt) s h =
      quiet-Steady id
        (record {
          same_nodes = refl;
          same_succ = refl;
          same_indeg = refl;
          same_members = refl;
          same_done = refl;
          same_parked = λ h. refl;
          still_out = λ h. omega arith;
        })
        h
  note_halt-Steady host id halted none s h = (stay s, h)
  note_halt-Steady host id ok halt s h = (stay s, h)
  note_halt-Steady host id failed halt s h = (stay s, h)
  note_halt-Steady host id skipped_condition halt s h = (stay s, h)
  note_halt-Steady host id skipped_dependency halt s h = (stay s, h)
  note_halt-Steady host id skipped_halt halt s h = (stay s, h)

  write_result-Steady :
      (host : Host A) (id : String) (raw : Option String) (executed : Bool) (costs : List Cost)
      (n : Work A) (status : State) (res : Result) (payload : Option (Table A)) (s : Scheduler A)
      → lookup id s.nodes ≡ some n
      → is_done n.life ≡ false
      → Steady id s (write_result host id raw executed costs n status res payload s)
  unfolding write_result
  write_result-Steady host id raw executed costs n status res payload s e h =
      let hash = if executed || n.cached then n.hash else "" in
      let (r, o) = keep_payload-Steady id raw payload n s host e h in
      let (r', o') =
        log_record-Steady host (result (record { step_id = id; input_hash = hash; result = res }))
          id (keep_payload host id raw payload n s) o in
      let (r2, o2) = log_costs-Steady host id n executed (n.costs ++ costs) _ o' in
      let (r3, o3) = note_halt-Steady host id status res.halt _ o2 in
      (chain r (chain r' (chain r2 r3)), o3)

  settle_at-Run :
      (host : Host A) (id : String) (res : Result) (executed : Bool) (costs : List Cost)
      (n : Work A) (s : Scheduler A)
      → lookup id s.nodes ≡ some n
      → is_done n.life ≡ false
      → Run s (settle_at host id res executed costs (some n) s)
  unfolding settle_at
  settle_at-Run host id res executed costs n s e h =
      let (status, res', payload) =
        judge_at host res (state_of res.status) (host.decode res.payload) in
      let (r, o) =
        write_result-Steady host id res.payload executed costs n status res' payload s e h in
      chain r (finish-Run (skipping host s) (skipping-Nests host s) id status _ o)

  pub settle_result-Run :
      (host : Host A) (id : String) (res : Result) (executed : Bool) (costs : List Cost)
      (s : Scheduler A)
      → is_open id s ≡ true
      → Run s (settle_result host id res executed costs s)
  unfolding settle_result is_open
  settle_result-Run host id res executed costs s h =
      let (n, e, o) = test_life-some (λ l. not (is_done l)) id s h in
      rw e (settle_at-Run host id res executed costs n s e (is_open-false n.life o))
