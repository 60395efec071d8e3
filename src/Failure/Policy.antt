-- ===== src/Failure/Policy.antt =====
-- failure/policy.go: the attempt loop of one step. The world that the loop acts on (the run's
-- context, the clock, the box, the hooks and the journal) is a state; the collaborators that act on
-- it are the fields of `World`. Log lines are left out.
pub mod Attempts
use faber.Common.{
  ℕ, zero, suc, ◌+◌, String, Option, none, some, Bool, true, false, List, [], ◌∷◌, ◌++◌, str_eq,
  if◌then◌else◌,
}
use faber.Failure.Result.{
  failed, ErrorRecord, Timing, AttemptInfo, Result, Violation, is_failed, validate,
}

-- `retry` is the number of re-runs after the first failure; an empty `on_failure` is no hook.
pub record StepSpec : Type 0 where
  pub id : String
  pub input_hash : String
  pub retry : ℕ
  pub on_failure : String

pub record HookInvocation : Type 0 where
  pub script : String
  pub step_id : String
  pub attempt : ℕ
  pub error : Option ErrorRecord

pub record CleanupRecord : Type 0 where
  pub step_id : String
  pub input_hash : String
  pub attempt : ℕ
  pub done : Bool
  pub detail : String

-- `cause` is the cancellation of the run's context; `run` is one attempt, `none` with the text of a
-- launch error where it never launched; `hook` is `none` where no hook runner is wired, and its
-- answer the text of its error; `append` is the journal's AppendCleanup, whose error is logged only.
-- `render` is the text of the joined validation errors.
pub record World (S : Type 0) : Type 0 where
  pub cause : S → Option String
  pub now : S → ℕ
  pub run : ℕ → S → Option Result × String × S
  pub hook : Option (HookInvocation → S → Option String × S)
  pub append : Option (CleanupRecord → S → S)
  pub render : List Violation → String

abbrev pub error_of : String → String → ErrorRecord
error_of reason detail = record { reason = reason; detail = detail; handoff = "" }

unfoldable pub failed_result : ErrorRecord → Timing → ℕ → List AttemptInfo → Result
failed_result error timing attempt history = record {
  status = failed;
  payload = none;
  error = some error;
  halt = none;
  timing = timing;
  attempt = attempt;
  attempts = history;
  agent_skipped = false;
  check = false;
}

abbrev no_timing : Timing
no_timing = record { started = none; finished = none }

filled_timing : Timing → ℕ → ℕ → Timing
filled_timing t started finished = elim t.started [
  | none ↦ record { started = some started; finished = some finished }
  | some _ ↦ t
]

-- A launch error is still a record.
launched : Option Result → String → Result
unfolding failed_result
launched none detail = failed_result (error_of "launch" detail) no_timing 0 []
launched (some res) detail = res

-- A record that breaks the contract is replaced.
checked : List Violation → String → Result → Result
unfolding failed_result
checked [] detail res = res
checked (v ∷ vs) detail res =
    failed_result (error_of "result-schema" detail) res.timing res.attempt res.attempts

module _ {S : Type 0} (w : World S) (spec : StepSpec) where
  -- One attempt, up to its validated record.
  unfoldable pub attempt_once : ℕ → List AttemptInfo → S → Result × S
  unfolding launched filled_timing checked
  attempt_once attempt history s =
      let (answer, detail, s1) = w.run attempt s in
      let raw : Result = launched answer detail in
      let res : Result = record raw {
        timing = filled_timing raw.timing (w.now s) (w.now s1);
        attempt = attempt;
        attempts = history;
      } in
      (checked (validate res) (w.render (validate res)) res, s1)

  hook_outcome : Result → S → Option String × S
  hook_outcome res s = elim w.hook [
    | none ↦ (some "failure: step declares on_failure but no hook runner is wired", s)
    | some hook ↦
        hook
          (record {
            script = spec.on_failure;
            step_id = spec.id;
            attempt = res.attempt;
            error = res.error;
          })
          s
  ]

  cleanup_record : Result → Option String → CleanupRecord
  cleanup_record res err = record {
    step_id = spec.id;
    input_hash = spec.input_hash;
    attempt = res.attempt;
    done = elim err [ none ↦ true | some _ ↦ false ];
    detail = elim err [ none ↦ "" | some d ↦ d ];
  }

  -- `cleanup`
  unfoldable pub cleanup : Result → S → S
  unfolding hook_outcome cleanup_record
  cleanup res s =
      let (err, s1) = hook_outcome res s in
      let logged : S = elim w.append [
        | none ↦ s1
        | some append ↦ append (cleanup_record res err) s1
      ] in
      if str_eq spec.on_failure "" then s else logged

  unfoldable pub canceled : String → ℕ → List AttemptInfo → S → Result
  unfolding failed_result
  canceled why attempt history s =
      failed_result (error_of "canceled" why)
        (record { started = some (w.now s); finished = some (w.now s) }) attempt history

  unfoldable pub info : ℕ → Result → AttemptInfo
  info attempt res = record { attempt = attempt; timing = res.timing; error = res.error }

  -- The loop, with the number of re-runs that are left.
  unfoldable pub attempts_from : ℕ → ℕ → List AttemptInfo → S → Result × S
  attempts_from zero n history s = elim (w.cause s) [
    | some why ↦ (canceled why n history s, s)
    | none ↦
        let (res, s1) = attempt_once n history s in
        if is_failed res.status then (res, cleanup res s1) else (res, s1)
  ]
  attempts_from (suc left) n history s = elim (w.cause s) [
    | some why ↦ (canceled why n history s, s)
    | none ↦
        let (res, s1) = attempt_once n history s in
        let again = attempts_from left (n + 1) (history ++ info n res ∷ []) (cleanup res s1) in
        if is_failed res.status then again else (res, s1)
  ]

  -- `RunStep`
  unfoldable pub run_step : S → Result × S
  unfolding attempts_from
  run_step s = attempts_from spec.retry 1 [] s
