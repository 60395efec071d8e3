-- ===== src/Failure/Policy/Attempts.antt =====
-- failure/policy.go: the runs of the attempt loop.
use faber.Common.{
  ℕ, ap, zero, suc, ◌+◌, ◌≤◌, String, ◌≡◌, refl, ◌⊎◌, inl, inr, none, some, List, [], ◌∷◌, ◌++◌,
  arith, length, length-append, Option-cases, Bool-cases, true, false,
}
use faber.Failure.Result.{is_failed, AttemptInfo, Result, Violation, validate}
use faber.Failure.Policy.{
  World, StepSpec, checked, attempt_once, cleanup, canceled, info, attempts_from, run_step,
}

-- A checked record is valid, and keeps its number and history.
checked_fixed :
    (vs : List Violation) (detail : String) (res : Result)
    → validate res ≡ vs
    → 1 ≤ res.attempt
    → (validate (checked vs detail res) ≡ [])
      × ((checked vs detail res).attempt ≡ res.attempt)
      × ((checked vs detail res).attempts ≡ res.attempts)
unfolding checked
checked_fixed [] detail res e h = (e, refl, refl)
checked_fixed (v ∷ vs) detail res e h = (unfold validate in ground arith, refl, refl)

module _ {S : Type 0} (w : World S) (spec : StepSpec) where
  -- The runs of the loop: with so many re-runs left, from the given attempt and history on.
  pub data Runs : ℕ → ℕ → List AttemptInfo → S → Result → S → Type 0 where
    stopped :
        {left n : ℕ} {history : List AttemptInfo} {s : S} {why : String}
        → w.cause s ≡ some why
        → Runs left n history s (canceled w spec why n history s) s
    settled :
        {left n : ℕ} {history : List AttemptInfo} {s : S}
        → w.cause s ≡ none
        → is_failed ((attempt_once w spec n history s).0.status) ≡ false
        → Runs left n history s
            (attempt_once w spec n history s).0
            (attempt_once w spec n history s).1
    exhausted :
        {n : ℕ} {history : List AttemptInfo} {s : S}
        → w.cause s ≡ none
        → is_failed ((attempt_once w spec n history s).0.status) ≡ true
        → Runs zero n history s
            (attempt_once w spec n history s).0
            (cleanup w spec (attempt_once w spec n history s).0 (attempt_once w spec n history s).1)
    retried :
        {left n : ℕ} {history : List AttemptInfo} {s s' : S} {out : Result}
        → w.cause s ≡ none
        → is_failed ((attempt_once w spec n history s).0.status) ≡ true
        → Runs left
            (n + 1)
            (history ++ info w spec n (attempt_once w spec n history s).0 ∷ [])
            (cleanup w spec (attempt_once w spec n history s).0 (attempt_once w spec n history s).1)
            out
            s'
        → Runs (suc left) n history s out s'

  -- The loop terminates in a run.
  pub attempts_from-Runs :
      (left n : ℕ) (history : List AttemptInfo) (s : S)
      → Runs left n history s
          (attempts_from w spec left n history s).0
          (attempts_from w spec left n history s).1
  unfolding attempts_from
  attempts_from-Runs zero n history s = elim (Option-cases (w.cause s)) [
    | inr (why, e) ↦ rw (e, attempts_from) (stopped e)
    | inl e ↦ elim (Bool-cases (is_failed (attempt_once w spec n history s).0.status)) [
      | inl f ↦ rw (e, attempts_from) (rw f (exhausted e f))
      | inr g ↦ rw (e, attempts_from) (rw g (settled e g))
    ]
  ]
  attempts_from-Runs (suc left) n history s = elim (Option-cases (w.cause s)) [
    | inr (why, e) ↦ rw (e, attempts_from) (stopped e)
    | inl e ↦ elim (Bool-cases (is_failed (attempt_once w spec n history s).0.status)) [
      | inl f ↦
          rw (e, attempts_from)
            (rw f (
              retried e f (
                attempts_from-Runs left (n + 1)
                  (history ++ info w spec n (attempt_once w spec n history s).0 ∷ [])
                  (cleanup w spec (attempt_once w spec n history s).0
                    (attempt_once w spec n history s).1))))
      | inr g ↦ rw (e, attempts_from) (rw g (settled e g))
    ]
  ]

  attempt_once_fixed :
      (n : ℕ) (history : List AttemptInfo) (s : S)
      → 1 ≤ n
      → let res = (attempt_once w spec n history s).0 in
        (validate res ≡ []) × (res.attempt ≡ n) × (res.attempts ≡ history)
  unfolding attempt_once
  attempt_once_fixed n history s h = checked_fixed _ _ _ refl h

  -- The outcome of a run: valid, numbered after its history, within the re-runs.
  pub record IsSettled (left n : ℕ) (history : List AttemptInfo) (out : Result) : Type 0 where
    pub valid : validate out ≡ []
    pub numbered : out.attempt + length history ≡ length out.attempts + n
    pub within : out.attempt ≤ n + left

  canceled-IsSettled :
      {left n : ℕ} {history : List AttemptInfo} (why : String) (s : S)
      → 1 ≤ n
      → length history + 1 ≡ n
      → IsSettled left n history (canceled w spec why n history s)
  unfolding canceled validate
  canceled-IsSettled why s h e = record {
    valid = ground arith;
    numbered = omega arith;
    within = omega arith;
  }

  once-IsSettled :
      {left n : ℕ} {history : List AttemptInfo} (s : S)
      → 1 ≤ n
      → length history + 1 ≡ n
      → IsSettled left n history (attempt_once w spec n history s).0
  once-IsSettled {n = n} {history = history} s h e =
      let (valid, number, kept) = attempt_once_fixed n history s h in
      record {
        valid = valid;
        numbered = omega (arith, number, ap length kept);
        within = omega (arith, number);
      }

  Runs-IsSettled :
      {left n : ℕ} {history : List AttemptInfo} {s s' : S} {out : Result}
      → 1 ≤ n
      → length history + 1 ≡ n
      → Runs left n history s out s'
      → IsSettled left n history out
  Runs-IsSettled h k (stopped {s = s} {why = why} e) = canceled-IsSettled why s h k
  Runs-IsSettled h k (settled {s = s} e g) = once-IsSettled s h k
  Runs-IsSettled h k (exhausted {s = s} e f) = once-IsSettled s h k
  Runs-IsSettled h k (retried {n = n} {history = history} {s = s} e f r) =
      let last = info w spec n (attempt_once w spec n history s).0 in
      let long : length (history ++ last ∷ []) ≡ length history + 1 =
        length-append history (last ∷ []) in
      let later = Runs-IsSettled (omega arith) (omega (arith, long)) r in
      record {
        valid = later.valid;
        numbered = omega (arith, later.numbered, long);
        within = omega (arith, later.within);
      }

  -- Every step settles in a valid record. Its attempt number counts from one, is one more than its
  -- history is long, and is at most one more than the allowed re-runs.
  pub run_step_settles :
      (s : S)
      → (validate (run_step w spec s).0 ≡ [])
        × ((run_step w spec s).0.attempt ≡ length (run_step w spec s).0.attempts + 1)
        × ((run_step w spec s).0.attempt ≤ 1 + spec.retry)
  unfolding run_step
  run_step_settles s =
      let v = Runs-IsSettled (omega arith) (omega arith) (attempts_from-Runs spec.retry 1 [] s) in
      (v.valid, omega (arith, v.numbered), v.within)

  -- How a run of the loop that counts cleanups ends.
  abbrev Counts : (S → ℕ) → ℕ → S → Result → S → Type 0
  Counts count n s out s' =
      (is_failed out.status ≡ false → count s' + n ≡ count s + out.attempt)
      × (is_failed out.status ≡ true
          → (count s' + n ≡ count s + out.attempt + 1)
            ⊎ ((why : String) × (w.cause s' ≡ some why)
                × (out ≡ canceled w spec why out.attempt out.attempts s')
                × (count s' + n ≡ count s + out.attempt)))
