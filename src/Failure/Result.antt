-- ===== src/Failure/Result.antt =====
-- failure/result.go: the one record that every step attempt produces.
pub mod Union
use faber.Common.{
  ℕ, String, Option, none, some, Bool, true, false, List, [], ◌∷◌, ◌++◌, ltb, str_eq, if◌then◌else◌,
}

-- `unknown` is any other word, as a hand-edited record may carry it.
pub data Status : Type 0 where
  ok failed halted : Status
  unknown : String → Status

abbrev pub is_failed : Status → Bool
is_failed failed = true
is_failed _ = false

pub record ErrorRecord : Type 0 where
  pub reason : String
  pub detail : String
  pub handoff : String

pub record HaltRecord : Type 0 where
  pub reason : String
  pub detail : String
  pub phase : String

-- `none` is the zero time.
pub record Timing : Type 0 where
  pub started : Option ℕ
  pub finished : Option ℕ

pub record AttemptInfo : Type 0 where
  pub attempt : ℕ
  pub timing : Timing
  pub error : Option ErrorRecord

-- `payload` is `none` for nil and `some ""` for an empty payload; an attempt below 1 reads as 0.
pub record Result : Type 0 where
  pub status : Status
  pub payload : Option String
  pub error : Option ErrorRecord
  pub halt : Option HaltRecord
  pub timing : Timing
  pub attempt : ℕ
  pub attempts : List AttemptInfo
  pub agent_skipped : Bool
  pub check : Bool

pub data Violation : Type 0 where
  payload_missing payload_present : Violation
  error_missing error_present error_reason_missing : Violation
  halt_missing halt_present halt_reason_missing : Violation
  status_unknown attempt_not_positive : Violation

module _ {ℓ} {A : Type ℓ} where
  present : Violation → Option A → List Violation
  present v none = []
  present v (some _) = v ∷ []

without_payload : Option String → List Violation
without_payload none = payload_missing ∷ []
without_payload (some p) = if str_eq p "" then payload_missing ∷ [] else []

without_error : Option ErrorRecord → List Violation
without_error none = error_missing ∷ []
without_error (some e) = if str_eq e.reason "" then error_reason_missing ∷ [] else []

without_halt : Option HaltRecord → List Violation
without_halt none = halt_missing ∷ []
without_halt (some h) = if str_eq h.reason "" then halt_reason_missing ∷ [] else []

-- The `switch` of `Validate`.
arm_violations : Status → Option String → Option ErrorRecord → Option HaltRecord → List Violation
unfolding present without_payload without_error without_halt
arm_violations ok payload error halt =
    without_payload payload ++ (present error_present error ++ present halt_present halt)
arm_violations failed payload error halt =
    without_error error ++ (present payload_present payload ++ present halt_present halt)
arm_violations halted payload error halt =
    without_halt halt ++ (present payload_present payload ++ present error_present error)
arm_violations (unknown _) payload error halt = status_unknown ∷ []

-- `Validate`: the joined errors, none for a valid record.
unfoldable pub validate : Result → List Violation
unfolding arm_violations
validate r =
    arm_violations r.status r.payload r.error r.halt
    ++ (if ltb r.attempt 1 then attempt_not_positive ∷ [] else [])
