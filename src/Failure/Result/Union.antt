-- ===== src/Failure/Result/Union.antt =====
-- failure/result.go: Validate against the union of records.
use faber.Common.{
  ◌≤◌, String, ◌≡◌, refl, ◌≢◌, ◌↔◌, Option, none, some, List, [], ◌∷◌, ◌++◌, arith, eq_iff,
}
use faber.Failure.Result.{
  Status, ok, failed, halted, ErrorRecord, HaltRecord, Result, validate, arm_violations,
}

-- Exactly one of payload, error and halt is there, the one that the status names, and it is filled.
abbrev pub IsArm : Status → Option String → Option ErrorRecord → Option HaltRecord → Type 0
IsArm ok (some p) none none = p ≢ ""
IsArm failed none (some e) none = e.reason ≢ ""
IsArm halted none none (some h) = h.reason ≢ ""
IsArm _ _ _ _ = ⊥

pub record IsResult (r : Result) : Type 0 where
  pub arm : IsArm r.status r.payload r.error r.halt
  pub attempt_positive : 1 ≤ r.attempt

IsArm-sound :
    (s : Status) (p : Option String) (e : Option ErrorRecord) (h : Option HaltRecord)
    → arm_violations s p e h ≡ []
    → IsArm s p e h
unfolding arm_violations
IsArm-sound ok (some p) none none v = ground (arith, eq_iff p "")
IsArm-sound failed none (some e) none v = ground (arith, eq_iff e.reason "")
IsArm-sound halted none none (some h) v = ground (arith, eq_iff h.reason "")
IsArm-sound _ _ _ _ v = ground arith

arm_complete :
    (s : Status) (p : Option String) (e : Option ErrorRecord) (h : Option HaltRecord)
    → IsArm s p e h
    → arm_violations s p e h ≡ []
unfolding arm_violations
arm_complete ok (some p) none none v = ground (arith, eq_iff p "")
arm_complete failed none (some e) none v = ground (arith, eq_iff e.reason "")
arm_complete halted none none (some h) v = ground (arith, eq_iff h.reason "")
arm_complete _ _ _ _ v = ground arith

append-nil_parts {ℓ} : {A : Type ℓ} (xs ys : List A) → xs ++ ys ≡ [] → (xs ≡ []) × (ys ≡ [])
append-nil_parts [] ys e = (refl, e)
append-nil_parts (x ∷ xs) ys e = cc

-- Validate accepts a record exactly when it is one of the union: one arm, the one that the status
-- names, filled, and an attempt that counts from one.
pub validate_iff : (r : Result) → (validate r ≡ []) ↔ IsResult r
unfolding validate
validate_iff r = (
  λ e.
      let (arms, count) = append-nil_parts (arm_violations r.status r.payload r.error r.halt) _ e in
      record { arm = IsArm-sound _ _ _ _ arms; attempt_positive = ground arith },
  λ v.
      rw (arm_complete r.status r.payload r.error r.halt v.arm)
        (ground (arith, v.attempt_positive)),
)
