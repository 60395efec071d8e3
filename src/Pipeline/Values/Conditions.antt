-- ===== src/Pipeline/Values/Conditions.antt =====
-- pipeline/cond.go: which conditions are evaluated at all, and on what.
use faber.Common.{
  String, ◌≡◌, refl, ◌∙◌, Bool, true, false, Option, some, List, [], ◌∷◌, Table, lookup, put, ◌++◌,
}
use faber.Pipeline.Values.{
  Source, is_skipped, skip, active, decided, activate, activation, answer, eval,
}

module _ {A : Type 0} where
  -- A dependency that settled without being skipped.
  pub record IsReady (nodes : Table (Source A)) (id : String) (src : Source A) : Type 0 where
    pub found : lookup id nodes ≡ some src
    pub terminal : src.terminal ≡ true
    pub ran : is_skipped src.status ≡ false

  pub record IsSkip (nodes : Table (Source A)) (id : String) (src : Source A) : Type 0 where
    pub found : lookup id nodes ≡ some src
    pub terminal : src.terminal ≡ true
    pub skipped : is_skipped src.status ≡ true

  -- The activation of dependencies that are ready, in order.
  pub data Ready (nodes : Table (Source A))
      : List String → Table (Table A) → Table (Table A) → Type 0 where
    done : {steps : Table (Table A)} → Ready nodes [] steps steps
    more :
        {id : String} {ids : List String} {src : Source A} {steps out : Table (Table A)}
        → IsReady nodes id src
        → Ready nodes ids (put id src.payload steps) out
        → Ready nodes (id ∷ ids) steps out

  activate_ready :
      (nodes : Table (Source A)) (id : String) (src : Source A) (steps : Table (Table A))
      → IsReady nodes id src
      → activate id (lookup id nodes) steps ≡ active (put id src.payload steps)
  unfolding activate
  activate_ready nodes id src steps r = rw (r.found, activate) (rw (r.terminal, r.ran) refl)

  activate_skipped :
      (nodes : Table (Source A)) (id : String) (src : Source A) (steps : Table (Table A))
      → IsSkip nodes id src
      → activate id (lookup id nodes) steps ≡ decided skip
  unfolding activate
  activate_skipped nodes id src steps r = rw (r.found, activate) (rw (r.terminal, r.skipped) refl)

  ready-activation :
      (nodes : Table (Source A)) (ids after : List String) (steps : Table (Table A))
      {out : Table (Table A)}
      → Ready nodes ids steps out
      → activation (ids ++ after) nodes steps ≡ activation after nodes out
  unfolding activation
  ready-activation nodes [] after steps done = refl
  ready-activation nodes (id ∷ ids) after steps (more {src = src} r rest) =
      rw (activate_ready nodes id src steps r, activation)
        (ready-activation nodes ids after (put id src.payload steps) rest)

  ready-all :
      (nodes : Table (Source A)) (ids : List String) (steps : Table (Table A))
      {out : Table (Table A)}
      → Ready nodes ids steps out
      → activation ids nodes steps ≡ active out
  unfolding activation
  ready-all nodes [] steps done = refl
  ready-all nodes (id ∷ ids) steps (more {src = src} r rest) =
      rw (activate_ready nodes id src steps r, activation)
        (ready-all nodes ids (put id src.payload steps) rest)

  skipped-activation :
      (nodes : Table (Source A)) (id : String) (src : Source A) (after : List String)
      (steps : Table (Table A))
      → IsSkip nodes id src
      → activation (id ∷ after) nodes steps ≡ decided skip
  unfolding activation
  skipped-activation nodes id src after steps k =
      rw (activate_skipped nodes id src steps k, activation) refl

  -- A condition with a skipped dependency behind settled ones skips its step, whatever the program
  -- and the later dependencies are; with all dependencies settled and none skipped, it is what the
  -- program answers on exactly their payloads.
  pub eval_decides :
      (program : Table (Table A) → Table A → Option (Option Bool)) (before after : List String)
      (nodes : Table (Source A)) (params : Table A) {out : Table (Table A)}
      → Ready nodes before [] out
      → ((id : String) (src : Source A)
          → IsSkip nodes id src
          → eval program (before ++ id ∷ after) nodes params ≡ skip)
        × (eval program before nodes params ≡ answer (program out params))
  unfolding eval
  eval_decides program before after nodes params ready = (
    λ id src k.
        rw
          (
            ready-activation nodes before (id ∷ after) [] ready
                ∙ skipped-activation nodes id src after _ k,
            eval,
          )
          refl,
    rw (ready-all nodes before [] ready, eval) refl,
  )
