-- ===== src/Pipeline/Scheduler/Runs/Entries.antt =====
-- pipeline/scheduler.go: settleFailed, settleSubEntry and resolveSelector, taken apart into moves.
use faber.Common.{arith, ◌≡◌, refl, String, true, false, Option, none, some, List, [], ◌∷◌, Table}
use faber.Failure.Policy.{failed_result, error_of}
use faber.Pipeline.Values.{
  skipped_condition, skipped_dependency, Verdict, run, skip, unknown_node, unsettled_node,
  program_error, not_bool,
}
use faber.Pipeline.Scheduler.{Scheduler, Host, test_life}
use faber.Pipeline.Scheduler.Settle.{is_open, settle_failed, instant}
use faber.Pipeline.Scheduler.Gates.{
  Plan, Gates, Selector, Scope, scoped, unbindable, unsourced, set_scope, ok_result, settle_scope,
  settle_sub_entry, adopt_found, adopt_first, exhaust, resolve_selector,
}
use faber.Pipeline.Scheduler.Runs.{Run, quiet, chain}
use faber.Pipeline.Scheduler.Runs.Settled.{skipping-Nests, settle_result-Run}

module _ {A : Type 0} (host : Host A) (gates : Gates A) where
  pub settle_failed-Run :
      (id reason detail : String) (s : Scheduler A)
      → is_open id s ≡ true
      → Run s (settle_failed host id reason detail s)
  unfolding settle_failed
  settle_failed-Run id reason detail s o =
      settle_result-Run host id (failed_result (error_of reason detail) (instant host) 1 []) false
        [] s o

  set_scope-Run :
      (id : String) (env : Table A) (s : Scheduler A) → Run s (set_scope host gates id env s)
  unfolding set_scope
  set_scope-Run id env s = quiet (record {
    same_nodes = refl;
    same_succ = refl;
    same_indeg = refl;
    same_members = refl;
    same_done = refl;
    same_parked = λ h. refl;
    still_out = λ h. omega arith;
  })

  set_scope-open :
      (id : String) (env : Table A) (s : Scheduler A)
      → is_open id s ≡ true
      → is_open id (set_scope host gates id env s) ≡ true
  unfolding set_scope is_open test_life
  set_scope-open id env s o = o

  settle_scope-Run :
      (id : String) (scope : Scope A) (s : Scheduler A)
      → is_open id s ≡ true
      → Run s (settle_scope host gates id scope s)
  unfolding settle_scope
  settle_scope-Run id (scoped env) s o = chain (set_scope-Run id env s) (
      settle_result-Run host id (ok_result host gates (some "{}")) false [] _
        (set_scope-open id env s o))
  settle_scope-Run id (unbindable env) s o =
      chain (set_scope-Run id env s)
        (settle_failed-Run id "expansion" "" _ (set_scope-open id env s o))
  settle_scope-Run id (unsourced from env) s o =
      chain (set_scope-Run id env s)
        (skipping-Nests host s id skipped_dependency from _ (set_scope-open id env s o))

  pub settle_sub_entry-Run :
      (id : String) (plan : Plan A) (env : Option (Table A)) (s : Scheduler A)
      → is_open id s ≡ true
      → Run s (settle_sub_entry host gates id plan env s)
  unfolding settle_sub_entry
  settle_sub_entry-Run id plan none s o = settle_failed-Run id "expansion" "" s o
  settle_sub_entry-Run id plan (some env) s o = settle_scope-Run id _ s o

  adopt_found-Run :
      (id : String) (found : Option (Option String)) (s : Scheduler A)
      → is_open id s ≡ true
      → Run s (adopt_found host gates id found s)
  unfolding adopt_found
  adopt_found-Run id none s o = skipping-Nests host s id skipped_condition "" s o
  adopt_found-Run id (some raw) s o =
      settle_result-Run host id (ok_result host gates raw) false [] s o

  adopt_first-Run :
      (id : String) (cs : List String) (s : Scheduler A)
      → is_open id s ≡ true
      → Run s (adopt_first host gates id cs s)
  unfolding adopt_first
  adopt_first-Run id cs s o = adopt_found-Run id _ s o

  exhaust-Run :
      (id : String) (cs : List String) (verdict : Option Verdict) (s : Scheduler A)
      → is_open id s ≡ true
      → Run s (exhaust host gates id cs verdict s)
  unfolding exhaust
  exhaust-Run id cs none s o = adopt_first-Run id cs s o
  exhaust-Run id cs (some skip) s o = adopt_first-Run id cs s o
  exhaust-Run id cs (some run) s o = settle_failed-Run id "loop-exhausted" "" s o
  exhaust-Run id cs (some unknown_node) s o = settle_failed-Run id "condition" "" s o
  exhaust-Run id cs (some unsettled_node) s o = settle_failed-Run id "condition" "" s o
  exhaust-Run id cs (some program_error) s o = settle_failed-Run id "condition" "" s o
  exhaust-Run id cs (some not_bool) s o = settle_failed-Run id "condition" "" s o

  pub resolve_selector-Run :
      (id : String) (plan : Plan A) (sel : Option Selector) (s : Scheduler A)
      → is_open id s ≡ true
      → Run s (resolve_selector host gates id plan sel s)
  unfolding resolve_selector
  resolve_selector-Run id plan none s o = settle_failed-Run id "expansion" "" s o
  resolve_selector-Run id plan (some sel) s o = go sel.candidates
    where
      go :
          (cs : List String)
          → Run s (resolve_selector host gates id plan (some (record sel { candidates = cs })) s)
      go [] = settle_failed-Run id "expansion" "" s o
      go (c ∷ cs) = exhaust-Run id (c ∷ cs) _ s o
