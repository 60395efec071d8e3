-- ===== src/Tests/Records.antt =====
-- failure/result.go, policy.go, journal.go and recover.go at concrete records.
use faber.Common.{
  lookup, ℕ, ◌+◌, ◌≤◌, ◌≡◌, ◌↔◌, refl, arith, none, some, false, [], ◌∷◌, ◌++◌, length, ◌==◌,
  if◌then◌else◌,
}
use faber.Failure.Result.{ok, failed, Result, validate}
use faber.Failure.Result.Union.{IsResult, validate_iff}
use faber.Failure.Policy.{StepSpec, World, CleanupRecord, HookInvocation, cleanup, run_step}
use faber.Failure.Policy.Attempts.{run_step_settles}
use faber.Failure.Journal.{
  Header, ResultRecord, Replay, empty_replay, result, key_of, ok as ok_load, lookup_key, header,
  Codec, load, repair, complete_part, ends_with_newline, last_index, raw_lines,
}
use faber.Failure.Recover.{interactive, reenter, lookup_prior, hit}
use faber.Failure.Recover.Entries.{IsEntry, Adopts, interactive_iff, lookup_prior_iff}
use faber.Failure.Journal.Latest.{latest}
use faber.Failure.Journal.Repair.{repair-complete_part}
use faber.Failure.Journal.Appended.{IsLine, with_result, load-append_result}
use faber.Failure.Journal.Replayed.{load_torn}

abbrev done : Result
done = record {
  status = ok;
  payload = some "{}";
  error = none;
  halt = none;
  timing = record { started = some 1; finished = some 2 };
  attempt = 1;
  attempts = [];
  agent_skipped = false;
  check = false;
}

abbrev crashed : Result
crashed = record done {
  status = failed;
  payload = none;
  error = some (record { reason = "agent"; detail = ""; handoff = "" });
}

validate_iff_example : (validate crashed ≡ []) ↔ IsResult crashed
validate_iff_example = validate_iff crashed

-- The state counts the cleanups; an attempt fails until two cleanups were done.
abbrev flaky : World ℕ
flaky = record {
  cause = λ s. none;
  now = λ s. 5;
  run = λ n s. (some (if s == 2 then done else crashed), "", s);
  hook = none;
  append = some (λ rec s. s + 1);
  render = λ vs. "invalid";
}

abbrev spec : StepSpec
spec = record { id = "a"; input_hash = "h"; retry = 3; on_failure = "clean.sh" }

retries_twice : (run_step flaky spec 0).0.attempt ≡ 3
unfolding run_step faber.Failure.Policy.attempt_once validate cleanup
retries_twice = refl

run_step_settles_example :
    (validate (run_step flaky spec 0).0 ≡ [])
    × ((run_step flaky spec 0).0.attempt ≡ length (run_step flaky spec 0).0.attempts + 1)
    × ((run_step flaky spec 0).0.attempt ≤ 1 + 3)
run_step_settles_example = run_step_settles flaky spec 0

-- Every line is a header.
abbrev heads : Codec
heads = record {
  encode = λ r. 104 ∷ [];
  decode = λ l. some (
      header (record {
        format = 1;
        run_id = "r";
        params = [];
        ir_hash = "";
        ir_hash_cap_free = "";
        ir_version = 1;
      }));
  blank = λ l. false;
}

repair-complete_part_example :
    repair (104 ∷ 10 ∷ 104 ∷ 105 ∷ []) ≡ complete_part (104 ∷ 10 ∷ 104 ∷ 105 ∷ [])
repair-complete_part_example = repair-complete_part (104 ∷ 10 ∷ 104 ∷ 105 ∷ [])

load_torn_example :
    (load heads 100 ((104 ∷ 10 ∷ []) ++ 104 ∷ 105 ∷ []) ≡ load heads 100 (104 ∷ 10 ∷ []))
    × (repair ((104 ∷ 10 ∷ []) ++ 104 ∷ 105 ∷ []) ≡ 104 ∷ 10 ∷ [])
unfolding ends_with_newline last_index
load_torn_example = load_torn heads 100 (104 ∷ 10 ∷ []) 104 (105 ∷ []) refl refl (omega arith)

abbrev crash_record : ResultRecord
crash_record = record {
  step_id = "a";
  input_hash = "h";
  result = record crashed {
    error = some (record { reason = "agent"; detail = ""; handoff = "steps/a" });
  };
}

abbrev replayed : Replay
unfolding empty_replay
replayed = record empty_replay {
  results =
      (
        record { step_id = "b"; input_hash = "g" },
        record { step_id = "b"; input_hash = "g"; result = done },
      )
      ∷ [];
  last_by_step = ("a", crash_record) ∷ [];
}

enters_crash : interactive replayed "a" ≡ reenter crash_record
unfolding interactive replayed lookup
enters_crash = refl

interactive_iff_example :
    (interactive replayed "a" ≡ reenter crash_record)
    ↔ ((lookup "a" replayed.last_by_step ≡ some crash_record) × IsEntry crash_record)
interactive_iff_example = interactive_iff replayed "a" crash_record

-- A header is the line 1, and every other record the line 2, which reads as the result of b.
abbrev done_record : ResultRecord
done_record = record { step_id = "b"; input_hash = "g"; result = done }

abbrev head : Header
head = record {
  format = 1;
  run_id = "r";
  params = [];
  ir_hash = "";
  ir_hash_cap_free = "";
  ir_version = 1;
}

abbrev two_lines : Codec
two_lines = record {
  encode = λ rec. elim rec [ header h ↦ 1 ∷ [] | _ ↦ 2 ∷ [] ];
  decode = λ l. elim l [
    | [] ↦ none
    | b ∷ bs ↦ if b == 1 then some (header head) else some (result done_record)
  ];
  blank = λ l. false;
}

done_record-IsLine : IsLine two_lines (result done_record)
unfolding last_index faber.Failure.Journal.strip_cr
done_record-IsLine = record { reads_back = refl; visible = refl; one_line = refl; no_return = refl }

load-append_result_example :
    (load two_lines 100 (1 ∷ 10 ∷ 2 ∷ 10 ∷ [])
      ≡ ok_load (with_result (record empty_replay { header = some head }) done_record))
    × (lookup_key
          (key_of done_record)
          (with_result (record empty_replay { header = some head }) done_record).results
        ≡ some done_record)
    × (lookup "b"
          (with_result (record empty_replay { header = some head }) done_record).last_by_step
        ≡ some done_record)
unfolding load faber.Failure.Journal.fold_record empty_replay faber.Failure.Journal.finish
    faber.Failure.Journal.append_result validate
load-append_result_example =
    load-append_result two_lines 100 (1 ∷ 10 ∷ []) (1 ∷ 10 ∷ 2 ∷ 10 ∷ []) done_record
      (record empty_replay { header = some head }) done_record-IsLine refl refl refl

loads_two :
    load two_lines 100 (1 ∷ 10 ∷ 2 ∷ 10 ∷ [])
    ≡ ok_load (with_result (record empty_replay { header = some head }) done_record)
unfolding load faber.Failure.Journal.fold_record empty_replay faber.Failure.Journal.finish validate
loads_two = refl

lookup_prior_iff_example :
    (lookup_prior
        (with_result (record empty_replay { header = some head }) done_record).results
        "b"
        (some "g")
      ≡ hit done)
    ↔ Adopts
        (latest "b" "g" two_lines
          (ends_with_newline (1 ∷ 10 ∷ 2 ∷ 10 ∷ []))
          (raw_lines [] (1 ∷ 10 ∷ 2 ∷ 10 ∷ []))
          none)
        done
lookup_prior_iff_example =
    lookup_prior_iff two_lines 100 (1 ∷ 10 ∷ 2 ∷ 10 ∷ [])
      (with_result (record empty_replay { header = some head }) done_record) loads_two "b" "g" done
