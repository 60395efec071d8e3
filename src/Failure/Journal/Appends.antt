-- ===== src/Failure/Journal/Appends.antt =====
-- failure/journal.go: the appends of the other kinds of record.
use faber.Common.{ℕ, Option, List}
use faber.Failure.Policy.{CleanupRecord}
use faber.Failure.Journal.{
  Header, header, cost, cleanup, defer, start, run_end, CostRecord, DeferRecord, StartRecord,
  RunEndRecord, Codec, append_record, journal_format,
}

module _ (codec : Codec) (limit : ℕ) where
  -- `AppendCost`
  unfoldable pub append_cost : CostRecord → List ℕ → Option (List ℕ)
  unfolding append_record
  append_cost rec bytes = append_record codec limit (cost rec) bytes

  -- `AppendCleanup`
  unfoldable pub append_cleanup : CleanupRecord → List ℕ → Option (List ℕ)
  unfolding append_record
  append_cleanup rec bytes = append_record codec limit (cleanup rec) bytes

  -- `AppendDefer`
  unfoldable pub append_defer : DeferRecord → List ℕ → Option (List ℕ)
  unfolding append_record
  append_defer rec bytes = append_record codec limit (defer rec) bytes

  -- `AppendStart`
  unfoldable pub append_start : StartRecord → List ℕ → Option (List ℕ)
  unfolding append_record
  append_start rec bytes = append_record codec limit (start rec) bytes

  -- `AppendRunEnd`
  unfoldable pub append_run_end : RunEndRecord → List ℕ → Option (List ℕ)
  unfolding append_record
  append_run_end rec bytes = append_record codec limit (run_end rec) bytes

  -- `appendHeader`: the format is this version's; nil params are the empty table already.
  unfoldable pub append_header : Header → List ℕ → Option (List ℕ)
  unfolding append_record
  append_header h bytes =
      append_record codec limit (header (record h { format = journal_format })) bytes
