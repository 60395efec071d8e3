-- ===== src/Failure/Journal.antt =====
-- failure/journal.go: the append-only journal of a run and its replay. A file is its bytes; reading,
-- writing and syncing succeed, except that a crash may cut the last line. JSON and the trimming of
-- spaces are the parameter `Codec`. Run names, paths and hashes in the header that replay only
-- hands on are left out.
pub mod Repair
pub mod Replayed
pub mod Appends
pub mod Appended
pub mod Latest
use faber.Common.{
  ℕ, zero, suc, ◌+◌, ◌-◌, take, drop, String, ◌≡◌, ◌≢◌, Option, none, some, Bool, true, false, not,
  ◌&&◌, List, [], ◌∷◌, ◌++◌, ltb, leb, ◌==◌, str_eq, if◌then◌else◌, length, Table, put, In,
}
use faber.Failure.Result.{Result, Violation, validate}
use faber.Failure.Policy.{CleanupRecord}

abbrev pub newline : ℕ
newline = 10

abbrev pub journal_format : ℕ
journal_format = 1

pub record Header : Type 0 where
  pub format : ℕ
  pub run_id : String
  pub params : Table String
  pub ir_hash : String
  pub ir_hash_cap_free : String
  pub ir_version : ℕ

pub record ResultRecord : Type 0 where
  pub step_id : String
  pub input_hash : String
  pub result : Result

pub record CostRecord : Type 0 where
  pub step_id : String
  pub input_hash : String
  pub cost : String

pub record DeferRecord : Type 0 where
  pub step_id : String
  pub until : Option ℕ
  pub detail : String

pub record StartRecord : Type 0 where
  pub step_id : String
  pub attempt : ℕ
  pub started : ℕ

pub record RunEndRecord : Type 0 where
  pub status : String
  pub failed : ℕ
  pub halted : ℕ
  pub detail : String

-- One line of the journal; `other` is a kind that replay does not know.
pub data Record : Type 0 where
  header : Header → Record
  result : ResultRecord → Record
  cost : CostRecord → Record
  cleanup : CleanupRecord → Record
  defer : DeferRecord → Record
  start : StartRecord → Record
  run_end : RunEndRecord → Record
  other : String → Record

-- `encode` is a record's line without its newline; `decode` fails on malformed JSON; `blank` is a
-- line of spaces.
pub record Codec : Type 0 where
  pub encode : Record → List ℕ
  pub decode : List ℕ → Option Record
  pub blank : List ℕ → Bool

pub record Key : Type 0 where
  pub step_id : String
  pub input_hash : String

unfoldable pub same_key : Key → Key → Bool
same_key a b = str_eq a.step_id b.step_id && str_eq a.input_hash b.input_hash

unfoldable pub lookup_key : Key → List (Key × ResultRecord) → Option ResultRecord
unfolding same_key
lookup_key k [] = none
lookup_key k ((j, r) ∷ m) = let rest = lookup_key k m in if same_key j k then some r else rest

unfoldable pub delete_key : Key → List (Key × ResultRecord) → List (Key × ResultRecord)
unfolding same_key
delete_key k [] = []
delete_key k ((j, r) ∷ m) =
    let rest = delete_key k m in if same_key j k then rest else (j, r) ∷ rest

-- `rp.Results[k] = rec`
unfoldable pub put_key : Key → ResultRecord → List (Key × ResultRecord) → List (Key × ResultRecord)
unfolding delete_key
put_key k r m = (k, r) ∷ delete_key k m

-- `header` is `none` until one was read.
pub record Replay : Type 0 where
  pub header : Option Header
  pub results : List (Key × ResultRecord)
  pub last_by_step : Table ResultRecord
  pub costs : List CostRecord
  pub cleanups : List CleanupRecord
  pub defers : List DeferRecord
  pub starts : List StartRecord
  pub end : Option RunEndRecord

unfoldable pub empty_replay : Replay
empty_replay = record {
  header = none;
  results = [];
  last_by_step = [];
  costs = [];
  cleanups = [];
  defers = [];
  starts = [];
  end = none;
}

pub data LoadError : Type 0 where
  too_long no_lines malformed not_header duplicate_header missing_header : LoadError
  wrong_format : ℕ → LoadError
  invalid_result : List Violation → LoadError

pub data Loaded : Type 0 where
  ok : Replay → Loaded
  err : LoadError → Loaded

abbrev pub key_of : ResultRecord → Key
key_of r = record { step_id = r.step_id; input_hash = r.input_hash }

fold_header : Replay → Header → Option Header → Loaded
fold_header rp h (some _) = err duplicate_header
fold_header rp h none =
    if h.format == journal_format
    then ok (record rp { header = some h })
    else err (wrong_format h.format)

fold_result : Replay → ResultRecord → List Violation → Loaded
fold_result rp r (v ∷ vs) = err (invalid_result (v ∷ vs))
fold_result rp r [] = ok (record rp {
  results = put_key (key_of r) r rp.results;
  last_by_step = put r.step_id r rp.last_by_step;
})

-- The `switch` of `Load`.
unfoldable pub fold_record : Replay → Record → Loaded
unfolding fold_header fold_result
fold_record rp (header h) = fold_header rp h rp.header
fold_record rp (result r) = fold_result rp r (validate r.result)
fold_record rp (cost c) = ok (record rp { costs = rp.costs ++ c ∷ [] })
fold_record rp (cleanup c) = ok (record rp { cleanups = rp.cleanups ++ c ∷ [] })
fold_record rp (defer d) = ok (record rp { defers = rp.defers ++ d ∷ [] })
fold_record rp (start s) = ok (record rp { starts = rp.starts ++ s ∷ [] })
fold_record rp (run_end e) = ok (record rp { end = some e })
fold_record rp (other k) = ok rp

abbrev is_header : Record → Bool
is_header (header h) = true
is_header _ = false

-- The header check behind the loop.
unfoldable pub finish : Replay → Loaded
finish rp = elim rp.header [ none ↦ err missing_header | some h ↦ ok rp ]

infixl 5 ◌>>=◌
abbrev pub ◌>>=◌ : Loaded → (Replay → Loaded) → Loaded
ok rp >>= f = f rp
err e >>= f = err e

-- `bufio.Scanner` drops a carriage return before the newline.
unfoldable pub strip_cr : List ℕ → List ℕ
strip_cr [] = []
strip_cr (b ∷ []) = if b == 13 then [] else b ∷ []
strip_cr (b ∷ c ∷ bs) = b ∷ strip_cr (c ∷ bs)

-- The lines of a file, each with its carriage return; a last one that is not ended counts.
unfoldable pub raw_lines : List ℕ → List ℕ → List (List ℕ)
raw_lines line [] = elim line [ [] ↦ [] | b ∷ bs ↦ (b ∷ bs) ∷ [] ]
raw_lines line (b ∷ bs) =
    let ended = line ∷ raw_lines [] bs in
    let longer = raw_lines (line ++ b ∷ []) bs in if b == newline then ended else longer

unfoldable pub ends_with_newline : List ℕ → Bool
ends_with_newline [] = false
ends_with_newline (b ∷ []) = b == newline
ends_with_newline (b ∷ c ∷ bs) = ends_with_newline (c ∷ bs)

pub any_long : ℕ → List (List ℕ) → Bool
any_long limit [] = false
any_long limit (l ∷ ls) =
    let rest = any_long limit ls in if leb limit (length l) then true else rest

module _ (codec : Codec) (limit : ℕ) where
  -- One line that is not torn.
  unfoldable pub fold_line : Bool → Replay → List ℕ → Loaded
  unfolding strip_cr
  fold_line first rp line =
      let l = strip_cr line in
      if codec.blank l then ok rp else elim (codec.decode l) [
        | none ↦ err malformed
        | some rec ↦ if first && not (is_header rec) then err not_header else fold_record rp rec
      ]

  -- The loop of `Load` over the lines: a last line that is not ended is torn, and dropped.
  unfoldable pub load_lines : Bool → Bool → Replay → List (List ℕ) → Loaded
  unfolding fold_line
  load_lines ended first rp [] = finish rp
  load_lines ended first rp (line ∷ []) =
      if ended then fold_line first rp line >>= finish else finish rp
  load_lines ended first rp (line ∷ next ∷ rest) =
      fold_line first rp line >>= λ rp'. load_lines ended false rp' (next ∷ rest)

  load_all : Bool → List (List ℕ) → Loaded
  unfolding load_lines
  load_all ended [] = err no_lines
  load_all ended (l ∷ ls) = load_lines ended true empty_replay (l ∷ ls)

  -- `Load`
  unfoldable pub load : List ℕ → Loaded
  unfolding load_all any_long raw_lines ends_with_newline
  load bytes =
      let lines = raw_lines [] bytes in
      if any_long limit lines then err too_long else load_all (ends_with_newline bytes) lines

  -- `append`: the file after it, or none where the record is refused.
  unfoldable pub append_record : Record → List ℕ → Option (List ℕ)
  append_record rec bytes =
      let line = codec.encode rec ++ newline ∷ [] in
      if ltb limit (length line) then none else some (bytes ++ line)

  -- `AppendResult`
  unfoldable pub append_result : ResultRecord → List ℕ → Option (List ℕ)
  unfolding append_record
  append_result r bytes = elim (validate r.result) [
    | [] ↦ append_record (result r) bytes
    | v ∷ vs ↦ none
  ]

-- The prefix up to and with the last newline.
unfoldable pub complete_part : List ℕ → List ℕ
complete_part [] = []
complete_part (b ∷ bs) = elim (complete_part bs) [
  | [] ↦ if b == newline then b ∷ [] else []
  | c ∷ cs ↦ b ∷ c ∷ cs
]

-- `bytes.LastIndexByte`, for a newline.
unfoldable pub last_index : List ℕ → Option ℕ
last_index [] = none
last_index (b ∷ bs) = elim (last_index bs) [
  | some i ↦ some (suc i)
  | none ↦ if b == newline then some 0 else none
]

abbrev pub chunk_size : ℕ
chunk_size = 4096

-- The backward scan of `repairTornTail`, chunk by chunk: how many bytes to keep of the first `off`.
unfoldable pub scan_back : ℕ → List ℕ → ℕ → ℕ
unfolding last_index
scan_back zero bytes off = 0
scan_back (suc fuel) bytes off =
    let n = if ltb off chunk_size then off else chunk_size in
    let earlier = scan_back fuel bytes (off - n) in
    if off == 0 then 0 else elim (last_index (take n (drop (off - n) bytes))) [
      | some i ↦ off - n + i + 1
      | none ↦ earlier
    ]

-- `repairTornTail`; every round takes a byte at least, so the length is fuel enough.
unfoldable pub repair : List ℕ → List ℕ
unfolding scan_back ends_with_newline
repair bytes =
    if ends_with_newline bytes
    then bytes
    else take (scan_back (length bytes) bytes (length bytes)) bytes
