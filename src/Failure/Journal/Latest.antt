-- ===== src/Failure/Journal/Latest.antt =====
-- failure/journal.go: the result that a replay keeps of a step and an input hash.
use faber.Common.{
  ℕ, String, ◌≡◌, refl, sym, ap, subst, ◌∙◌, Bool, true, false, not, ◌&&◌, Option, none, some, List,
  [], ◌∷◌, arith, str_eq, eq_iff, if◌then◌else◌, Bool-cases, inl, inr, ◌==◌,
}
use faber.Failure.Result.{Violation, validate}
use faber.Failure.Journal.{
  Header, Key, ResultRecord, Record, header, result, cost, cleanup, defer, start, run_end, other,
  Replay, empty_replay, lookup_key, put_key, delete_key, same_key, key_of, Codec, Loaded, ok, err,
  fold_header, fold_result, fold_record, fold_line, load_lines, load_all, load, strip_cr, raw_lines,
  ends_with_newline, finish, no_lines, malformed, not_header, is_header, too_long, any_long,
  duplicate_header, wrong_format, invalid_result, journal_format,
}
use faber.Failure.Journal.Appended.{finish-ok, bind-ok, err-≢-ok}

results_of : List (Key × ResultRecord) → Loaded → List (Key × ResultRecord)
results_of d (ok rp) = rp.results
results_of d (err e) = d

ok-results : (rp mid : Replay) → ok rp ≡ ok mid → rp.results ≡ mid.results
unfolding results_of
ok-results rp mid e = ap (results_of rp.results) e

fold_header-results :
    (rp mid : Replay) (h : Header) (old : Option Header)
    → fold_header rp h old ≡ ok mid
    → rp.results ≡ mid.results
unfolding fold_header
fold_header-results rp mid h (some g) e = err-≢-ok duplicate_header mid e
fold_header-results rp mid h none e = elim (Bool-cases (h.format == journal_format)) [
  | inl t ↦
      ok-results (record rp { header = some h }) mid
        (subst
          (λ b.
            (if b then ok (record rp { header = some h }) else err (wrong_format h.format))
            ≡ ok mid)
          t e)
  | inr t ↦ err-≢-ok (wrong_format h.format) mid (
      subst
        (λ b.
          (if b then ok (record rp { header = some h }) else err (wrong_format h.format)) ≡ ok mid)
        t e)
]

lookup_key-delete_other :
    (j k : Key) (m : List (Key × ResultRecord))
    → same_key j k ≡ false
    → lookup_key k (delete_key j m) ≡ lookup_key k m
unfolding lookup_key delete_key same_key
lookup_key-delete_other j k [] h = refl
lookup_key-delete_other j k ((i, r) ∷ m) h = ground (
  arith,
  lookup_key-delete_other j k m,
  eq_iff i.step_id j.step_id,
  eq_iff i.input_hash j.input_hash,
)

lookup_key-put_key :
    (j k : Key) (r : ResultRecord) (m : List (Key × ResultRecord))
    → lookup_key k (put_key j r m) ≡ (
        if str_eq j.step_id k.step_id && str_eq j.input_hash k.input_hash
        then some r
        else lookup_key k m)
unfolding same_key lookup_key put_key
lookup_key-put_key j k r m = ground (arith, lookup_key-delete_other j k m)

module _ (step hash : String) where
  -- The record that is found for the step and the hash, after one more record was read.
  newest : Option Record → Option ResultRecord → Option ResultRecord
  newest (some (result r)) found =
      if str_eq r.step_id step && str_eq r.input_hash hash then some r else found
  newest _ found = found

  fold_result-newest :
      (rp mid : Replay) (r : ResultRecord) (vs : List Violation)
      → fold_result rp r vs ≡ ok mid
      → newest
          (some (result r))
          (lookup_key (record { step_id = step; input_hash = hash }) rp.results)
        ≡ lookup_key (record { step_id = step; input_hash = hash }) mid.results
  unfolding fold_result newest
  fold_result-newest rp mid r (v ∷ vs) e = err-≢-ok (invalid_result (v ∷ vs)) mid e
  fold_result-newest rp mid r [] e =
      sym
        (lookup_key-put_key (key_of r) (record { step_id = step; input_hash = hash }) r rp.results)
      ∙ ap (lookup_key (record { step_id = step; input_hash = hash })) (ok-results _ mid e)

  fold_record-newest :
      (rp mid : Replay) (rec : Record)
      → fold_record rp rec ≡ ok mid
      → newest (some rec) (lookup_key (record { step_id = step; input_hash = hash }) rp.results)
        ≡ lookup_key (record { step_id = step; input_hash = hash }) mid.results
  unfolding fold_record newest
  fold_record-newest rp mid (header h) e =
      ap (lookup_key (record { step_id = step; input_hash = hash }))
        (fold_header-results rp mid h rp.header e)
  fold_record-newest rp mid (result r) e = fold_result-newest rp mid r (validate r.result) e
  fold_record-newest rp mid (cost c) e =
      ap (lookup_key (record { step_id = step; input_hash = hash })) (ok-results _ mid e)
  fold_record-newest rp mid (cleanup c) e =
      ap (lookup_key (record { step_id = step; input_hash = hash })) (ok-results _ mid e)
  fold_record-newest rp mid (defer c) e =
      ap (lookup_key (record { step_id = step; input_hash = hash })) (ok-results _ mid e)
  fold_record-newest rp mid (start c) e =
      ap (lookup_key (record { step_id = step; input_hash = hash })) (ok-results _ mid e)
  fold_record-newest rp mid (run_end c) e =
      ap (lookup_key (record { step_id = step; input_hash = hash })) (ok-results _ mid e)
  fold_record-newest rp mid (other c) e =
      ap (lookup_key (record { step_id = step; input_hash = hash })) (ok-results _ mid e)

  guarded :
      (b : Bool) (rp mid : Replay) (rec : Record)
      → (if b then err not_header else fold_record rp rec) ≡ ok mid
      → newest (some rec) (lookup_key (record { step_id = step; input_hash = hash }) rp.results)
        ≡ lookup_key (record { step_id = step; input_hash = hash }) mid.results
  guarded true rp mid rec e = err-≢-ok not_header mid e
  guarded false rp mid rec e = fold_record-newest rp mid rec e

  by_line :
      (first : Bool) (rp mid : Replay) (blank : Bool) (decoded : Option Record)
      → (if blank then ok rp else elim decoded [
        | none ↦ err malformed
        | some rec ↦ if first && not (is_header rec) then err not_header else fold_record rp rec
      ])
        ≡ ok mid
      → newest
          (if blank then none else decoded)
          (lookup_key (record { step_id = step; input_hash = hash }) rp.results)
        ≡ lookup_key (record { step_id = step; input_hash = hash }) mid.results
  unfolding newest
  by_line first rp mid true decoded e =
      ap (lookup_key (record { step_id = step; input_hash = hash })) (ok-results rp mid e)
  by_line first rp mid false none e = err-≢-ok malformed mid e
  by_line first rp mid false (some rec) e = guarded (first && not (is_header rec)) rp mid rec e

  module _ (codec : Codec) where
    -- The record of a line, if it is not blank.
    read_line : List ℕ → Option Record
    read_line line = let l = strip_cr line in if codec.blank l then none else codec.decode l

    -- The last record of the step and the hash among the lines; a last line that is not ended does
    -- not count.
    pub latest : Bool → List (List ℕ) → Option ResultRecord → Option ResultRecord
    unfolding newest read_line
    latest ended [] found = found
    latest ended (l ∷ []) found = if ended then newest (read_line l) found else found
    latest ended (l ∷ m ∷ ls) found = latest ended (m ∷ ls) (newest (read_line l) found)

    fold_line-newest :
        (limit : ℕ) (first : Bool) (rp mid : Replay) (line : List ℕ)
        → fold_line codec limit first rp line ≡ ok mid
        → newest
            (read_line line)
            (lookup_key (record { step_id = step; input_hash = hash }) rp.results)
          ≡ lookup_key (record { step_id = step; input_hash = hash }) mid.results
    unfolding fold_line read_line
    fold_line-newest limit first rp mid line e =
        by_line first rp mid (codec.blank (strip_cr line)) (codec.decode (strip_cr line)) e

    load_lines-latest :
        (limit : ℕ) (ended first : Bool) (rp mid : Replay) (ls : List (List ℕ))
        → load_lines codec limit ended first rp ls ≡ ok mid
        → latest ended ls (lookup_key (record { step_id = step; input_hash = hash }) rp.results)
          ≡ lookup_key (record { step_id = step; input_hash = hash }) mid.results
    unfolding load_lines latest
    load_lines-latest limit ended first rp mid [] e =
        ap (λ (m : Replay). lookup_key (record { step_id = step; input_hash = hash }) m.results)
          (finish-ok rp mid e).0
    load_lines-latest limit true first rp mid (l ∷ []) e =
        let (next, a, b) = bind-ok (fold_line codec limit first rp l) finish mid e in
        fold_line-newest limit first rp next l a
        ∙ ap (λ (m : Replay). lookup_key (record { step_id = step; input_hash = hash }) m.results)
            (finish-ok next mid b).0
    load_lines-latest limit false first rp mid (l ∷ []) e =
        ap (λ (m : Replay). lookup_key (record { step_id = step; input_hash = hash }) m.results)
          (finish-ok rp mid e).0
    load_lines-latest limit ended first rp mid (l ∷ n ∷ ls) e =
        let (next, a, b) =
          bind-ok (fold_line codec limit first rp l)
            (λ rp'. load_lines codec limit ended false rp' (n ∷ ls)) mid e in
        ap (latest ended (n ∷ ls)) (fold_line-newest limit first rp next l a)
        ∙ load_lines-latest limit ended false next mid (n ∷ ls) b

    load_all-latest :
        (limit : ℕ) (ended : Bool) (mid : Replay) (ls : List (List ℕ))
        → load_all codec limit ended ls ≡ ok mid
        → latest ended ls none
          ≡ lookup_key (record { step_id = step; input_hash = hash }) mid.results
    unfolding load_all lookup_key empty_replay
    load_all-latest limit ended mid [] e = err-≢-ok no_lines mid e
    load_all-latest limit ended mid (l ∷ ls) e =
        load_lines-latest limit ended true empty_replay mid (l ∷ ls) e

    -- After `load`, the entry of a step and a hash is their last record in the file.
    pub load-latest :
        (limit : ℕ) (bytes : List ℕ) (rp : Replay)
        → load codec limit bytes ≡ ok rp
        → latest (ends_with_newline bytes) (raw_lines [] bytes) none
          ≡ lookup_key (record { step_id = step; input_hash = hash }) rp.results
    unfolding load
    load-latest limit bytes rp e = elim (Bool-cases (any_long limit (raw_lines [] bytes))) [
      | inl t ↦ err-≢-ok too_long rp (
          subst
            (λ b.
              (if b
                then err too_long
                else load_all codec limit (ends_with_newline bytes) (raw_lines [] bytes))
              ≡ ok rp)
            t e)
      | inr t ↦ load_all-latest limit (ends_with_newline bytes) rp (raw_lines [] bytes) (
          subst
            (λ b.
              (if b
                then err too_long
                else load_all codec limit (ends_with_newline bytes) (raw_lines [] bytes))
              ≡ ok rp)
            t e)
    ]
