-- ===== src/Failure/Journal/Appended.antt =====
-- failure/journal.go: a replay after an append.
use faber.Common.{
  ℕ, ◌<◌, ◌≡◌, refl, sym, ap, ◌∙◌, subst, Option, none, some, Bool, true, false, List, [], ◌∷◌,
  ◌++◌, arith, ltb, ltb→le, str_eq_self, if◌then◌else◌, length, length-append, Bool-cases, inl, inr,
  put, lookup, lookup-put_self,
}
use mathlib.Core.Option.{some-injective, none-ne-some}
use mathlib.Core.List.{append_assoc}
use faber.Failure.Result.{Violation, validate}
use faber.Failure.Journal.{
  newline, Codec, Key, Record, result, ResultRecord, Replay, Header, empty_replay, Loaded,
  LoadError, ok, err, missing_header, no_lines, too_long, ◌>>=◌, raw_lines, ends_with_newline,
  any_long, strip_cr, fold_line, fold_record, fold_result, finish, load_lines, load_all, load,
  last_index, append_record, append_result, put_key, lookup_key, key_of, same_key,
}
use faber.Failure.Journal.Replayed.{raw_lines-append, raw_lines_line, any_long-append, ends-append}

-- JSON of a record: it reads back, is not blank, and carries no newline nor a final return.
pub record IsLine (codec : Codec) (rec : Record) : Type 0 where
  pub reads_back : codec.decode (codec.encode rec) ≡ some rec
  pub visible : codec.blank (codec.encode rec) ≡ false
  pub one_line : last_index (codec.encode rec) ≡ none
  pub no_return : strip_cr (codec.encode rec) ≡ codec.encode rec

-- The replay after one more result.
abbrev pub with_result : Replay → ResultRecord → Replay
with_result rp r = record rp {
  results = put_key (key_of r) r rp.results;
  last_by_step = put r.step_id r rp.last_by_step;
}

replay_or : Replay → Loaded → Replay
replay_or d (ok rp) = rp
replay_or d (err e) = d

ok-injective : (a b : Replay) → ok a ≡ ok b → a ≡ b
unfolding replay_or
ok-injective a b e = ap (replay_or a) e

pub err-≢-ok : {P : Type 0} (e : LoadError) (rp : Replay) → err e ≡ ok rp → P
err-≢-ok e rp h = ground (arith, h)

headed : Option Header → Replay → Loaded
headed none rp = err missing_header
headed (some h) rp = ok rp

finish-headed : (rp : Replay) (o : Option Header) → rp.header ≡ o → finish rp ≡ headed o rp
unfolding finish headed
finish-headed rp none e = rw (e, finish) refl
finish-headed rp (some h) e = simp (e, finish) refl

headed-ok :
    (rp out : Replay) (o : Option Header)
    → headed o rp ≡ ok out
    → (rp ≡ out) × ((h : Header) × (o ≡ some h))
unfolding headed
headed-ok rp out none e = err-≢-ok missing_header out e
headed-ok rp out (some h) e = (ok-injective rp out e, (h, refl))

pub finish-ok :
    (rp out : Replay) → finish rp ≡ ok out → (rp ≡ out) × ((h : Header) × (rp.header ≡ some h))
finish-ok rp out e = headed-ok rp out rp.header (sym (finish-headed rp rp.header refl) ∙ e)

pub bind-ok :
    (a : Loaded) (f : Replay → Loaded) (out : Replay)
    → (a >>= f) ≡ ok out
    → (rp : Replay) × (a ≡ ok rp) × (f rp ≡ ok out)
bind-ok (ok rp) f out e = (rp, refl, e)
bind-ok (err x) f out e = err-≢-ok x out e

module _ (codec : Codec) (limit : ℕ) where
  -- Reading one more line behind lines that load.
  load_lines_more :
      (first : Bool) (rp out : Replay) (l : List ℕ) (ls : List (List ℕ)) (x : List ℕ)
      → load_lines codec limit true first rp (l ∷ ls) ≡ ok out
      → (load_lines codec limit true first rp ((l ∷ ls) ++ x ∷ [])
          ≡ (fold_line codec limit false out x >>= finish))
        × ((h : Header) × (out.header ≡ some h))
  unfolding load_lines
  load_lines_more first rp out l [] x e =
      let (mid, a, b) = bind-ok (fold_line codec limit first rp l) finish out e in
      let (same, headers) = finish-ok mid out b in
      (
        ap (λ r. r >>= (λ rp'. fold_line codec limit false rp' x >>= finish)) (a ∙ ap ok same),
        subst (λ m. (h : Header) × (m.header ≡ some h)) same headers,
      )
  load_lines_more first rp out l (m ∷ ls) x e =
      let (mid, a, b) =
        bind-ok (fold_line codec limit first rp l)
          (λ rp'. load_lines codec limit true false rp' (m ∷ ls)) out e in
      let (more, headers) = load_lines_more false mid out m ls x b in
      (
        ap (λ r. r >>= (λ rp'. load_lines codec limit true false rp' ((m ∷ ls) ++ x ∷ []))) a
            ∙ more,
        headers,
      )

  load_all_more :
      (rp : Replay) (ls : List (List ℕ)) (x : List ℕ)
      → load_all codec limit true ls ≡ ok rp
      → (load_all codec limit true (ls ++ x ∷ []) ≡ (fold_line codec limit false rp x >>= finish))
        × ((h : Header) × (rp.header ≡ some h))
  unfolding load_all
  load_all_more rp [] x e = err-≢-ok no_lines rp e
  load_all_more rp (l ∷ ls) x e = load_lines_more true empty_replay rp l ls x e

  load-ok :
      (bytes : List ℕ) (rp : Replay)
      → load codec limit bytes ≡ ok rp
      → (any_long limit (raw_lines [] bytes) ≡ false)
        × (load_all codec limit (ends_with_newline bytes) (raw_lines [] bytes) ≡ ok rp)
  unfolding load
  load-ok bytes rp e = elim (Bool-cases (any_long limit (raw_lines [] bytes))) [
    | inl t ↦ err-≢-ok too_long rp (
        subst
          (λ b.
            (if b
              then err too_long
              else load_all codec limit (ends_with_newline bytes) (raw_lines [] bytes))
            ≡ ok rp)
          t e)
    | inr t ↦ (
      t,
      subst
          (λ b.
            (if b
              then err too_long
              else load_all codec limit (ends_with_newline bytes) (raw_lines [] bytes))
            ≡ ok rp)
          t e,
    )
  ]

  fold_appended :
      (rp : Replay) (r : ResultRecord)
      → IsLine codec (result r)
      → validate r.result ≡ []
      → fold_line codec limit false rp (codec.encode (result r)) ≡ ok (with_result rp r)
  unfolding fold_line fold_record fold_result
  fold_appended rp r law valid = rw (law.no_return, law.visible, law.reads_back, valid) refl

  append_record-some :
      (rec : Record) (bytes out : List ℕ)
      → append_record codec limit rec bytes ≡ some out
      → (length (codec.encode rec) < limit) × (bytes ++ (codec.encode rec ++ newline ∷ []) ≡ out)
  unfolding append_record
  append_record-some rec bytes out e =
      let long = length-append (codec.encode rec) (newline ∷ []) in
      elim (Bool-cases (ltb limit (length (codec.encode rec ++ newline ∷ [])))) [
        | inl t ↦
            elim (none-ne-some out (
              subst
                (λ b.
                  (if b then none else some (bytes ++ (codec.encode rec ++ newline ∷ [])))
                  ≡ some out)
                t e)) [ ]
        | inr t ↦ (
          omega (arith, long, ltb→le limit (length (codec.encode rec ++ newline ∷ [])) t),
          some-injective _ out (
              subst
                (λ b.
                  (if b then none else some (bytes ++ (codec.encode rec ++ newline ∷ [])))
                  ≡ some out)
                t e),
        )
      ]

  checked-some :
      (r : ResultRecord) (bytes out : List ℕ) (vs : List Violation)
      → (elim vs [ [] ↦ append_record codec limit (result r) bytes | v ∷ ws ↦ none ]) ≡ some out
      → (vs ≡ []) × (append_record codec limit (result r) bytes ≡ some out)
  checked-some r bytes out [] e = (refl, e)
  checked-some r bytes out (v ∷ vs) e = elim (none-ne-some out e) [ ]

  append_result-some :
      (r : ResultRecord) (bytes out : List ℕ)
      → append_result codec limit r bytes ≡ some out
      → (validate r.result ≡ [])
        × (length (codec.encode (result r)) < limit)
        × (bytes ++ (codec.encode (result r) ++ newline ∷ []) ≡ out)
  unfolding append_result
  append_result-some r bytes out e =
      let (valid, written) = checked-some r bytes out (validate r.result) e in
      let (short, whole) = append_record-some (result r) bytes out written in (valid, short, whole)

  appended_lines :
      (whole : List ℕ) (r : ResultRecord)
      → IsLine codec (result r)
      → ends_with_newline whole ≡ true
      → raw_lines [] (whole ++ (codec.encode (result r) ++ newline ∷ []))
        ≡ raw_lines [] whole ++ codec.encode (result r) ∷ []
  appended_lines whole r law ended =
      raw_lines-append [] whole (codec.encode (result r) ++ newline ∷ []) ended
      ∙ ap (◌++◌ (raw_lines [] whole)) (raw_lines_line [] (codec.encode (result r)) law.one_line)

  appended_ends : (whole text : List ℕ) → ends_with_newline (whole ++ (text ++ newline ∷ [])) ≡ true
  unfolding ends_with_newline
  appended_ends whole text =
      sym (ap ends_with_newline (append_assoc whole text (newline ∷ [])))
      ∙ ends-append (whole ++ text) newline []

  loads_appended :
      (whole : List ℕ) (r : ResultRecord) (rp : Replay)
      → IsLine codec (result r)
      → ends_with_newline whole ≡ true
      → load codec limit whole ≡ ok rp
      → validate r.result ≡ []
      → length (codec.encode (result r)) < limit
      → load codec limit (whole ++ (codec.encode (result r) ++ newline ∷ []))
        ≡ ok (with_result rp r)
  unfolding load headed
  loads_appended whole r rp law ended loaded valid short =
      let text = codec.encode (result r) in
      let (fits, read) = load-ok whole rp loaded in
      let (more, (h, headers)) =
        load_all_more rp (raw_lines [] whole) text
          (subst (λ b. load_all codec limit b (raw_lines [] whole) ≡ ok rp) ended read) in
      rw
        (
          appended_lines whole r law ended,
          appended_ends whole text,
          any_long-append limit (raw_lines [] whole) text short,
          fits,
        )
        (more
          ∙ ap (λ m. m >>= finish) (fold_appended rp r law valid)
          ∙ finish-headed (with_result rp r) (some h) headers)

  lookup_key-put_key :
      (k : Key) (r : ResultRecord) (m : List (Key × ResultRecord))
      → lookup_key k (put_key k r m) ≡ some r
  unfolding lookup_key put_key same_key
  lookup_key-put_key k r m = ground (arith, str_eq_self k.step_id, str_eq_self k.input_hash)

  -- A result appended to a journal of ended lines that loads, if JSON writes it as one line and
  -- reads it back: the journal loads again, as the earlier replay with that result, which is found
  -- under its key and as the last one of its step.
  pub load-append_result :
      (whole out : List ℕ) (r : ResultRecord) (rp : Replay)
      → IsLine codec (result r)
      → ends_with_newline whole ≡ true
      → load codec limit whole ≡ ok rp
      → append_result codec limit r whole ≡ some out
      → (load codec limit out ≡ ok (with_result rp r))
        × (lookup_key (key_of r) (with_result rp r).results ≡ some r)
        × (lookup r.step_id (with_result rp r).last_by_step ≡ some r)
  load-append_result whole out r rp law ended loaded appended =
      let (valid, short, same) = append_result-some r whole out appended in
      (
        subst (λ bytes. load codec limit bytes ≡ ok (with_result rp r)) same
            (loads_appended whole r rp law ended loaded valid short),
        lookup_key-put_key (key_of r) r rp.results,
        lookup-put_self r.step_id r rp.last_by_step,
      )
