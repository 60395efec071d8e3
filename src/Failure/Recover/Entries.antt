-- ===== src/Failure/Recover/Entries.antt =====
-- failure/recover.go: which records are adopted, and which are re-entered.
use faber.Common.{
  String, ◌≡◌, refl, sym, ap, subst, ◌↔◌, Bool, true, false, not, Option, none, some, List, arith,
  ℕ, [], str_eq, if◌then◌else◌, lookup,
}
use faber.Failure.Result.{Status, Result, is_failed}
use faber.Failure.Journal.{ResultRecord, Replay, Codec, ok, load, ends_with_newline, raw_lines}
use faber.Failure.Journal.Latest.{latest, load-latest}
use faber.Failure.Recover.{
  Prior, miss, hit, is_ok, adopted, lookup_prior, Entry, no_box, no_handoff, not_failed, reenter,
  has_handoff, enter, interactive,
}

record_of : ResultRecord → Entry → ResultRecord
record_of d (reenter rec) = rec
record_of d _ = d

result_of : Result → Prior → Result
result_of d (hit r) = r
result_of d _ = d

-- A record that may be re-entered: failed, from a step whose box ran and left its handoff.
pub record IsEntry (rec : ResultRecord) : Type 0 where
  pub failed : is_failed rec.result.status ≡ true
  pub executed : str_eq rec.input_hash "" ≡ false
  pub preserved : has_handoff rec.result.error ≡ true

reenter-injective : (r rec : ResultRecord) → reenter r ≡ reenter rec → r ≡ rec
unfolding record_of
reenter-injective r rec e = ap (record_of r) e

hit-injective : (r s : Result) → hit r ≡ hit s → r ≡ s
unfolding result_of
hit-injective r s e = ap (result_of r) e

guards :
    (a b c : Bool) (s : Status) (r rec : ResultRecord)
    → (if not a
        then not_failed s
        else if b
        then no_box
        else if not c
        then no_handoff
        else reenter r)
      ≡ reenter rec
    → (a ≡ true) × (b ≡ false) × (c ≡ true) × (r ≡ rec)
guards false b c s r rec h = ground (arith, h)
guards true true c s r rec h = ground (arith, h)
guards true false false s r rec h = ground (arith, h)
guards true false true s r rec h = (refl, refl, refl, reenter-injective r rec h)

entered :
    (o : Option ResultRecord) (rec : ResultRecord)
    → enter o ≡ reenter rec
    → (o ≡ some rec) × IsEntry rec
unfolding enter
entered none rec h = ground (arith, h)
entered (some r) rec h =
    let (a, b, c, e) =
      guards (is_failed r.result.status) (str_eq r.input_hash "") (has_handoff r.result.error)
        r.result.status r rec h in
    (ap some e, subst IsEntry e (record { failed = a; executed = b; preserved = c }))

enter_entry : (rec : ResultRecord) → IsEntry rec → enter (some rec) ≡ reenter rec
unfolding enter
enter_entry rec h = rw (h.failed, h.executed, h.preserved) refl

-- An operator may re-enter a step exactly at its last journaled record, and only if that is a
-- failure of a box that ran and left its handoff.
pub interactive_iff :
    (rp : Replay) (step : String) (rec : ResultRecord)
    → (interactive rp step ≡ reenter rec) ↔ ((lookup step rp.last_by_step ≡ some rec) × IsEntry rec)
unfolding interactive
interactive_iff rp step rec = (
  λ h. entered (lookup step rp.last_by_step) rec h,
  λ h. rw (h.0, interactive) (enter_entry rec h.1),
)

-- Where a record found in the journal is adopted.
abbrev pub Adopts : Option ResultRecord → Result → Type 0
Adopts o r =
    (rec : ResultRecord) × (o ≡ some rec) × (is_ok rec.result.status ≡ true) × (rec.result ≡ r)

adopt_guard : (b : Bool) (s r : Result) → (if b then hit s else miss) ≡ hit r → (b ≡ true) × (s ≡ r)
adopt_guard false s r h = ground (arith, h)
adopt_guard true s r h = (refl, hit-injective s r h)

adopted-Adopts : (o : Option ResultRecord) (r : Result) → adopted o ≡ hit r → Adopts o r
unfolding adopted
adopted-Adopts none r h = ground (arith, h)
adopted-Adopts (some rec) r h =
    let (ok_status, same) = adopt_guard (is_ok rec.result.status) rec.result r h in
    (rec, refl, ok_status, same)

Adopts-adopted : (o : Option ResultRecord) (r : Result) → Adopts o r → adopted o ≡ hit r
unfolding adopted
Adopts-adopted o r (rec, e, ok_status, same) =
    subst (λ p. adopted p ≡ hit r) (sym e) (rw ok_status (ap hit same))

-- A resumed run that loaded its journal adopts a result without running the step exactly if the last
-- complete record of the step's id and input hash in the journal is ok and has that result.
pub lookup_prior_iff :
    (codec : Codec) (limit : ℕ) (bytes : List ℕ) (rp : Replay)
    → load codec limit bytes ≡ ok rp
    → (step hash : String) (r : Result)
    → (lookup_prior rp.results step (some hash) ≡ hit r)
      ↔ Adopts (latest step hash codec (ends_with_newline bytes) (raw_lines [] bytes) none) r
unfolding lookup_prior
lookup_prior_iff codec limit bytes rp loaded step hash r =
    let found = load-latest step hash codec limit bytes rp loaded in
    (
      λ h. subst (λ o. Adopts o r) (sym found) (adopted-Adopts _ r h),
      λ h. Adopts-adopted _ r (subst (λ o. Adopts o r) found h),
    )
