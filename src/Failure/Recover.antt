-- ===== src/Failure/Recover.antt =====
-- failure/recover.go: which journaled results a resumed run adopts, and which steps an operator may
-- re-enter. Reading the journal is `load`; the input hash of hash.go is an argument, `none` where it
-- fails, and re-entering the box is left to the caller.
pub mod Entries
use faber.Common.{
  String, Bool, true, false, not, Option, none, some, List, str_eq, if◌then◌else◌, lookup,
}
use faber.Failure.Result.{Status, ok, ErrorRecord, Result, is_failed}
use faber.Failure.Journal.{Key, ResultRecord, Replay, lookup_key}

pub data Prior : Type 0 where
  hash_failed miss : Prior
  hit : Result → Prior

abbrev pub is_ok : Status → Bool
is_ok ok = true
is_ok _ = false

adopted : Option ResultRecord → Prior
adopted none = miss
adopted (some rec) = if is_ok rec.result.status then hit rec.result else miss

-- `RunSeed.Lookup`
unfoldable pub lookup_prior : List (Key × ResultRecord) → String → Option String → Prior
unfolding adopted lookup_key
lookup_prior prior step none = hash_failed
lookup_prior prior step (some hash) =
    adopted (lookup_key (record { step_id = step; input_hash = hash }) prior)

pub data Entry : Type 0 where
  never_settled no_box no_handoff : Entry
  not_failed : Status → Entry
  reenter : ResultRecord → Entry

unfoldable pub has_handoff : Option ErrorRecord → Bool
has_handoff none = false
has_handoff (some e) = not (str_eq e.handoff "")

enter : Option ResultRecord → Entry
unfolding has_handoff
enter none = never_settled
enter (some rec) =
    if not (is_failed rec.result.status)
    then not_failed rec.result.status
    else if str_eq rec.input_hash ""
    then no_box
    else if not (has_handoff rec.result.error)
    then no_handoff
    else reenter rec

-- `Store.Interactive`, of the replayed journal.
unfoldable pub interactive : Replay → String → Entry
unfolding enter
interactive rp step = enter (lookup step rp.last_by_step)
