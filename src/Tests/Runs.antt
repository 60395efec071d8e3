-- ===== src/Tests/Runs.antt =====
-- A run of two nodes, the second after the first.
use faber.Common.{
  ℕ, ◌+◌, ◌<◌, ◌≡◌, refl, subst, String, Bool, true, false, not, ◌&&◌, inl, inr, Option, none, some,
  List, [], ◌∷◌, if◌then◌else◌, length, ltb, str_eq, eq_iff, Table, lookup, In, arith,
}
use faber.Metering.Cost.{pos}
use faber.Failure.Result.{Status, Result}
use faber.Failure.Skips.{contains}
use faber.Pipeline.Values.{failed, ok}
use faber.Pipeline.Scheduler.{
  members_of, pending, queued, done, Work, Scheduler, Host, is_done, or_zero, list_or_nil, succ_of,
}
use faber.Pipeline.Scheduler.Events.{settled, step, seed}
use faber.Pipeline.Scheduler.Readiness.Unmet.{unmet}
use faber.Pipeline.Scheduler.Readiness.Edges.{IsSettled}
use faber.Pipeline.Scheduler.Presence.{Has}
use faber.Pipeline.Scheduler.Reached.{
  IsFresh, Turn, event, Reached, seeded, turn, Turn-Keeps, Reached-ordered, Reached-ended,
}
use faber.Pipeline.Scheduler.Counts.{IsCounted}
use faber.Pipeline.Scheduler.Settle.{is_open, finish, skipping}
use faber.Pipeline.Scheduler.Members.{finish-members}

abbrev pub waiting_for : String → Work ℕ
waiting_for id = record {
  node = record { id = id; gen = ""; template = none };
  life = pending;
  status = ok;
  payload = [];
  raw = none;
  hash = "";
  cached = false;
  used = 0;
  history = [];
  annotations = [];
  costs = [];
}

abbrev pub built : Scheduler ℕ
built = record {
  nodes = ("a", waiting_for "a") ∷ ("b", waiting_for "b") ∷ [];
  succ = ("a", "b" ∷ []) ∷ [];
  indeg = ("b", pos 1) ∷ [];
  members = [];
  scopes = [];
  done = 0;
  ready = [];
  slot_q = [];
  wait_zero = [];
  slots = record { max_par = 0; slots_used = 0; gen_pools = []; lanes = [] };
  outstanding = 0;
  journal = [];
  fatal = false;
  failed = 0;
  halts = [];
}

abbrev pub desk : Host ℕ
desk = record {
  accepts = λ journal rec. true;
  decode = λ raw. some [];
  render = λ costs. "[]";
  now = 7;
}

abbrev fine : Result
fine = record {
  status = Status.ok;
  payload = some "{}";
  error = none;
  halt = none;
  timing = record { started = some 7; finished = some 7 };
  attempt = 1;
  attempts = [];
  agent_skipped = false;
  check = false;
}

abbrev pub after_a : Scheduler ℕ
after_a = step desk (settled "a" fine [] true false) (seed built)

abbrev after_b : Scheduler ℕ
after_b = step desk (settled "b" fine [] true false) after_a

pub built-IsFresh : IsFresh built
unfolding unmet contains lookup or_zero
built-IsFresh = record {
  unique_nodes = (refl, (refl, tt));
  unique_succ = (refl, tt);
  none_done = refl;
  untouched = λ d n e. ground arith;
  indegrees = λ d. waits (str_eq "b" d);
}
  where
    waits :
        (b : Bool) → or_zero (if b then some (pos 1) else none) ≡ pos ((if b then 1 else 0) + 0 + 0)
    waits true = refl
    waits false = refl

pub Reached-after_a : Reached desk built after_a
Reached-after_a = turn seeded (event (settled "a" fine [] true false) (seed built) tt)

turn_b : Turn desk after_a after_b
turn_b = event (settled "b" fine [] true false) after_a tt

Reached-after_b : Reached desk built after_b
Reached-after_b = turn Reached-after_a turn_b

abbrev pub queued_b : Work ℕ
queued_b = record (waiting_for "b") { life = queued }

abbrev done_a : Work ℕ
done_a = record (waiting_for "a") { life = done; raw = some "{}" }

abbrev done_b : Work ℕ
done_b = record (waiting_for "b") { life = done; raw = some "{}" }

pub at_b : lookup "b" after_a.nodes ≡ some queued_b
unfolding lookup step seed faber.Common.put faber.Common.delete
at_b = refl

at_a : lookup "a" after_a.nodes ≡ some done_a
unfolding lookup step seed faber.Common.put faber.Common.delete
at_a = refl

later_a : lookup "a" after_b.nodes ≡ some done_a
unfolding lookup step seed faber.Common.put faber.Common.delete
later_a = refl

edge_b : In "b" (succ_of "a" built)
unfolding succ_of lookup
edge_b = inl refl

ended_b : ltb after_b.done (length after_b.nodes) ≡ false
unfolding step lookup seed faber.Common.put faber.Common.delete
ended_b = refl

Reached-ordered_example : IsSettled "a" after_a
Reached-ordered_example =
    Reached-ordered built-IsFresh Reached-after_a "a" "b" queued_b edge_b at_b refl

Turn-Keeps_example : lookup "a" after_b.nodes ≡ some done_a
Turn-Keeps_example = Turn-Keeps turn_b "a" done_a at_a refl

Reached-ended_example : is_done done_a.life ≡ true
Reached-ended_example = Reached-ended built-IsFresh Reached-after_b ended_b "a" done_a later_a

abbrev pub rank_of : String → ℕ
rank_of id = if str_eq id "b" then 1 else 0

only_edge : (p d : String) → In d (succ_of p built) → ("a" ≡ p) × ("b" ≡ d)
unfolding succ_of lookup list_or_nil
only_edge p d i = go (str_eq "a" p) refl i
  where
    go :
        (b : Bool)
        → str_eq "a" p ≡ b
        → In d (list_or_nil (if b then some ("b" ∷ []) else none))
        → ("a" ≡ p) × ("b" ≡ d)
    go true q (inl e) = ((eq_iff "a" p).0 q, e)
    go true q (inr i) = elim i [ ]
    go false q i = elim i [ ]

pub rank_up : (p d : String) → In d (succ_of p built) → rank_of p < rank_of d
rank_up p d i =
    let (e, f) = only_edge p d i in
    subst (λ k. rank_of k < rank_of d) e (subst (λ k. rank_of "a" < rank_of k) f (omega arith))

pub known_of : (p d : String) → In d (succ_of p built) → Has p built
unfolding lookup
known_of p d i = subst (λ k. Has k built) (only_edge p d i).0 (waiting_for "a", refl)

-- The same graph, where the second node stands in the first one's sub-workflow.
abbrev pub grouped : Scheduler ℕ
grouped = record built { members = ("a", "b" ∷ []) ∷ [] }

grouped-IsCounted : IsCounted grouped
unfolding lookup faber.Pipeline.Scheduler.Counts.count_done
grouped-IsCounted = record { unique = (refl, (refl, tt)); counted = refl }

open_a : is_open "a" grouped ≡ true
unfolding is_open lookup
open_a = refl

member_b : In "b" (members_of "a" grouped)
unfolding members_of lookup
member_b = inl refl

there_b : Has "b" grouped
unfolding lookup
there_b = (waiting_for "b", refl)

finish-members_example : IsSettled "b" (finish (skipping desk grouped) "a" failed grouped)
finish-members_example =
    finish-members desk "a" failed grouped grouped-IsCounted open_a refl "b" member_b there_b
