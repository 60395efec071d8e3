-- ===== src/Tests/Progress.antt =====
-- pipeline/scheduler.go: a deferral without an instant, of the only worker that is out.
use faber.Common.{ℕ, ◌≡◌, refl, true, false, none, List, [], ◌∷◌, lookup}
use faber.Pipeline.Scheduler.{queued, Work, Scheduler}
use faber.Pipeline.Scheduler.Events.{deferring, step, seed}
use faber.Pipeline.Scheduler.Gates.{generate, Plan, Gates}
use faber.Pipeline.Scheduler.Dispatch.{ready_turn}
use faber.Pipeline.Scheduler.Served.{Served}
use faber.Tests.Runs.{waiting_for, built, desk}

abbrev open_gates : Gates ℕ
open_gates = record {
  when_program = λ scope deps. none;
  exhausted_program = λ scope deps. none;
  tag = λ template. none;
  digest = λ inputs template image. none;
  prior = [];
  has_boxes = true;
}

abbrev expansion : Plan ℕ
expansion = record {
  kind = generate;
  when = none;
  template = none;
  scope = "";
  bindings = [];
  edges = [];
  inputs = [];
  sel = none;
}

abbrev queued_a : Work ℕ
queued_a = record (waiting_for "a") { life = queued }

abbrev sent : Scheduler ℕ
sent = ready_turn desk open_gates "a" expansion queued_a (seed built)

abbrev shed : Scheduler ℕ
shed = step desk (deferring "a" none "limit" [] 1 [] false) sent

-- The parked node is woken at once.
woken_a : shed.wait_zero ≡ []
unfolding lookup step seed ready_turn faber.Common.put faber.Common.delete
woken_a = refl
