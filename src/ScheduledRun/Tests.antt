-- ===== src/ScheduledRun/Tests.antt =====
-- A rule that checks again after five milliseconds, and the theorems at its record.
use test_assestment.Common.{ℕ, none, some, [], ◌∷◌, ◌≡◌, refl, ok}
use test_assestment.JsMap.{get, set}
use test_assestment.Duration.{num, parse_duration}
use test_assestment.Entities.{null, recheck, schedule, RegisteredRule, Registry}
use test_assestment.ScheduledStore.{find, reschedule}
use test_assestment.ScheduledRun.{
  World, Check, Progress, run_scheduled_check, settle, settle_recheck, rechecked, deadline_exceeded,
  scheduled_checked,
}
use test_assestment.ScheduledRun.Settling
use test_assestment.ScheduledRun.Settling.{Settles}

abbrev again : RegisteredRule
again = record {
  name = "r";
  event_name = "push";
  args_schema = none;
  pinned_args = [];
  when = none;
  strategy = schedule (record {
    delay = num 5;
    deadline = none;
    key = λ ctx. ok "k";
    transform = λ ctx. ok null;
    check = λ ctx. ok (recheck (num 5));
  });
  actions = [];
}

abbrev reg : Registry
reg = record {
  predicates = [];
  actions = [];
  aggregated_actions = [];
  scheduled_actions = [];
  integrations = [];
  rules = ("r", again) ∷ [];
  action_by_name = [];
  dispatch = [];
}

abbrev rec : Check
rec = record {
  rule_id = "r";
  key_id = "k";
  run_at = 5;
  scheduled_at = 0;
  deadline = some 13;
  payload = null;
}

abbrev before : Progress
before = record {
  store = record { records = ("r", ("k", rec) ∷ []) ∷ []; leases = [] };
  events = [];
}

abbrev at_time : ℕ → World
at_time now = record {
  ran_at = now;
  checked_at = now;
  check_aborted = none;
  actions_aborted = none;
}

rechecks_until_deadline :
    ((run_scheduled_check (some reg) (at_time 8) rec before).1.events
      ≡ scheduled_checked "r" "k" rechecked ∷ [])
    × ((run_scheduled_check (some reg) (at_time 9) rec before).1.events
        ≡ scheduled_checked "r" "k" deadline_exceeded ∷ [])
unfolding run_scheduled_check settle settle_recheck parse_duration reschedule find get set
rechecks_until_deadline = (refl, refl)

run_scheduled_check-Settles_example :
    Settles (at_time 8) rec before (run_scheduled_check (some reg) (at_time 8) rec before)
run_scheduled_check-Settles_example =
    Settling.run_scheduled_check-Settles reg (at_time 8) rec before
