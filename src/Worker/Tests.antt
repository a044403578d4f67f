-- ===== src/Worker/Tests.antt =====
-- A worker with one record, and the theorems at it.
use mathlib.Core.List.{flatten}
use test_assestment.Common.{
  ℕ, String, true, false, none, some, List, [], ◌∷◌, ◌++◌, ◌≡◌, refl, ok, sort_by, insert_by,
}
use test_assestment.JsMap.{get, set, delete}
use test_assestment.Duration.{num}
use test_assestment.Entities.{null, error, Error, RegisteredRule, Registry, schedule, pass}
use test_assestment.ScheduledStore.{
  find, claim, candidates, lease_all, is_candidate, is_leased, lease_key,
}
use test_assestment.ScheduledRun.{World, Check, run_scheduled_check}
use test_assestment.Worker.{
  Worker, create, start, stop, run_tick, process_claim, process_records, process_record, fail_check,
  handle_scheduled_failure, schedule_next_tick,
}
use test_assestment.Worker.Attempts
use test_assestment.Worker.Attempts.{fail_each, failed_so_far, Bounded}
use test_assestment.Worker.Ticks.{run, step, starts, stops, fires, TimerCall}

abbrev show : ℕ → String
show n = "7"

abbrev rec : Check
rec = record {
  rule_id = "r";
  key_id = "k";
  run_at = 5;
  scheduled_at = 7;
  deadline = none;
  payload = null;
}

abbrev worker : Worker
worker = record {
  attempts = [];
  progress = record {
    store = record { records = ("r", ("k", rec) ∷ []) ∷ []; leases = [] };
    events = [];
  };
}

abbrev nine : List Error
nine =
    error "1"
    ∷ error "2"
    ∷ error "3"
    ∷ error "4"
    ∷ error "5"
    ∷ error "6"
    ∷ error "7"
    ∷ error "8"
    ∷ error "9"
    ∷ []

tenth_failure_example :
    let last = fail_each show rec (nine ++ error "10" ∷ []) worker in
    ((fail_each show rec nine worker).progress.store ≡ worker.progress.store)
    × (find "r" "k" last.progress.store ≡ none)
    × (failed_so_far show rec last ≡ 0)
unfolding get
tenth_failure_example = Attempts.tenth_failure show rec nine (error "10") worker refl refl

-- Its check is cut off by the timeout of the evaluation.
abbrev slow : RegisteredRule
slow = record {
  name = "r";
  event_name = "push";
  args_schema = none;
  pinned_args = [];
  when = none;
  strategy = schedule (record {
    delay = num 5;
    deadline = none;
    key = λ ctx. ok "k";
    transform = λ ctx. ok null;
    check = λ ctx. ok pass;
  });
  actions = [];
}

abbrev reg : Registry
reg = record {
  predicates = [];
  actions = [];
  aggregated_actions = [];
  scheduled_actions = [];
  integrations = [];
  rules = ("r", slow) ∷ [];
  action_by_name = [];
  dispatch = [];
}

abbrev times_out : Check → World
times_out c = record {
  ran_at = 9;
  checked_at = 9;
  check_aborted = some (error "evaluation timeout");
  actions_aborted = none;
}

counts_one : failed_so_far show rec (process_claim show (some reg) times_out 9 10_000 worker) ≡ 1
unfolding process_claim process_records process_record run_scheduled_check fail_check
    handle_scheduled_failure claim candidates lease_all is_candidate is_leased lease_key sort_by
    insert_by get set delete flatten
counts_one = refl

abbrev day : List TimerCall
day = starts ∷ fires true ∷ starts ∷ stops ∷ fires true ∷ starts ∷ []

ends_started : run day create ≡ record { started = true; stopped = false; armed = true }
unfolding run step start stop run_tick schedule_next_tick create
ends_started = refl
