-- ===== src/Engine.antt =====
-- The engine object, engine/src/engine/engine.ts: registration, evaluation, start and stop. The
-- error of a timeout, of a caller that aborts or of a stop that cuts an evaluation off is an
-- argument; what the evaluation has done by then stays.
pub mod EndToEnd
mod Tests
use test_assestment.Common.{
  ℕ, String, Bool, Option, none, some, get_or, List, [], ◌∷◌, ◌++◌, max, Result, ok, throw,
}
use test_assestment.Entities.{Args, Error, error, RegisteredRule, RegisterBatch, Registry}
use test_assestment.Issues.{RegistrationIssue}
use test_assestment.Registration.{build_registry}
use test_assestment.Strategies.{Run}
use test_assestment.Runner.{EventEnvelope, run}
use test_assestment.Worker
use test_assestment.Worker.{Timer}

pub data EngineEvent : Type 0 where
  evaluation_completed : String → ℕ → EngineEvent
  evaluation_failed : String → Error → EngineEvent

pub record Engine : Type 0 where
  pub registry : Option Registry
  pub run_state : Run
  pub events : List EngineEvent
  pub timer : Timer

-- `Math.max(10_000, opts.scheduledPollMs ?? 10_000)`
unfoldable pub sched_poll_ms : Option ℕ → ℕ
sched_poll_ms requested = max 10_000 (get_or requested 10_000)

abbrev pub keep_registry :
    Engine
    → Result (List RegistrationIssue) Registry
    → Result (List RegistrationIssue) (Unit {0}) × Engine
keep_registry e (ok reg) = (ok tt, record e { registry = some reg })
keep_registry e (throw issues) = (throw issues, e)

-- A batch that is refused leaves the registry of before.
unfoldable pub register :
    RegisterBatch → Engine → Result (List RegistrationIssue) (Unit {0}) × Engine
unfolding build_registry
register batch e = keep_registry e (build_registry batch)

unfoldable pub start : Engine → Engine
start e = record e { timer = Worker.start e.timer }

unfoldable pub stop : Engine → Engine
stop e = record e { timer = Worker.stop e.timer }

-- `scope.run(work)`: an abort wins the race.
abbrev pub race : Option Error → Result Error ℕ → Result Error ℕ
race none r = r
race (some e) r = throw e

abbrev pub conclude : String → Result Error ℕ → Engine → Result Error (Unit {0}) × Engine
conclude delivery_id (ok n) e =
    (ok tt, record e { events = e.events ++ evaluation_completed delivery_id n ∷ [] })
conclude delivery_id (throw x) e =
    (throw x, record e { events = e.events ++ evaluation_failed delivery_id x ∷ [] })

module _ (json : Args → String) (clock : RegisteredRule → ℕ) (started_at ended_at : ℕ)
    (cut : Option Error) where
  unfoldable pub run_evaluation :
      Registry → EventEnvelope → String → Engine → Result Error (Unit {0}) × Engine
  unfolding run
  run_evaluation reg envelope delivery_id e =
      let (r, s) = run json reg envelope delivery_id started_at clock ended_at e.run_state in
      conclude delivery_id (race cut r) (record e { run_state = s })

  unfoldable pub evaluate_with :
      Option Registry → EventEnvelope → String → Engine → Result Error (Unit {0}) × Engine
  unfolding run_evaluation
  evaluate_with none envelope delivery_id e =
      (throw (error "engine.evaluate(...) called before engine.register(...)"), e)
  evaluate_with (some reg) envelope delivery_id e = run_evaluation reg envelope delivery_id e

  unfoldable pub evaluate : EventEnvelope → String → Engine → Result Error (Unit {0}) × Engine
  unfolding evaluate_with
  evaluate envelope delivery_id e = evaluate_with e.registry envelope delivery_id e
