-- ===== src/Worker/Ticks.antt =====
-- The timer is set exactly while the worker is started, and a stopped worker claims nothing.
use test_assestment.Common.{Bool, true, false, List, [], ◌∷◌, ◌≡◌, refl, if◌then◌else◌, arith}
use test_assestment.Worker.{Timer, create, schedule_next_tick, start, stop, run_tick}

-- What happens to the timer. It fires only when it is set.
pub data TimerCall : Type 0 where
  starts stops : TimerCall
  fires : Bool → TimerCall

unfoldable pub step : TimerCall → Timer → Timer
step starts t = start t
step stops t = stop t
step (fires has_registry) t = if t.armed then (run_tick has_registry t).1 else t

unfoldable pub run : List TimerCall → Timer → Timer
unfolding step
run [] t = t
run (c ∷ cs) t = run cs (step c t)

pub record IsSteady (t : Timer) : Type 0 where
  pub one_timer : t.armed ≡ t.started
  pub exclusive : t.started ≡ true → t.stopped ≡ false

step-IsSteady : (c : TimerCall) (t : Timer) → IsSteady t → IsSteady (step c t)
unfolding step start stop run_tick schedule_next_tick
step-IsSteady starts t v =
    let one = v.one_timer in
    let only = v.exclusive in record { one_timer = ground arith; exclusive = λ h. ground arith }
step-IsSteady stops t v = record { one_timer = refl; exclusive = λ h. ground arith }
step-IsSteady (fires has_registry) t v =
    let one = v.one_timer in
    let only = v.exclusive in record { one_timer = ground arith; exclusive = λ h. ground arith }

run-IsSteady : (cs : List TimerCall) (t : Timer) → IsSteady t → IsSteady (run cs t)
unfolding run
run-IsSteady [] t v = v
run-IsSteady (c ∷ cs) t v = run-IsSteady cs (step c t) (step-IsSteady c t v)

-- After any sequence of starts, stops and firings of a new worker, its timer is set exactly when
-- it is started, and a started worker is not stopped.
pub run-create-IsSteady : (cs : List TimerCall) → IsSteady (run cs create)
unfolding create
run-create-IsSteady cs =
    run-IsSteady cs create (record { one_timer = refl; exclusive = λ h. ground arith })
