-- ===== src/Adapter/Wrapped/Tests.antt =====
-- Calls of wrapped methods at concrete steps, and the theorems at them.
use mathlib.Core.List.{Permᴰ}
use test_assestment.Common.{
  ℕ, ◌≤◌, ◌≡◌, refl, true, false, some, List, [], ◌∷◌, map, length, codes, codes_eq, arith,
}
use test_assestment.JsMap.{get, set, delete}
use test_assestment.Adapter.Breaker.{closed}
use test_assestment.Adapter.Wrapped.{
  WrappedStep, calls, settles, new, run, get_cache_key, sans_signal,
}
use test_assestment.Adapter.Wrapped.Accounts.{Accounts, made, run-new-Accounts}
use test_assestment.Adapter.Wrapped.Keys.{get_cache_key-sans_signal}
use test_assestment.Canonical.{Entries, number, boolean, null}
use test_assestment.Canonical.Keys.{times}

-- Two calls share a promise that fails; a third starts its own.
abbrev three : List WrappedStep
three =
    calls "d1" "get" "k" 10 closed
    ∷ calls "d2" "get" "k" 12 closed
    ∷ settles 0 false 20 closed
    ∷ calls "d3" "get" "k" 21 closed
    ∷ []

three_events : map (λ e. e.elapsed_ms) (run (some (60, 2)) three new).events ≡ 10 ∷ 8 ∷ []
unfolding run new get set delete
three_events = refl

three_started : length (run (some (60, 2)) three new).started ≡ 2
unfolding run new get set delete
three_started = refl

run-new-Accounts_example : Accounts (made three) (run (some (60, 2)) three new)
run-new-Accounts_example = run-new-Accounts (some (60, 2)) three

abbrev quote : List ℕ → List ℕ
quote s = s

abbrev input : Entries
input = (codes "a", number 1) ∷ (codes "signal", null) ∷ (codes "b", boolean true) ∷ []

abbrev other_input : Entries
other_input = (codes "b", boolean true) ∷ (codes "a", number 1) ∷ []

once : (k : List ℕ) → times k (sans_signal input) ≤ 1
unfolding sans_signal codes_eq
once [] = omega arith
once (c ∷ k) = ground arith

same_entries : Permᴰ (sans_signal input) (sans_signal other_input)
unfolding sans_signal
same_entries = Permᴰ.swap refl refl

get_cache_key-sans_signal_example :
    get_cache_key quote [] (codes "get") input ≡ get_cache_key quote [] (codes "get") other_input
get_cache_key-sans_signal_example =
    get_cache_key-sans_signal quote [] (codes "get") input other_input tt once same_entries
