-- ===== src/Common/Texts.antt =====
-- Texts as the lists of their code points, and the digits of numbers.
use Prim.Native.Char.{code}
use Prim.Native.Nat.{ℕ, zero, suc, ◌+◌, ◌/◌, ◌%◌, ◌≤◌}
use Prim.Native.String.{String}
use mathlib.Core.Bool.{Bool, true, false, ◌&&◌}
use mathlib.Core.List.{List, [], ◌∷◌, ◌++◌}
use native.Mathlib.Omega.{arith}
use mathlib.Core.Logic.{inl, inr}
use test_assestment.Common.Tests.{nat_eq, ltb, if◌then◌else◌, Bool-cases}
use test_assestment.Common.Lists.{All, All-append}

abbrev pub codes : String → List ℕ
codes String.[] = []
codes (String.◌∷◌ c s) = code c ∷ codes s

unfoldable pub codes_eq : List ℕ → List ℕ → Bool
codes_eq [] [] = true
codes_eq [] (y ∷ ys) = false
codes_eq (x ∷ xs) [] = false
codes_eq (x ∷ xs) (y ∷ ys) = nat_eq x y && codes_eq xs ys

-- The digits of a number, at most as many as the fuel.
unfoldable pub digits_from : ℕ → ℕ → List ℕ
digits_from zero n = []
digits_from (suc fuel) n =
    let rest = digits_from fuel (n / 10) in
    let digit = (b'0' + n % 10) ∷ [] in if ltb n 10 then digit else rest ++ digit

-- A number in a template.
unfoldable pub decimal : ℕ → List ℕ
decimal n = digits_from (suc n) n

abbrev IsDigit : ℕ → Type 0
IsDigit c = (b'0' ≤ c) × (c ≤ b'9')

digits_from-All : (fuel n : ℕ) → All IsDigit (digits_from fuel n)
unfolding digits_from
digits_from-All zero n = tt
digits_from-All (suc fuel) n =
    let rest =
      All-append IsDigit (digits_from fuel (n / 10)) ((b'0' + n % 10) ∷ [])
        (digits_from-All fuel (n / 10)) ((omega arith, omega arith), tt) in
    elim (Bool-cases (ltb n 10)) [
      | inl b ↦ rw b ((omega arith, omega arith), tt)
      | inr b ↦ rw b rest
    ]

pub decimal-All : (n : ℕ) → All (λ c. (b'0' ≤ c) × (c ≤ b'9')) (decimal n)
unfolding decimal
decimal-All n = digits_from-All (suc n) n
