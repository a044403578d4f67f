-- ===== src/Duration.antt =====
-- engine/src/engine/utility/duration.ts: a duration is a number of milliseconds, or a text such as
-- "5m". A text is the list of its code units; numbers past 2^53 are not rounded here.
pub mod Written
pub mod Accepted
mod Tests
use test_assestment.Common.{
  ℕ, zero, suc, ◌+◌, ◌-◌, ◌*◌, Bool, true, false, ◌&&◌, ◌||◌, Option, none, some, List, [], ◌∷◌,
  leb, nat_eq, if◌then◌else◌, Result, ok, throw,
}
use mathlib.Core.List.{reverse}

pub data Duration : Type 0 where
  num : ℕ → Duration
  text : List ℕ → Duration

pub data DurationError : Type 0 where
  invalid_duration : List ℕ → DurationError

-- White space and line ends, the same for `trim` and for `\s`.
unfoldable pub is_space : ℕ → Bool
is_space c =
    (leb 9 c && leb c 13)
    || nat_eq c 32
    || nat_eq c 0xa0
    || nat_eq c 0x1680
    || (leb 0x2000 c && leb c 0x200a)
    || nat_eq c 0x2028
    || nat_eq c 0x2029
    || nat_eq c 0x202f
    || nat_eq c 0x205f
    || nat_eq c 0x3000
    || nat_eq c 0xfeff

-- `\d`
unfoldable pub is_digit : ℕ → Bool
is_digit c = leb b'0' c && leb c b'9'

unfoldable pub drop_while : (ℕ → Bool) → List ℕ → List ℕ
drop_while p [] = []
drop_while p (c ∷ cs) = if p c then drop_while p cs else c ∷ cs

unfoldable pub take_while : (ℕ → Bool) → List ℕ → List ℕ
take_while p [] = []
take_while p (c ∷ cs) = if p c then c ∷ take_while p cs else []

-- `d.trim()`
unfoldable pub trim : List ℕ → List ℕ
unfolding drop_while is_space
trim d = reverse (drop_while is_space (reverse (drop_while is_space d)))

-- `Number(m[1])`
unfoldable pub to_number : ℕ → List ℕ → ℕ
to_number acc [] = acc
to_number acc (c ∷ cs) = to_number (acc * 10 + (c - b'0')) cs

pub data TimeUnit : Type 0 where
  ms s m h d : TimeUnit

-- The group `(ms|s|m|h|d)$`: what is left of the text must be one unit.
unfoldable pub read_unit : List ℕ → Option TimeUnit
read_unit [] = none
read_unit (c ∷ []) =
    if nat_eq c b's'
    then some s
    else if nat_eq c b'm'
    then some m
    else if nat_eq c b'h'
    then some h
    else if nat_eq c b'd'
    then some d
    else none
read_unit (c ∷ c' ∷ []) = if nat_eq c b'm' && nat_eq c' b's' then some ms else none
read_unit (c ∷ c' ∷ _ ∷ _) = none

abbrev pub factor : TimeUnit → ℕ
factor ms = 1
factor s = 1_000
factor m = 60_000
factor h = 3_600_000
factor d = 86_400_000

-- Both groups matched, the first with one digit at least.
pub match_of : List ℕ → Option TimeUnit → Option (List ℕ × TimeUnit)
match_of [] unit = none
match_of (c ∷ digits) none = none
match_of (c ∷ digits) (some unit) = some (c ∷ digits, unit)

-- `/^(\d+)\s*(ms|s|m|h|d)$/.exec(…)`: no unit begins with a digit or a space, so the greedy
-- repetitions never give anything back.
unfoldable pub exec : List ℕ → Option (List ℕ × TimeUnit)
unfolding match_of
exec cs =
    match_of (take_while is_digit cs) (read_unit (drop_while is_space (drop_while is_digit cs)))

abbrev pub worth : List ℕ → Option (List ℕ × TimeUnit) → Result DurationError ℕ
worth t none = throw (invalid_duration t)
worth t (some (digits, unit)) = ok (to_number 0 digits * factor unit)

unfoldable pub parse_duration : Duration → Result DurationError ℕ
parse_duration (num n) = ok n
parse_duration (text t) = worth t (exec (trim t))
