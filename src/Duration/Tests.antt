-- ===== src/Duration/Tests.antt =====
-- Durations that the demo uses, and the theorem at one.
use test_assestment.Common.{ℕ, ◌≡◌, refl, List, [], ◌∷◌, ok, throw, ◌↔◌}
use test_assestment.Duration.{
  num, text, parse_duration, invalid_duration, exec, trim, take_while, drop_while, is_space,
  is_digit, to_number, read_unit,
}
use test_assestment.Duration.Accepted

-- " 10 ms"
abbrev ten_ms : List ℕ
ten_ms = b' ' ∷ b'1' ∷ b'0' ∷ b' ' ∷ b'm' ∷ b's' ∷ []

durations :
    (parse_duration (num 250) ≡ ok 250)
    × (parse_duration (text (b'5' ∷ b'm' ∷ [])) ≡ ok 300_000)
    × (parse_duration (text ten_ms) ≡ ok 10)
    × (parse_duration (text (b'5' ∷ [])) ≡ throw (invalid_duration (b'5' ∷ [])))
unfolding parse_duration exec trim take_while drop_while is_space is_digit to_number read_unit
durations = (refl, refl, refl, refl)

parse_duration_iff_example : (parse_duration (text ten_ms) ≡ ok 10) ↔ Accepted.Reading ten_ms 10
parse_duration_iff_example = Accepted.parse_duration_iff ten_ms 10
