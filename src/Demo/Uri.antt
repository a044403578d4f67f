-- ===== src/Demo/Uri.antt =====
-- What demo/src/rules.ts uses of the language on texts, each the list of its code points, a
-- surrogate that stands alone included:
-- encodeURIComponent, split, includes, startsWith and toLowerCase.
pub mod Safe
use test_assestment.Common.{
  ℕ, ◌+◌, ◌/◌, ◌%◌, Bool, true, false, ◌&&◌, ◌||◌, Option, none, some, List, [], ◌∷◌, ◌++◌, nat_eq,
  ltb, leb, if◌then◌else◌, codes,
}

unfoldable pub is_member : ℕ → List ℕ → Bool
is_member c [] = false
is_member c (x ∷ xs) = nat_eq c x || is_member c xs

abbrev pub is_between : ℕ → ℕ → ℕ → Bool
is_between a b c = leb a c && leb c b

-- What `encodeURIComponent` leaves as it is.
unfoldable pub is_unreserved : ℕ → Bool
unfolding is_member
is_unreserved c =
    is_between b'A' b'Z' c
    || (is_between b'a' b'z' c || (is_between b'0' b'9' c || is_member c (codes "-_.!~*'()")))

abbrev pub hex_digit : ℕ → ℕ
hex_digit d = if ltb d 10 then b'0' + d else 55 + d

-- A byte, as `%XX`.
abbrev pub percent : ℕ → List ℕ
percent b = b'%' ∷ hex_digit (b / 16 % 16) ∷ hex_digit (b % 16) ∷ []

-- The bytes of UTF-8.
unfoldable pub utf8 : ℕ → List ℕ
utf8 c =
    if ltb c 128
    then percent c
    else if ltb c 2_048
    then percent (192 + c / 64) ++ percent (128 + c % 64)
    else if ltb c 65_536
    then percent (224 + c / 4_096) ++ (percent (128 + c / 64 % 64) ++ percent (128 + c % 64))
    else percent (240 + c / 262_144)
      ++ (percent (128 + c / 4_096 % 64) ++ (percent (128 + c / 64 % 64) ++ percent (128 + c % 64)))

-- A surrogate that stands alone has no bytes: `encodeURIComponent` throws a URIError, here none.
unfoldable pub encode_code : ℕ → Option (List ℕ)
unfolding is_unreserved utf8
encode_code c =
    if is_unreserved c
    then some (c ∷ [])
    else if is_between 55_296 57_343 c
    then none
    else some (utf8 c)

abbrev pub joined : Option (List ℕ) → Option (List ℕ) → Option (List ℕ)
joined none s = none
joined (some r) none = none
joined (some r) (some s) = some (r ++ s)

unfoldable pub encode_uri_component : List ℕ → Option (List ℕ)
unfolding encode_code
encode_uri_component [] = some []
encode_uri_component (c ∷ s) = joined (encode_code c) (encode_uri_component s)

-- `s.split('/')`
unfoldable pub split_at_slash : List ℕ → List (List ℕ)
split_at_slash [] = [] ∷ []
split_at_slash (c ∷ s) = elim (split_at_slash s) [
  | [] ↦ [] ∷ []
  | ◌∷◌ part parts ↦ if nat_eq c b'/' then [] ∷ part ∷ parts else (c ∷ part) ∷ parts
]

unfoldable pub begins_with : List ℕ → List ℕ → Bool
begins_with [] s = true
begins_with (c ∷ t) [] = false
begins_with (c ∷ t) (d ∷ s) = nat_eq c d && begins_with t s

unfoldable pub includes : List ℕ → List ℕ → Bool
unfolding begins_with
includes t [] = begins_with t []
includes t (c ∷ s) = begins_with t (c ∷ s) || includes t s

-- Besides A to Z, two characters become letters of ASCII: U+0130, an i and a dot, and U+212A, a k.
-- The others stay as they are, which no search for a text of ASCII sees.
abbrev pub lower_case : ℕ → List ℕ
lower_case c =
    if is_between b'A' b'Z' c
    then (c + 32) ∷ []
    else if nat_eq c 304
    then b'i' ∷ 775 ∷ []
    else if nat_eq c 8_490
    then b'k' ∷ []
    else c ∷ []

unfoldable pub to_lower_case : List ℕ → List ℕ
to_lower_case [] = []
to_lower_case (c ∷ s) = lower_case c ++ to_lower_case s
