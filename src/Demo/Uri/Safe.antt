-- ===== src/Demo/Uri/Safe.antt =====
-- The characters of an encoded component of a path.
use test_assestment.Common.{
  ℕ, ◌+◌, ◌/◌, ◌%◌, ◌<◌, ◌≡◌, refl, Bool, true, false, not, ◌&&◌, ◌||◌, Option, none, some, leb,
  Bool-cases, inl, inr, List, [], ◌∷◌, ◌++◌, nat_eq, All, All-append, arith, ltb, if◌then◌else◌,
}
use test_assestment.Demo.Uri.{
  is_unreserved, is_member, percent, hex_digit, utf8, encode_code, joined, encode_uri_component,
}

abbrev pub is_plain : ℕ → Bool
is_plain c = is_unreserved c || nat_eq c b'%'

hex_digit-is_plain : (d : ℕ) → d < 16 → is_plain (hex_digit d) ≡ true
unfolding is_unreserved is_member
hex_digit-is_plain d lt = ground arith

percent-All : (b : ℕ) → All (λ c. is_plain c ≡ true) (percent b)
unfolding is_unreserved is_member
percent-All b = (
  refl,
  (hex_digit-is_plain (b / 16 % 16) (omega arith), (hex_digit-is_plain (b % 16) (omega arith), tt)),
)

if_All :
    (p : ℕ → Bool) (b : Bool) (xs ys : List ℕ)
    → (b ≡ true → All (λ c. p c ≡ true) xs)
    → All (λ c. p c ≡ true) ys
    → All (λ c. p c ≡ true) (if b then xs else ys)
if_All p true xs ys h g = h refl
if_All p false xs ys h g = g

and_percent :
    (b : ℕ) (s : List ℕ)
    → All (λ c. is_plain c ≡ true) s
    → All (λ c. is_plain c ≡ true) (percent b ++ s)
and_percent b s h = All-append _ (percent b) s (percent-All b) h

utf8-All : (c : ℕ) → All (λ x. is_plain x ≡ true) (utf8 c)
unfolding utf8
utf8-All c =
    let last = percent (128 + c % 64) in
    let one = percent-All (128 + c % 64) in
    let two = and_percent (128 + c / 64 % 64) last one in
    let three = and_percent (128 + c / 4_096 % 64) (percent (128 + c / 64 % 64) ++ last) two in
    let rest = percent (128 + c / 4_096 % 64) ++ (percent (128 + c / 64 % 64) ++ last) in
    if_All is_plain (ltb c 128) (percent c) _ (λ e. percent-All c)
      (if_All is_plain (ltb c 2_048) _ _ (λ e. and_percent (192 + c / 64) last one)
        (if_All is_plain (ltb c 65_536) _ _
          (λ e. and_percent (224 + c / 4_096) (percent (128 + c / 64 % 64) ++ last) two)
          (and_percent (240 + c / 262_144) rest three)))

-- No surrogate stands alone in the text.
abbrev pub is_well_formed : List ℕ → Bool
is_well_formed [] = true
is_well_formed (c ∷ s) = not (leb 55_296 c && leb c 57_343) && is_well_formed s

-- What an encoded text is, if its text is well-formed, and that it is none otherwise.
abbrev pub Encodes : Bool → Option (List ℕ) → Type 0
Encodes true none = ⊥
Encodes true (some t) = All (λ c. is_plain c ≡ true) t
Encodes false none = Unit
Encodes false (some t) = ⊥

Encodes-joined :
    (a b : Bool) (x y : Option (List ℕ)) → Encodes a x → Encodes b y → Encodes (a && b) (joined x y)
Encodes-joined true true (some t) (some u) h g = All-append _ t u h g
Encodes-joined true true none y h g = absurd h
Encodes-joined true true (some t) none h g = absurd g
Encodes-joined true false (some t) none h g = tt
Encodes-joined true false (some t) (some u) h g = absurd g
Encodes-joined true false none y h g = tt
Encodes-joined false b none y h g = tt
Encodes-joined false b (some t) y h g = absurd h

surrogate-is_reserved : (c : ℕ) → is_unreserved c ≡ true → (leb 55_296 c && leb c 57_343) ≡ false
unfolding is_unreserved is_member
surrogate-is_reserved c h = ground arith

encode_code-Encodes : (c : ℕ) → Encodes (not (leb 55_296 c && leb c 57_343)) (encode_code c)
unfolding encode_code
encode_code-Encodes c = elim (Bool-cases (is_unreserved c)) [
  | inl e ↦ rw (e, surrogate-is_reserved c e) (ground arith, tt)
  | inr e ↦ elim (Bool-cases (leb 55_296 c && leb c 57_343)) [
    | inl f ↦ rw (e, f) tt
    | inr f ↦ rw (e, f) (utf8-All c)
  ]
]

pub encode_uri_component-Encodes :
    (s : List ℕ) → Encodes (is_well_formed s) (encode_uri_component s)
unfolding encode_uri_component
encode_uri_component-Encodes [] = tt
encode_uri_component-Encodes (c ∷ s) =
    Encodes-joined (not (leb 55_296 c && leb c 57_343)) (is_well_formed s) (encode_code c)
      (encode_uri_component s) (encode_code-Encodes c) (encode_uri_component-Encodes s)
