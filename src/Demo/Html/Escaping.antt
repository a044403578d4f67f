-- ===== src/Demo/Html/Escaping.antt =====
-- An escaped text holds no markup, and a reader of HTML gets the text back.
use test_assestment.Common.{
  ℕ, ◌≡◌, refl, ap, ◌∙◌, Bool, false, ◌||◌, List, [], ◌∷◌, ◌++◌, Option, none, some, nat_eq,
  if◌then◌else◌, codes, codes_eq, arith, Bool-cases, inl, inr, filter, filter-append,
}
use mathlib.Core.List.{append_assoc}
use test_assestment.Demo.Html.{replace_all, escape_html}

-- What one character becomes.
pub escape_one : ℕ → List ℕ
escape_one c =
    if nat_eq c b'&'
    then codes "&amp;"
    else if nat_eq c b'<'
    then codes "&lt;"
    else if nat_eq c b'>'
    then codes "&gt;"
    else if nat_eq c b'"'
    then codes "&quot;"
    else if nat_eq c b'\''
    then codes "&#39;"
    else c ∷ []

data Special (c : ℕ) : Type 0 where
  amp : c ≡ b'&' → Special c
  lt : c ≡ b'<' → Special c
  gt : c ≡ b'>' → Special c
  quot : c ≡ b'"' → Special c
  apos : c ≡ b'\'' → Special c
  plain :
      nat_eq c b'&' ≡ false
      → nat_eq c b'<' ≡ false
      → nat_eq c b'>' ≡ false
      → nat_eq c b'"' ≡ false
      → nat_eq c b'\'' ≡ false
      → Special c

special : (c : ℕ) → Special c
special c = elim (Bool-cases (nat_eq c b'&')) [
  | inl e ↦ amp (ground arith)
  | inr e1 ↦ elim (Bool-cases (nat_eq c b'<')) [
    | inl e ↦ lt (ground arith)
    | inr e2 ↦ elim (Bool-cases (nat_eq c b'>')) [
      | inl e ↦ gt (ground arith)
      | inr e3 ↦ elim (Bool-cases (nat_eq c b'"')) [
        | inl e ↦ quot (ground arith)
        | inr e4 ↦ elim (Bool-cases (nat_eq c b'\'')) [
          | inl e ↦ apos (ground arith)
          | inr e5 ↦ plain e1 e2 e3 e4 e5
        ]
      ]
    ]
  ]
]

replace_all-append :
    (c : ℕ) (t xs ys : List ℕ)
    → replace_all c t (xs ++ ys) ≡ replace_all c t xs ++ replace_all c t ys
unfolding replace_all
replace_all-append c t [] ys = refl
replace_all-append c t (x ∷ xs) ys = elim (Bool-cases (nat_eq x c)) [
  | inl b ↦ rw (b, replace_all-append c t xs ys, append_assoc)
  | inr b ↦ rw (b, replace_all-append c t xs ys)
]

escape_html-append : (xs ys : List ℕ) → escape_html (xs ++ ys) ≡ escape_html xs ++ escape_html ys
unfolding escape_html
escape_html-append xs ys = simp replace_all-append

escape_html-Special : {c : ℕ} → Special c → escape_html (c ∷ []) ≡ escape_one c
unfolding escape_html escape_one
escape_html-Special (amp e) = rw e
escape_html-Special (lt e) = rw e
escape_html-Special (gt e) = rw e
escape_html-Special (quot e) = rw e
escape_html-Special (apos e) = rw e
escape_html-Special (plain a b c d e) = rw (a, b, c, d, e)

pub escape_html-cons : (c : ℕ) (s : List ℕ) → escape_html (c ∷ s) ≡ escape_one c ++ escape_html s
escape_html-cons c s =
    escape_html-append (c ∷ []) s ∙ ap (λ t. t ++ escape_html s) (escape_html-Special (special c))

-- `&name;` as a browser reads it.
meaning : List ℕ → List ℕ
meaning name =
    if codes_eq name (codes "amp")
    then b'&' ∷ []
    else if codes_eq name (codes "lt")
    then b'<' ∷ []
    else if codes_eq name (codes "gt")
    then b'>' ∷ []
    else if codes_eq name (codes "quot")
    then b'"' ∷ []
    else if codes_eq name (codes "#39")
    then b'\'' ∷ []
    else b'&' ∷ (name ++ b';' ∷ [])

-- Reads a text; the second argument is the part of a name that has been read behind a `&`.
unfoldable pub decode : List ℕ → Option (List ℕ) → List ℕ
unfolding meaning
decode [] none = []
decode [] (some name) = b'&' ∷ name
decode (c ∷ s) none =
    let named = decode s (some []) in
    let plain = c ∷ decode s none in if nat_eq c b'&' then named else plain
decode (c ∷ s) (some name) =
    let ended = meaning name ++ decode s none in
    let more = decode s (some (name ++ c ∷ [])) in if nat_eq c b';' then ended else more

decode-escape_one :
    {c : ℕ} (s : List ℕ) → Special c → decode (escape_one c ++ s) none ≡ c ∷ decode s none
unfolding decode escape_one codes_eq
decode-escape_one s (amp e) = rw e
decode-escape_one s (lt e) = rw e
decode-escape_one s (gt e) = rw e
decode-escape_one s (quot e) = rw e
decode-escape_one s (apos e) = rw e
decode-escape_one s (plain a b c d e) = rw (a, b, c, d, e, a)

-- A reader that replaces the entities &amp;, &lt;, &gt;, &quot; and &#39; of an escaped text gets
-- the text back, for every text.
pub decode-escape_html : (s : List ℕ) → decode (escape_html s) none ≡ s
decode-escape_html [] = unfold escape_html decode replace_all in refl
decode-escape_html (c ∷ s) =
    rw (escape_html-cons, decode-escape_one (escape_html s) (special c))
      (ap (◌∷◌ c) (decode-escape_html s))

-- The characters with which a text could end the element or the attribute that it stands in.
abbrev pub is_markup : ℕ → Bool
is_markup c = nat_eq c b'<' || (nat_eq c b'>' || (nat_eq c b'"' || nat_eq c b'\''))

abbrev pub markup : List ℕ → List ℕ
markup s = filter is_markup s

markup-escape_one : {c : ℕ} → Special c → markup (escape_one c) ≡ []
unfolding escape_one
markup-escape_one (amp e) = rw e
markup-escape_one (lt e) = rw e
markup-escape_one (gt e) = rw e
markup-escape_one (quot e) = rw e
markup-escape_one (apos e) = rw e
markup-escape_one (plain a b c d e) = rw (a, b, c, d, e, b, c, d, e)

pub markup-escape_html : (s : List ℕ) → markup (escape_html s) ≡ []
markup-escape_html [] = unfold escape_html replace_all in refl
markup-escape_html (c ∷ s) =
    rw (escape_html-cons, filter-append, markup-escape_one (special c)) (markup-escape_html s)
