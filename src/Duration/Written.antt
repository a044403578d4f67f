-- ===== src/Duration/Written.antt =====
-- A duration that is written out in spaces, digits, spaces, a unit and spaces is accepted.
use mathlib.Core.List.{
  reverse, reverse-cons, append-nil, append_assoc, reverse-append, reverse-reverse,
}
use test_assestment.Common.{
  ℕ, ◌*◌, ◌≡◌, refl, sym, ap, ◌∙◌, ◌≢◌, Bool, true, false, some, List, [], ◌∷◌, ◌++◌, ok, All,
  All-append, arith,
}
use test_assestment.Duration.{
  text, is_space, is_digit, drop_while, take_while, trim, to_number, TimeUnit, ms, s, m, h, d,
  read_unit, factor, exec, match_of, parse_duration,
}

abbrev pub unit_text : TimeUnit → List ℕ
unit_text ms = b'm' ∷ b's' ∷ []
unit_text s = b's' ∷ []
unit_text m = b'm' ∷ []
unit_text h = b'h' ∷ []
unit_text d = b'd' ∷ []

abbrev pub Spaces : List ℕ → Type 0
Spaces cs = All (λ c. is_space c ≡ true) cs

-- Digits, at least one.
pub record Digits (cs : List ℕ) : Type 0 where
  pub digits : All (λ c. is_digit c ≡ true) cs
  pub nonempty : cs ≢ []

module _ (p : ℕ → Bool) where
  drop_while-append :
      (xs ys : List ℕ) → All (λ c. p c ≡ true) xs → drop_while p (xs ++ ys) ≡ drop_while p ys
  unfolding drop_while
  drop_while-append [] ys a = refl
  drop_while-append (x ∷ xs) ys (e, a) = rw e (drop_while-append xs ys a)

  take_while-append :
      (xs ys : List ℕ) → All (λ c. p c ≡ true) xs → take_while p (xs ++ ys) ≡ xs ++ take_while p ys
  unfolding take_while
  take_while-append [] ys a = refl
  take_while-append (x ∷ xs) ys (e, a) = rw e (ap (◌∷◌ x) (take_while-append xs ys a))

  drop_while-stop : (x : ℕ) (xs : List ℕ) → p x ≡ false → drop_while p (x ∷ xs) ≡ x ∷ xs
  unfolding drop_while
  drop_while-stop x xs e = rw e

  take_while-stop : (x : ℕ) (xs : List ℕ) → p x ≡ false → take_while p (x ∷ xs) ≡ []
  unfolding take_while
  take_while-stop x xs e = rw e

digit-not_space : (c : ℕ) → is_digit c ≡ true → is_space c ≡ false
unfolding is_digit is_space
digit-not_space c e = ground arith

space-not_digit : (c : ℕ) → is_space c ≡ true → is_digit c ≡ false
unfolding is_digit is_space
space-not_digit c e = ground arith

pub Spaces-reverse : (cs : List ℕ) → Spaces cs → Spaces (reverse cs)
Spaces-reverse [] a = tt
Spaces-reverse (c ∷ cs) (e, a) =
    rw (reverse-cons c cs)
      (All-append (λ x. is_space x ≡ true) (reverse cs) (c ∷ []) (Spaces-reverse cs a) (e, tt))

-- The spaces at both ends of a text that begins and ends with something else.
trim-append :
    (pre post : List ℕ) (x y : ℕ) (xs ys : List ℕ)
    → Spaces pre
    → Spaces post
    → is_space x ≡ false
    → is_space y ≡ false
    → x ∷ xs ≡ reverse (y ∷ ys)
    → trim (pre ++ (x ∷ xs ++ post)) ≡ x ∷ xs
unfolding trim
trim-append pre post x y xs ys sp sq ex ey e =
    let back : reverse (x ∷ xs) ≡ y ∷ ys = ap reverse e ∙ reverse-reverse (y ∷ ys) in
    rw (
      drop_while-append is_space pre (x ∷ xs ++ post) sp,
      drop_while-stop is_space x _ ex,
      reverse-append (x ∷ xs) post,
      drop_while-append is_space (reverse post) _ (Spaces-reverse post sq),
      back,
      drop_while-stop is_space y ys ey,
      ← e,
    )

unit-not_digit :
    (u : TimeUnit)
    → (c : ℕ) × (cs : List ℕ) × (unit_text u ≡ c ∷ cs) × (is_digit c ≡ false) × (is_space c ≡ false)
unfolding is_digit is_space
unit-not_digit ms = (b'm', b's' ∷ [], refl, refl, refl)
unit-not_digit s = (b's', [], refl, refl, refl)
unit-not_digit m = (b'm', [], refl, refl, refl)
unit-not_digit h = (b'h', [], refl, refl, refl)
unit-not_digit d = (b'd', [], refl, refl, refl)

read_unit-unit_text : (u : TimeUnit) → read_unit (unit_text u) ≡ some u
unfolding read_unit
read_unit-unit_text ms = refl
read_unit-unit_text s = refl
read_unit-unit_text m = refl
read_unit-unit_text h = refl
read_unit-unit_text d = refl

-- Behind the digits come spaces and a unit, and none of these is a digit.
stop-digits :
    (sp : List ℕ) (u : TimeUnit)
    → Spaces sp
    → (take_while is_digit (sp ++ unit_text u) ≡ [])
      × (drop_while is_digit (sp ++ unit_text u) ≡ sp ++ unit_text u)
stop-digits [] u a =
    let (c, cs, e, nd, ns) = unit-not_digit u in
    rw e (take_while-stop is_digit c cs nd, drop_while-stop is_digit c cs nd)
stop-digits (x ∷ sp) u (q, a) =
    let nd = space-not_digit x q in
    (take_while-stop is_digit x _ nd, drop_while-stop is_digit x _ nd)

drop-Spaces :
    (sp : List ℕ) (u : TimeUnit) → Spaces sp → drop_while is_space (sp ++ unit_text u) ≡ unit_text u
drop-Spaces sp u a =
    let (c, cs, e, nd, ns) = unit-not_digit u in
    drop_while-append is_space sp (unit_text u) a ∙ rw e (drop_while-stop is_space c cs ns)

exec_lem :
    (ds sp : List ℕ) (u : TimeUnit)
    → Digits ds
    → Spaces sp
    → exec (ds ++ (sp ++ unit_text u)) ≡ some (ds, u)
unfolding exec
exec_lem [] sp u g a = absurd (g.nonempty refl)
exec_lem (c ∷ ds) sp u g a =
    let (t, dr) = stop-digits sp u a in
    let front : take_while is_digit (c ∷ ds ++ (sp ++ unit_text u)) ≡ c ∷ ds =
      take_while-append is_digit (c ∷ ds) _ g.digits ∙ rw (t, append-nil) in
    let rest : drop_while is_digit (c ∷ ds ++ (sp ++ unit_text u)) ≡ sp ++ unit_text u =
      drop_while-append is_digit (c ∷ ds) _ g.digits ∙ dr in
    ap
      (λ l.
        match_of l
          (read_unit (drop_while is_space (drop_while is_digit (c ∷ ds ++ (sp ++ unit_text u))))))
      front
    ∙ ap (λ l. match_of (c ∷ ds) (read_unit (drop_while is_space l))) rest
    ∙ rw (drop-Spaces sp u a, read_unit-unit_text u)

unit-last :
    (u : TimeUnit) → (us : List ℕ) × (y : ℕ) × (unit_text u ≡ us ++ y ∷ []) × (is_space y ≡ false)
unfolding is_space
unit-last ms = (b'm' ∷ [], b's', refl, refl)
unit-last s = ([], b's', refl, refl)
unit-last m = ([], b'm', refl, refl)
unit-last h = ([], b'h', refl, refl)
unit-last d = ([], b'd', refl, refl)

last-reverse : (zs : List ℕ) (y : ℕ) → zs ++ y ∷ [] ≡ reverse (y ∷ reverse zs)
last-reverse zs y = sym (reverse-cons y (reverse zs) ∙ ap (λ l. l ++ y ∷ []) (reverse-reverse zs))

-- A text of digits, spaces and a unit, with spaces round it.
abbrev pub written : List ℕ → List ℕ → List ℕ → TimeUnit → List ℕ → List ℕ
written pre ds sp u post = pre ++ ((ds ++ (sp ++ unit_text u)) ++ post)

pub parse_duration-written :
    (pre ds sp : List ℕ) (u : TimeUnit) (post : List ℕ)
    → Spaces pre
    → Digits ds
    → Spaces sp
    → Spaces post
    → parse_duration (text (written pre ds sp u post)) ≡ ok (to_number 0 ds * factor u)
unfolding parse_duration
parse_duration-written pre [] sp u post a g b c = absurd (g.nonempty refl)
parse_duration-written pre (x ∷ ds) sp u post a g b c =
    let (us, y, e, ny) = unit-last u in
    let zs = x ∷ ds ++ (sp ++ us) in
    let ends : x ∷ ds ++ (sp ++ unit_text u) ≡ zs ++ y ∷ [] = rw e (simp append_assoc) in
    rw (
      trim-append pre post x y (ds ++ (sp ++ unit_text u)) (reverse zs) a c
          (digit-not_space x g.digits.0) ny (ends ∙ last-reverse zs y),
      exec_lem (x ∷ ds) sp u g b,
    )
