-- ===== src/Duration/Accepted.antt =====
-- Which texts are durations, and what they are worth.
use mathlib.Core.List.{reverse, reverse-append, reverse-reverse}
use test_assestment.Common.{
  ℕ, ◌*◌, ◌≡◌, refl, sym, ap, ap₂, ◌∙◌, ◌≢◌, Bool, true, Option, none, some, List, [], ◌∷◌, ◌++◌,
  ok, All, arith, Bool-cases, inl, inr, ◌↔◌,
}
use test_assestment.Duration.{
  text, is_space, is_digit, drop_while, take_while, trim, to_number, TimeUnit, read_unit, factor,
  exec, match_of, worth, parse_duration,
}
use test_assestment.Duration.Written.{
  Spaces-reverse, unit_text, Spaces, Digits, written, parse_duration-written,
}

module _ (p : ℕ → Bool) where
  take_while-drop_while : (xs : List ℕ) → xs ≡ take_while p xs ++ drop_while p xs
  unfolding take_while drop_while
  take_while-drop_while [] = refl
  take_while-drop_while (x ∷ xs) = elim (Bool-cases (p x)) [
    | inl b ↦ rw b (ap (◌∷◌ x) (take_while-drop_while xs))
    | inr b ↦ rw b
  ]

  take_while-All : (xs : List ℕ) → All (λ c. p c ≡ true) (take_while p xs)
  unfolding take_while
  take_while-All [] = tt
  take_while-All (x ∷ xs) = elim (Bool-cases (p x)) [
    | inl b ↦ rw b (b, take_while-All xs)
    | inr b ↦ rw b tt
  ]

read_unit_sound : (cs : List ℕ) (u : TimeUnit) → read_unit cs ≡ some u → cs ≡ unit_text u
unfolding read_unit
read_unit_sound [] u e = cc
read_unit_sound (c ∷ []) u e = ground arith
read_unit_sound (c ∷ c' ∷ []) u e = ground arith
read_unit_sound (c ∷ c' ∷ c'' ∷ cs) u e = cc

match_of_sound :
    (ds ds' : List ℕ) (o : Option TimeUnit) (u : TimeUnit)
    → match_of ds o ≡ some (ds', u)
    → (ds ≡ ds') × (ds ≢ []) × (o ≡ some u)
unfolding match_of
match_of_sound [] ds' o u e = cc
match_of_sound (c ∷ ds) ds' none u e = cc
match_of_sound (c ∷ ds) ds' (some v) u e = (ground arith, λ f. cc, ground arith)

exec_sound :
    (cs ds : List ℕ) (u : TimeUnit)
    → exec cs ≡ some (ds, u)
    → (sp : List ℕ) × Digits ds × Spaces sp × (cs ≡ ds ++ (sp ++ unit_text u))
unfolding exec
exec_sound cs ds u e =
    let rest = drop_while is_digit cs in
    let (same, ne, unit) = match_of_sound (take_while is_digit cs) ds _ u e in
    (
      take_while is_space rest,
      rw (← same) (record { digits = take_while-All is_digit cs; nonempty = ne }),
      take_while-All is_space rest,
      take_while-drop_while is_digit cs
          ∙ ap₂ ◌++◌ same (
              take_while-drop_while is_space rest
              ∙ ap (◌++◌ (take_while is_space rest)) (read_unit_sound _ u unit)),
    )

trim_sound :
    (t : List ℕ) → (pre post : List ℕ) × Spaces pre × Spaces post × (t ≡ pre ++ (trim t ++ post))
unfolding trim
trim_sound t =
    let back = reverse (drop_while is_space t) in
    let post = take_while is_space back in
    (
      take_while is_space t,
      reverse post,
      take_while-All is_space t,
      Spaces-reverse post (take_while-All is_space back),
      take_while-drop_while is_space t
          ∙ ap (◌++◌ (take_while is_space t)) (
              sym (reverse-reverse (drop_while is_space t))
              ∙ ap reverse (take_while-drop_while is_space back)
              ∙ reverse-append post (drop_while is_space back)),
    )

-- How a text is read as a duration.
pub record Reading (t : List ℕ) (v : ℕ) : Type 0 where
  pub before : List ℕ
  pub amount : List ℕ
  pub between : List ℕ
  pub unit : TimeUnit
  pub behind : List ℕ
  pub spaces : Spaces before × Spaces between × Spaces behind
  pub is_amount : Digits amount
  pub whole : t ≡ written before amount between unit behind
  pub value : v ≡ to_number 0 amount * factor unit

worth_sound :
    (t : List ℕ) (o : Option (List ℕ × TimeUnit)) (v : ℕ)
    → worth t o ≡ ok v
    → (ds : List ℕ) × (u : TimeUnit) × (o ≡ some (ds, u)) × (v ≡ to_number 0 ds * factor u)
worth_sound t none v e = cc
worth_sound t (some (ds, u)) v e = (ds, u, refl, ground arith)

Reading-of : (t : List ℕ) (v : ℕ) → parse_duration (text t) ≡ ok v → Reading t v
unfolding parse_duration
Reading-of t v e =
    let (ds, u, found, val) = worth_sound t (exec (trim t)) v e in
    let (sp, g, b, inner) = exec_sound (trim t) ds u found in
    let (pre, post, a, c, outer) = trim_sound t in
    record {
      before = pre;
      amount = ds;
      between = sp;
      unit = u;
      behind = post;
      spaces = (a, b, c);
      is_amount = g;
      whole = outer ∙ ap (λ l. pre ++ (l ++ post)) inner;
      value = val;
    }

of_Reading : (t : List ℕ) (v : ℕ) → Reading t v → parse_duration (text t) ≡ ok v
of_Reading t v r =
    ap (λ l. parse_duration (text l)) r.whole
    ∙ parse_duration-written r.before r.amount r.between r.unit r.behind r.spaces.0 r.is_amount
        r.spaces.1 r.spaces.2
    ∙ ap ok (sym r.value)

-- A text is accepted with the value v exactly when it consists of white space, decimal digits (one
-- at least), white space, one of the units ms, s, m, h and d, and white space, and v is the number
-- times the milliseconds of the unit.
pub parse_duration_iff : (t : List ℕ) (v : ℕ) → (parse_duration (text t) ≡ ok v) ↔ Reading t v
parse_duration_iff t v = (Reading-of t v, of_Reading t v)
