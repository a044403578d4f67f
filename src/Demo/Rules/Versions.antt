-- ===== src/Demo/Rules/Versions.antt =====
-- The tags that a breaking release has, against the texts that the pattern stands for.
use test_assestment.Common.{
  ℕ, zero, suc, ◌≡◌, refl, ap, ◌↔◌, inl, inr, Bool, true, false, ◌&&◌, ◌||◌, List, [], ◌∷◌, ◌++◌,
  All, arith, Bool-cases, codes,
}
use test_assestment.Demo.Uri.{is_between}
use test_assestment.Demo.Rules.Conditions.{digits_to_end, parts_to_end, is_version, is_nonempty}

abbrev pub IsDigits : List ℕ → Type 0
IsDigits ds = All (λ c. is_between b'0' b'9' c ≡ true) ds

digits_to_end-IsDigits :
    (seen : Bool) (s : List ℕ)
    → digits_to_end seen s ≡ true
    → IsDigits s × ((seen || is_nonempty s) ≡ true)
unfolding digits_to_end
digits_to_end-IsDigits seen [] h = (tt, ground arith)
digits_to_end-IsDigits seen (c ∷ s) h =
    let (ds, _) = digits_to_end-IsDigits true s (ground arith) in ((ground arith, ds), ground arith)

IsDigits-digits_to_end :
    (seen : Bool) (s : List ℕ)
    → IsDigits s
    → (seen || is_nonempty s) ≡ true
    → digits_to_end seen s ≡ true
unfolding digits_to_end
IsDigits-digits_to_end seen [] h n = ground arith
IsDigits-digits_to_end seen (c ∷ s) (d, h) n =
    let rest = IsDigits-digits_to_end true s h refl in ground arith

-- Digits that a stop ends, so many times, and digits.
abbrev pub Parts : ℕ → Bool → List ℕ → Type 0
Parts zero seen s = IsDigits s × ((seen || is_nonempty s) ≡ true)
Parts (suc stops) seen s =
    (ds : List ℕ) × (rest : List ℕ) × (s ≡ ds ++ b'.' ∷ rest)
    × IsDigits ds
    × ((seen || is_nonempty ds) ≡ true)
    × Parts stops false rest

parts_to_end-Parts :
    (stops : ℕ) (seen : Bool) (s : List ℕ) → parts_to_end stops seen s ≡ true → Parts stops seen s
unfolding parts_to_end
parts_to_end-Parts zero seen s h = digits_to_end-IsDigits seen s h
parts_to_end-Parts (suc stops) seen [] h = ground arith
parts_to_end-Parts (suc stops) seen (c ∷ s) h =
    elim (Bool-cases (is_between b'0' b'9' c && parts_to_end (suc stops) true s)) [
      | inl b ↦
          let (ds, rest, e, d, n, p) = parts_to_end-Parts (suc stops) true s (ground arith) in
          (c ∷ ds, rest, ap (◌∷◌ c) e, (ground arith, d), ground arith, p)
      | inr b ↦
          let stop : c ≡ b'.' = ground arith in
          let left = parts_to_end-Parts stops false s (ground arith) in
          ([], s, cc stop, tt, ground arith, left)
    ]

Parts-parts_to_end :
    (stops : ℕ) (seen : Bool) (s : List ℕ) → Parts stops seen s → parts_to_end stops seen s ≡ true
unfolding parts_to_end
Parts-parts_to_end zero seen s (d, n) = IsDigits-digits_to_end seen s d n
Parts-parts_to_end (suc stops) seen s ([], rest, e, d, n, p) =
    let h = Parts-parts_to_end stops false rest p in rw e (ground arith)
Parts-parts_to_end (suc stops) seen s (c ∷ ds, rest, e, (b, d), n, p) =
    let h = Parts-parts_to_end (suc stops) true (ds ++ b'.' ∷ rest) (ds, rest, refl, d, refl, p) in
    rw e (ground arith)

abbrev pub IsNumber : List ℕ → Type 0
IsNumber ds = IsDigits ds × (is_nonempty ds ≡ true)

abbrev pub IsVersion : List ℕ → Type 0
IsVersion s =
    (a : List ℕ) × (b : List ℕ) × (c : List ℕ) × (s
      ≡ codes "v" ++ (a ++ (codes "." ++ (b ++ (codes "." ++ c)))))
    × IsNumber a
    × IsNumber b
    × IsNumber c

is_version-IsVersion : (s : List ℕ) → is_version s ≡ true → IsVersion s
unfolding is_version
is_version-IsVersion [] h = ground arith
is_version-IsVersion (x ∷ s) h =
    let (a, rest, e, d, n, (b, c, e', d', n', (d'', n''))) =
      parts_to_end-Parts 2 false s (ground arith) in
    let start : x ≡ b'v' = ground arith in
    (a, b, c, cc (start, e, e'), (d, n), (d', n'), (d'', n''))

IsVersion-is_version : (s : List ℕ) → IsVersion s → is_version s ≡ true
unfolding is_version
IsVersion-is_version s (a, b, c, e, (d, n), (d', n'), (d'', n'')) =
    let last : Parts 1 false (b ++ (codes "." ++ c)) = (b, c, refl, d', n', (d'', n'')) in
    rw e (
      Parts-parts_to_end 2 false (a ++ (codes "." ++ (b ++ (codes "." ++ c))))
        (a, _, refl, d, n, last))

-- The pattern of breaking releases accepts a tag exactly when it is a v and three numbers with a
-- full stop between each two, where a number is one digit or more.
pub is_version_iff : (s : List ℕ) → (is_version s ≡ true) ↔ IsVersion s
is_version_iff s = (is_version-IsVersion s, IsVersion-is_version s)
