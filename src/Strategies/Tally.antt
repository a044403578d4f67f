-- ===== src/Strategies/Tally.antt =====
-- A handler reports its rule once: as matched when it returns true, as skipped when it returns
-- false.
use test_assestment.Common.{
  ℕ, suc, ◌+◌, Bool, true, false, List, [], ◌∷◌, ◌++◌, ok, throw, Result-cases, inl, inr, ◌≡◌,
  arith, ap,
}
use test_assestment.Entities.{Error}
use test_assestment.Strategies.{
  RunEvent, matched, skipped, aggregate_appended, enqueued, Run, Step, ◌>>=◌, emit,
}

unfoldable pub matches : List RunEvent → ℕ
matches [] = 0
matches (matched r ∷ es) = suc (matches es)
matches (skipped r reason ∷ es) = matches es
matches (aggregate_appended r a k n ∷ es) = matches es
matches (enqueued r k t ∷ es) = matches es

unfoldable pub skips : List RunEvent → ℕ
skips [] = 0
skips (matched r ∷ es) = skips es
skips (skipped r reason ∷ es) = suc (skips es)
skips (aggregate_appended r a k n ∷ es) = skips es
skips (enqueued r k t ∷ es) = skips es

matches-append : (es fs : List RunEvent) → matches (es ++ fs) ≡ matches es + matches fs
unfolding matches
matches-append [] fs = omega arith
matches-append (matched r ∷ es) fs = omega (arith, matches-append es fs)
matches-append (skipped r reason ∷ es) fs = matches-append es fs
matches-append (aggregate_appended r a k n ∷ es) fs = matches-append es fs
matches-append (enqueued r k t ∷ es) fs = matches-append es fs

skips-append : (es fs : List RunEvent) → skips (es ++ fs) ≡ skips es + skips fs
unfolding skips
skips-append [] fs = omega arith
skips-append (matched r ∷ es) fs = skips-append es fs
skips-append (skipped r reason ∷ es) fs = omega (arith, skips-append es fs)
skips-append (aggregate_appended r a k n ∷ es) fs = skips-append es fs
skips-append (enqueued r k t ∷ es) fs = skips-append es fs

-- A step that returns adds so many matches and skips.
pub record Adds {A : Type 0} (j k : A → ℕ) (m : Step A) : Type 0 where
  pub adds_matches :
      (s : Run) (a : A) → (m s).0 ≡ ok a → matches (m s).1.events ≡ matches s.events + j a
  pub adds_skips : (s : Run) (a : A) → (m s).0 ≡ ok a → skips (m s).1.events ≡ skips s.events + k a

abbrev pub Silent : {A : Type 0} → Step A → Type 0
Silent m = Adds (λ a. 0) (λ a. 0) m

abbrev pub one : Bool → ℕ
one true = 1
one false = 0

abbrev pub zero_if : Bool → ℕ
zero_if true = 0
zero_if false = 1

abbrev pub Verdict : Step Bool → Type 0
Verdict m = Adds one zero_if m

bind-ok :
    {A B : Type 0} (m : Step A) (f : A → Step B) (s : Run) (a : A)
    → (m s).0 ≡ ok a
    → (m >>= f) s ≡ f a (m s).1
unfolding ◌>>=◌
bind-ok m f s a h = rw (h, ◌>>=◌)

bind-throw :
    {A B : Type 0} (m : Step A) (f : A → Step B) (s : Run) (e : Error)
    → (m s).0 ≡ throw e
    → (m >>= f) s ≡ (throw e, (m s).1)
unfolding ◌>>=◌
bind-throw m f s e h = rw (h, ◌>>=◌)

-- A sequence that returned went through its first step.
pub bind-inv :
    {A B : Type 0} (m : Step A) (f : A → Step B) (s : Run) (b : B)
    → ((m >>= f) s).0 ≡ ok b
    → (a : A) × ((m s).0 ≡ ok a) × ((m >>= f) s ≡ f a (m s).1)
bind-inv m f s b e = elim (Result-cases (m s).0) [
  | inl (a, h) ↦ (a, h, bind-ok m f s a h)
  | inr (x, h) ↦ let stuck = ap (λ r. r.0) (bind-throw m f s x h) in cc
]

pub bind-Adds :
    {A B : Type 0} {j k : ℕ} {j' k' : B → ℕ} (m : Step A) (f : A → Step B)
    → Adds (λ a. j) (λ a. k) m
    → ((a : A) → Adds j' k' (f a))
    → Adds (λ b. j + j' b) (λ b. k + k' b) (m >>= f)
bind-Adds m f v w = record {
  adds_matches = λ s b e.
      let (a, h, run) = bind-inv m f s b e in
      omega (
        arith,
        ap (λ r. matches r.1.events) run,
        v.adds_matches s a h,
        (w a).adds_matches (m s).1 b (rw run at e),
      );
  adds_skips = λ s b e.
      let (a, h, run) = bind-inv m f s b e in
      omega (
        arith,
        ap (λ r. skips r.1.events) run,
        v.adds_skips s a h,
        (w a).adds_skips (m s).1 b (rw run at e),
      );
}

-- A step that leaves the events alone.
pub quiet : {A : Type 0} (m : Step A) → ((s : Run) → (m s).1.events ≡ s.events) → Silent m
quiet m h = record {
  adds_matches = λ s a e. omega (arith, ap matches (h s));
  adds_skips = λ s a e. omega (arith, ap skips (h s));
}

pub emit-Adds : (e : RunEvent) → Adds (λ u. matches (e ∷ [])) (λ u. skips (e ∷ [])) (emit e)
emit-Adds e = record {
  adds_matches = λ s a h. matches-append s.events (e ∷ []);
  adds_skips = λ s a h. skips-append s.events (e ∷ []);
}

pub after :
    {A B : Type 0} {j k : B → ℕ} (m : Step A) (f : A → Step B)
    → Silent m
    → ((a : A) → Adds j k (f a))
    → Adds j k (m >>= f)
after m f v w =
    let both = bind-Adds m f v w in
    record {
      adds_matches = λ s b e. omega (arith, both.adds_matches s b e);
      adds_skips = λ s b e. omega (arith, both.adds_skips s b e);
    }

-- A step that returns, returns this.
pub record Returns {A : Type 0} (b : A) (m : Step A) : Type 0 where
  pub returns : (s : Run) (a : A) → (m s).0 ≡ ok a → a ≡ b

pub bind-Returns :
    {A B : Type 0} (b : B) (m : Step A) (f : A → Step B)
    → ((a : A) → Returns b (f a))
    → Returns b (m >>= f)
bind-Returns b m f w = record {
  returns = λ s c e. let (a, h, run) = bind-inv m f s c e in (w a).returns (m s).1 c (rw run at e);
}

pub report_true : (m : Step Bool) → Adds (λ b. 1) (λ b. 0) m → Returns true m → Verdict m
report_true m v w = record {
  adds_matches = λ s b e. rw (w.returns s b e) (v.adds_matches s b e);
  adds_skips = λ s b e. rw (w.returns s b e) (v.adds_skips s b e);
}

pub report_false : (m : Step Bool) → Adds (λ b. 0) (λ b. 1) m → Returns false m → Verdict m
report_false m v w = record {
  adds_matches = λ s b e. rw (w.returns s b e) (v.adds_matches s b e);
  adds_skips = λ s b e. rw (w.returns s b e) (v.adds_skips s b e);
}
