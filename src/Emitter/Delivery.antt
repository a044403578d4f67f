-- ===== src/Emitter/Delivery.antt =====
-- Who is called when an event is emitted.
use mathlib.Core.List.{append-nil, append_assoc}
use test_assestment.Common.{
  ℕ, ◌≤◌, ◌≡◌, refl, ap, ◌∙◌, Bool, true, false, ◌&&◌, List, [], ◌∷◌, ◌++◌, String, ◌==◌, eq_iff,
  nat_eq, filter, length, if◌then◌else◌, Result, arith, Bool-cases, Option-cases, inl, inr,
  filter-append, length-append,
}
use test_assestment.JsMap.{get}
use test_assestment.JsMap.Laws.{get-set}
use test_assestment.Emitter.{
  Subscriptions, contains, add, remove, subscribers, on, off, call_each, emit, Change, subscribes,
  unsubscribes, change, changes,
}

abbrev pub times : ℕ → List ℕ → ℕ
times c cs = length (filter (nat_eq c) cs)

abbrev one_if : Bool → ℕ
one_if true = 1
one_if false = 0

-- Whether a callback is subscribed after the changes, by the last one that names it.
abbrev pub is_subscribed : String → ℕ → List Change → Bool → Bool
is_subscribed name c [] before = before
is_subscribed name c (subscribes n d ∷ cs) before =
    is_subscribed name c cs (if n == name && nat_eq c d then true else before)
is_subscribed name c (unsubscribes n d ∷ cs) before =
    is_subscribed name c cs (if n == name && nat_eq c d then false else before)

times-absent : (c : ℕ) (cs : List ℕ) → contains c cs ≡ false → times c cs ≡ 0
unfolding contains
times-absent c [] h = refl
times-absent c (d ∷ cs) h = ground (arith, times-absent c cs)

times-present : (c : ℕ) (cs : List ℕ) → contains c cs ≡ true → 1 ≤ times c cs
unfolding contains
times-present c [] h = ground arith
times-present c (d ∷ cs) h = ground (arith, times-present c cs)

times-add :
    (c d : ℕ) (cs : List ℕ) (before : Bool)
    → times c cs ≡ one_if before
    → times c (add d cs) ≡ one_if (if nat_eq c d then true else before)
unfolding add
times-add c d cs before h = elim (Bool-cases (contains d cs)) [
  | inl b ↦ elim (Bool-cases (nat_eq c d)) [
    | inl e ↦
        let same : c ≡ d = ground arith in
        let some_times = times-present d cs b in rw (b, e) (at_least before h (rw same some_times))
    | inr e ↦ rw (b, e) h
  ]
  | inr b ↦ elim (Bool-cases (nat_eq c d)) [
    | inl e ↦
        let same : c ≡ d = ground arith in
        rw (b, e, filter-append, length-append, e) (omega (arith, times-absent c cs (rw same b)))
    | inr e ↦ rw (b, e, filter-append, e, append-nil) h
  ]
]
  where
    at_least : (b : Bool) → times c cs ≡ one_if b → 1 ≤ times c cs → times c cs ≡ 1
    at_least true g le = g
    at_least false g le = omega arith

times-remove :
    (c d : ℕ) (cs : List ℕ) → times c (remove d cs) ≡ (if nat_eq c d then 0 else times c cs)
unfolding remove
times-remove c d [] = ground arith
times-remove c d (x ∷ cs) = ground (arith, times-remove c d cs)

subscribers-off :
    (name n : String) (d : ℕ) (subs : Subscriptions)
    → subscribers name (off n d subs)
      ≡ (if n == name then remove d (subscribers name subs) else subscribers name subs)
unfolding off subscribers remove
subscribers-off name n d subs = elim (Option-cases (get n subs)) [
  | inl e ↦ elim (Bool-cases (n == name)) [
    | inl b ↦ let same = (eq_iff n name).0 b in rw (off, e, b, subscribers, ← same, e) refl
    | inr b ↦ rw (off, e, b) refl
  ]
  | inr (cs, e) ↦ elim (Bool-cases (n == name)) [
    | inl b ↦ let same = (eq_iff n name).0 b in rw (off, e, subscribers, get-set, b, ← same, e) refl
    | inr b ↦ rw (off, e, subscribers, get-set, b) refl
  ]
]

change-times :
    (name : String) (c : ℕ) (ch : Change) (subs : Subscriptions) (before : Bool)
    → times c (subscribers name subs) ≡ one_if before
    → times c (subscribers name (change ch subs)) ≡ one_if (is_subscribed name c (ch ∷ []) before)
unfolding change on off subscribers
change-times name c (subscribes n d) subs before h = elim (Bool-cases (n == name)) [
  | inl b ↦ let same = (eq_iff n name).0 b in rw (get-set, b, same) (times-add c d _ before h)
  | inr b ↦ rw (get-set, b) h
]
change-times name c (unsubscribes n d) subs before h = elim (Bool-cases (n == name)) [
  | inl b ↦ rw (subscribers-off, b, times-remove) (by_last (nat_eq c d))
  | inr b ↦ rw (subscribers-off, b) h
]
  where
    by_last :
        (b : Bool)
        → (if b then 0 else times c (subscribers name subs)) ≡ one_if (if b then false else before)
    by_last true = refl
    by_last false = h

times-changes :
    (name : String) (c : ℕ) (chs : List Change) (subs : Subscriptions) (before : Bool)
    → times c (subscribers name subs) ≡ one_if before
    → times c (subscribers name (changes chs subs)) ≡ one_if (is_subscribed name c chs before)
unfolding changes
times-changes name c [] subs before h = h
times-changes name c (subscribes n d ∷ chs) subs before h =
    times-changes name c chs _ _ (change-times name c (subscribes n d) subs before h)
times-changes name c (unsubscribes n d ∷ chs) subs before h =
    times-changes name c chs _ _ (change-times name c (unsubscribes n d) subs before h)

-- A callback that notes that it was called, and then fulfils or throws.
abbrev pub noting {ℓ} :
    {E : Type ℓ} → (ℕ → Result E (Unit {0})) → ℕ → Unit {0} → List ℕ → Result E (Unit {0}) × List ℕ
noting outcome c payload called = (outcome c, called ++ c ∷ [])

call_each-noting {ℓ} :
    {E : Type ℓ} (outcome : ℕ → Result E (Unit {0})) (cs called : List ℕ)
    → call_each (noting outcome) cs tt called ≡ called ++ cs
unfolding call_each
call_each-noting outcome [] called = simp append-nil
call_each-noting outcome (c ∷ cs) called =
    call_each-noting outcome cs (called ++ c ∷ []) ∙ append_assoc called (c ∷ []) cs

-- After any subscriptions and removals, an event calls a callback exactly once if the last change
-- that names both is a subscription, and not at all otherwise, whichever of the callbacks throw.
pub emit-changes {ℓ} :
    {E : Type ℓ} (outcome : ℕ → Result E (Unit {0})) (chs : List Change) (name : String) (c : ℕ)
    → times c (emit (noting outcome) name tt (changes chs []) [])
      ≡ one_if (is_subscribed name c chs false)
unfolding emit subscribers
emit-changes outcome chs name c =
    ap (times c) (call_each-noting outcome (subscribers name (changes chs [])) [])
    ∙ times-changes name c chs [] false refl
