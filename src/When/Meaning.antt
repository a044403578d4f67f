-- ===== src/When/Meaning.antt =====
-- A tree that fits the depth limit means the Boolean formula that it spells, however its leaves
-- keep their memo.
use test_assestment.Common.{
  ℕ, suc, ◌≤◌, ◌<◌, ◌≡◌, refl, ap, Bool, true, false, not, ◌&&◌, ◌||◌, leb, ltb, Bool-cases, inl,
  inr, arith,
}
use test_assestment.Entities.{
  BaseCtx, UseRef, WhenNode, inline, use_of, all_of, any_of, not_of, Nodes, no_nodes, node,
}
use test_assestment.When.{
  when_tree_max_depth, leaf, evaluate_node, evaluate_all, evaluate_any, evaluate_when,
}

-- Every leaf is at depth 30 at most, and every combinator, with or without children, at 29.
unfoldable mutual
  pub Fits : WhenNode → ℕ → Type 0
  Fits (inline f) depth = depth ≤ 30
  Fits (use_of r) depth = depth ≤ 30
  Fits (all_of cs) depth = (depth < 30) × FitAll cs (suc depth)
  Fits (any_of cs) depth = (depth < 30) × FitAll cs (suc depth)
  Fits (not_of c) depth = (depth < 30) × Fits c (suc depth)

  pub FitAll : Nodes → ℕ → Type 0
  FitAll no_nodes depth = Unit
  FitAll (node c cs) depth = Fits c depth × FitAll cs depth

-- The formula, without order and without an end: every child counts.
module _ (answer : UseRef → Bool) (ctx : BaseCtx) where
  unfoldable mutual
    pub meaning : WhenNode → Bool
    meaning (inline f) = leaf (f ctx)
    meaning (use_of r) = answer r
    meaning (all_of cs) = every cs
    meaning (any_of cs) = some_of cs
    meaning (not_of c) = not (meaning c)

    pub every : Nodes → Bool
    every no_nodes = true
    every (node c cs) = meaning c && every cs

    pub some_of : Nodes → Bool
    some_of no_nodes = false
    some_of (node c cs) = meaning c || some_of cs

module _ {S : Type 0} (I : S → Type 0) where
  -- The run ends with the answer and in a state that `I` holds of.
  abbrev pub Answers : Bool × S → Bool → Type 0
  Answers r b = (r.0 ≡ b) × I r.1

module _ {S : Type 0} (resolve : UseRef → S → Bool × S) (ctx : BaseCtx) (I : S → Type 0)
    (answer : UseRef → Bool)
    (resolve-answer : (r : UseRef) (s : S) → I s → Answers I (resolve r s) (answer r)) where
  mutual
    unfolding evaluate_node Fits meaning

    evaluate_node-meaning :
        (n : WhenNode) (depth : ℕ) (s : S)
        → I s
        → Fits n depth
        → Answers I (evaluate_node resolve ctx n depth s) (meaning answer ctx n)
    evaluate_node-meaning (inline f) depth s i h =
        let shallow : ltb when_tree_max_depth depth ≡ false = ground arith in rw shallow (refl, i)
    evaluate_node-meaning (use_of r) depth s i h =
        let shallow : ltb when_tree_max_depth depth ≡ false = ground arith in
        rw shallow (resolve-answer r s i)
    evaluate_node-meaning (all_of cs) depth s i (h, k) =
        let shallow : leb when_tree_max_depth depth ≡ false = ground arith in
        rw shallow (evaluate_all-meaning cs (suc depth) s i k)
    evaluate_node-meaning (any_of cs) depth s i (h, k) =
        let shallow : leb when_tree_max_depth depth ≡ false = ground arith in
        rw shallow (evaluate_any-meaning cs (suc depth) s i k)
    evaluate_node-meaning (not_of c) depth s i (h, k) =
        let shallow : leb when_tree_max_depth depth ≡ false = ground arith in
        let (e, j) = evaluate_node-meaning c (suc depth) s i k in rw shallow (ap not e, j)

    evaluate_all-meaning :
        (cs : Nodes) (depth : ℕ) (s : S)
        → I s
        → FitAll cs depth
        → Answers I (evaluate_all resolve ctx cs depth s) (every answer ctx cs)
    evaluate_all-meaning no_nodes depth s i h = (refl, i)
    evaluate_all-meaning (node c cs) depth s i (h, k) =
        let (e, j) = evaluate_node-meaning c depth s i h in
        let rest = evaluate_all-meaning cs depth _ j k in
        elim (Bool-cases (meaning answer ctx c)) [
          | inl b ↦ rw (e, b) rest
          | inr b ↦ rw (e, b) (refl, j)
        ]

    evaluate_any-meaning :
        (cs : Nodes) (depth : ℕ) (s : S)
        → I s
        → FitAll cs depth
        → Answers I (evaluate_any resolve ctx cs depth s) (some_of answer ctx cs)
    evaluate_any-meaning no_nodes depth s i h = (refl, i)
    evaluate_any-meaning (node c cs) depth s i (h, k) =
        let (e, j) = evaluate_node-meaning c depth s i h in
        let rest = evaluate_any-meaning cs depth _ j k in
        elim (Bool-cases (meaning answer ctx c)) [
          | inl b ↦ rw (e, b) (refl, j)
          | inr b ↦ rw (e, b) rest
        ]

  -- For any leaf resolver that keeps an invariant of its state and in such states answers each use
  -- by a fixed Boolean, a tree whose leaves are at depth 30 at most and whose combinators are
  -- above it evaluates to the Boolean formula that it spells, and the invariant holds at the end.
  pub evaluate_when-meaning :
      (n : WhenNode) (s : S)
      → I s
      → Fits n 1
      → Answers I (evaluate_when resolve ctx n s) (meaning answer ctx n)
  unfolding evaluate_when
  evaluate_when-meaning n s i h = evaluate_node-meaning n 1 s i h
