-- ===== src/When.antt =====
-- The evaluation of a `when` tree by engine/src/engine/predicates.ts. What a `use` leaf does, with
-- its memo and its events, is an argument, which passes a state along.
pub mod Meaning
mod Tests
use test_assestment.Common.{
  ℕ, zero, suc, ◌+◌, Bool, true, false, not, Option, none, some, leb, ltb, if◌then◌else◌, Result,
  ok, throw,
}
use test_assestment.Entities.{
  Error, BaseCtx, UseRef, WhenNode, inline, use_of, all_of, any_of, not_of, Nodes, no_nodes, node,
}

abbrev pub when_tree_max_depth : ℕ
when_tree_max_depth = 30

-- An inline function that throws counts as false.
abbrev pub leaf : Result Error Bool → Bool
leaf (ok b) = b
leaf (throw e) = false

module _ {S : Type 0} (resolve : UseRef → S → Bool × S) (ctx : BaseCtx) where
  unfoldable mutual
    pub evaluate_node : WhenNode → ℕ → S → Bool × S
    evaluate_node (inline f) depth s =
        if ltb when_tree_max_depth depth then (false, s) else (leaf (f ctx), s)
    evaluate_node (use_of r) depth s =
        if ltb when_tree_max_depth depth then (false, s) else resolve r s
    evaluate_node (all_of cs) depth s =
        let rest = evaluate_all cs (suc depth) s in
        if leb when_tree_max_depth depth then (false, s) else rest
    evaluate_node (any_of cs) depth s =
        let rest = evaluate_any cs (suc depth) s in
        if leb when_tree_max_depth depth then (false, s) else rest
    evaluate_node (not_of c) depth s =
        let (v, s') = evaluate_node c (suc depth) s in
        if leb when_tree_max_depth depth then (false, s) else (not v, s')

    pub evaluate_all : Nodes → ℕ → S → Bool × S
    evaluate_all no_nodes depth s = (true, s)
    evaluate_all (node c cs) depth s =
        let (v, s') = evaluate_node c depth s in
        let rest = evaluate_all cs depth s' in if v then rest else (false, s')

    pub evaluate_any : Nodes → ℕ → S → Bool × S
    evaluate_any no_nodes depth s = (false, s)
    evaluate_any (node c cs) depth s =
        let (v, s') = evaluate_node c depth s in
        let rest = evaluate_any cs depth s' in if v then (true, s') else rest

  unfoldable pub evaluate_when : WhenNode → S → Bool × S
  unfolding evaluate_node
  evaluate_when n s = evaluate_node n 1 s
