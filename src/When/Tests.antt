-- ===== src/When/Tests.antt =====
-- Trees at the depth limit, and the theorem at a small tree.
use test_assestment.Common.{
  none, ℕ, zero, suc, ◌≡◌, refl, arith, Bool, true, false, String, ◌==◌, [],
}
use test_assestment.Entities.{
  BaseCtx, null, UseRef, WhenNode, use_of, all_of, any_of, not_of, no_nodes, node,
}
use test_assestment.When.{evaluate_when, evaluate_node}
use test_assestment.When.Meaning
use test_assestment.When.Meaning.{Fits, meaning, Answers}

abbrev ctx : BaseCtx
ctx = record { event = null; args = []; delivery_id = "d"; now = 0; scheduled = none }

-- A leaf is true when its name is "yes"; the state counts the leaves that were asked.
abbrev resolve : UseRef → ℕ → Bool × ℕ
resolve r n = (r.name == "yes", suc n)

abbrev leaf_of : String → WhenNode
leaf_of name = use_of (record { name = name; args = [] })

abbrev tree : WhenNode
tree =
    any_of (node (not_of (leaf_of "yes")) (node (all_of no_nodes) (node (leaf_of "no") no_nodes)))

abbrev nots : ℕ → WhenNode → WhenNode
nots zero n = n
nots (suc k) n = not_of (nots k n)

-- The last leaf is not asked.
stops_early : evaluate_when resolve ctx tree 0 ≡ (true, 1)
unfolding evaluate_when evaluate_node
stops_early = refl

-- At depth 30 a leaf still counts, and an empty `all` is false.
at_the_limit :
    (evaluate_when resolve ctx (nots 29 (leaf_of "yes")) 0 ≡ (false, 1))
    × (evaluate_when resolve ctx (nots 28 (all_of no_nodes)) 0 ≡ (true, 0))
    × (evaluate_when resolve ctx (nots 29 (all_of no_nodes)) 0 ≡ (true, 0))
unfolding evaluate_when evaluate_node
at_the_limit = (refl, refl, refl)

evaluate_when-meaning_example :
    Answers
      (λ n. Unit {0})
      (evaluate_when resolve ctx tree 0)
      (meaning (λ r. r.name == "yes") ctx tree)
unfolding Fits
evaluate_when-meaning_example =
    Meaning.evaluate_when-meaning resolve ctx (λ n. Unit {0}) (λ r. r.name == "yes")
      (λ r s i. (refl, tt)) tree 0 tt
      (omega arith, ((omega arith, omega arith), ((omega arith, tt), (omega arith, tt))))
