-- ===== src/Registration/Formula.antt =====
-- From registration to evaluation: the `when` tree of each accepted rule means its formula.
use test_assestment.Common.{String, some, [], ◌≡◌, subst, ok, All, All-mono, arith}
use test_assestment.JsMap.{Map, get}
use test_assestment.Entities.{
  Args, BaseCtx, WhenNode, RegisteredPredicate, AnyRegisteredAction, RegisteredRule, RegisterBatch,
  Registry,
}
use test_assestment.When.Meaning.{meaning}
use test_assestment.Predicates.{Evaluation, evaluate_rule_when}
use test_assestment.Predicates.Memo.{answer, KeyDetermines, Coherent, evaluate_rule_when-Coherent}
use test_assestment.Registration.{build_registry}
use test_assestment.Registration.Trees.{NoEmpty}
use test_assestment.Registration.Accepted.{WhenFits, Sound, build_registry-Registered}

abbrev pub fresh : Evaluation
fresh = record { memo = []; events = [] }

fresh-Coherent :
    (json : Args → String) (ps : Map RegisteredPredicate) (ctx : BaseCtx)
    → Coherent json ps ctx fresh
unfolding Coherent get
fresh-Coherent json ps ctx key b h r asks = ground arith

-- Where a rule has a tree without an empty `all` or `any`, its evaluation gives the formula.
abbrev pub Means : (Args → String) → Map RegisteredPredicate → BaseCtx → RegisteredRule → Type 0
Means json ps ctx r =
    (n : WhenNode)
    → r.when ≡ some n
    → NoEmpty n
    → (evaluate_rule_when json ps ctx n fresh).0 ≡ meaning (answer ps ctx) ctx n

Sound-Means :
    (json : Args → String) (ps : Map RegisteredPredicate) (known : Map AnyRegisteredAction)
    (ctx : BaseCtx)
    → KeyDetermines json ps ctx
    → (r : RegisteredRule) → Sound ps known r
    → Means json ps ctx r
Sound-Means json ps known ctx d r s n e ne =
    let fits : WhenFits (some n) = subst WhenFits e s.within_depth in
    (evaluate_rule_when-Coherent json ps ctx d n fresh (fresh-Coherent json ps ctx) (fits ne)).0

-- In an accepted batch, where predicates give one answer for all uses that share a memo key, every
-- rule whose when tree has no empty all or any evaluates, starting with an empty memo, to the
-- Boolean formula that the tree spells, each use being worth what it is worth without a memo.
pub build_registry-Means :
    (batch : RegisterBatch) (reg : Registry) (json : Args → String) (ctx : BaseCtx)
    → build_registry batch ≡ ok reg
    → KeyDetermines json reg.predicates ctx
    → All (Means json reg.predicates ctx) batch.rules
build_registry-Means batch reg json ctx h d =
    All-mono (Sound-Means json reg.predicates reg.action_by_name ctx d) batch.rules
      (build_registry-Registered batch reg h).sound
