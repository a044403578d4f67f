-- ===== src/Registration/Trees.antt =====
-- A `when` tree that is accepted uses known predicates, and the evaluation reaches all of it.
use test_assestment.Common.{
  ℕ, suc, ◌≤◌, ◌<◌, String, true, List, [], ◌∷◌, ◌≡◌, Bool-cases, inl, inr, if◌then◌else◌, arith,
  ltb,
}
use test_assestment.JsMap.{Map, has}
use test_assestment.Entities.{
  WhenNode, inline, use_of, all_of, any_of, not_of, Nodes, no_nodes, node, RegisteredPredicate,
}
use test_assestment.When.{when_tree_max_depth}
use test_assestment.When.Meaning.{Fits, FitAll}
use test_assestment.Issues.{RegistrationIssue}
use test_assestment.Checks.{too_deep, check_use, check_uses}
use test_assestment.Registration.Nothing.{nil_of_append}

-- Each `use` in the tree names a registered predicate.
unfoldable mutual
  pub AllKnown : Map RegisteredPredicate → WhenNode → Type 0
  AllKnown ps (inline f) = Unit
  AllKnown ps (use_of r) = has r.name ps ≡ true
  AllKnown ps (all_of cs) = AllKnowns ps cs
  AllKnown ps (any_of cs) = AllKnowns ps cs
  AllKnown ps (not_of c) = AllKnown ps c

  pub AllKnowns : Map RegisteredPredicate → Nodes → Type 0
  AllKnowns ps no_nodes = Unit
  AllKnowns ps (node c cs) = AllKnown ps c × AllKnowns ps cs

-- Each `all` and `any` in the tree has a child.
abbrev pub HasChild : Nodes → Type 0
HasChild no_nodes = ⊥
HasChild (node c cs) = Unit

unfoldable mutual
  pub NoEmpty : WhenNode → Type 0
  NoEmpty (inline f) = Unit
  NoEmpty (use_of r) = Unit
  NoEmpty (all_of cs) = HasChild cs × NoEmpties cs
  NoEmpty (any_of cs) = HasChild cs × NoEmpties cs
  NoEmpty (not_of c) = NoEmpty c

  pub NoEmpties : Nodes → Type 0
  NoEmpties no_nodes = Unit
  NoEmpties (node c cs) = NoEmpty c × NoEmpties cs

module _ (ps : Map RegisteredPredicate) (rule : String) where
  guarded :
      (depth : ℕ) (xs : List RegistrationIssue)
      → (if ltb when_tree_max_depth depth then too_deep ps rule ∷ [] else xs) ≡ []
      → (depth ≤ 30) × (xs ≡ [])
  guarded depth xs h = elim (Bool-cases (ltb when_tree_max_depth depth)) [
    | inl b ↦ ground (arith, b)
    | inr b ↦ (ground arith, rw b at h)
  ]

  check_use-depth : (n : WhenNode) (depth : ℕ) → check_use ps rule n depth ≡ [] → depth ≤ 30
  unfolding check_use
  check_use-depth (inline f) depth h = (guarded depth _ h).0
  check_use-depth (use_of r) depth h = (guarded depth _ h).0
  check_use-depth (all_of cs) depth h = (guarded depth _ h).0
  check_use-depth (any_of cs) depth h = (guarded depth _ h).0
  check_use-depth (not_of c) depth h = (guarded depth _ h).0

  check_uses-depth :
      (cs : Nodes) (depth : ℕ) → check_uses ps rule cs (suc depth) ≡ [] → HasChild cs → depth < 30
  unfolding check_use
  check_uses-depth no_nodes depth h e = elim e [ ]
  check_uses-depth (node c cs) depth h e =
      let below = check_use-depth c (suc depth) (nil_of_append _ _ h).0 in omega arith

  mutual
    unfolding check_use AllKnown

    pub check_use-AllKnown :
        (n : WhenNode) (depth : ℕ) → check_use ps rule n depth ≡ [] → AllKnown ps n
    check_use-AllKnown (inline f) depth h = tt
    check_use-AllKnown (use_of r) depth h = ground arith
    check_use-AllKnown (all_of cs) depth h =
        check_uses-AllKnowns cs (suc depth) (guarded depth _ h).1
    check_use-AllKnown (any_of cs) depth h =
        check_uses-AllKnowns cs (suc depth) (guarded depth _ h).1
    check_use-AllKnown (not_of c) depth h = check_use-AllKnown c (suc depth) (guarded depth _ h).1

    pub check_uses-AllKnowns :
        (cs : Nodes) (depth : ℕ) → check_uses ps rule cs depth ≡ [] → AllKnowns ps cs
    check_uses-AllKnowns no_nodes depth h = tt
    check_uses-AllKnowns (node c cs) depth h =
        let (p, q) = nil_of_append (check_use ps rule c depth) (check_uses ps rule cs depth) h in
        (check_use-AllKnown c depth p, check_uses-AllKnowns cs depth q)

  mutual
    unfolding check_use NoEmpty Fits

    pub check_use-Fits :
        (n : WhenNode) (depth : ℕ) → check_use ps rule n depth ≡ [] → NoEmpty n → Fits n depth
    check_use-Fits (inline f) depth h e = (guarded depth _ h).0
    check_use-Fits (use_of r) depth h e = (guarded depth _ h).0
    check_use-Fits (all_of cs) depth h (c, e) =
        let (d, below) = guarded depth _ h in
        (check_uses-depth cs depth below c, check_uses-FitAll cs (suc depth) below e)
    check_use-Fits (any_of cs) depth h (c, e) =
        let (d, below) = guarded depth _ h in
        (check_uses-depth cs depth below c, check_uses-FitAll cs (suc depth) below e)
    check_use-Fits (not_of c) depth h e =
        let (d, below) = guarded depth _ h in
        let deep = check_use-depth c (suc depth) below in
        (omega arith, check_use-Fits c (suc depth) below e)

    pub check_uses-FitAll :
        (cs : Nodes) (depth : ℕ) → check_uses ps rule cs depth ≡ [] → NoEmpties cs → FitAll cs depth
    check_uses-FitAll no_nodes depth h e = tt
    check_uses-FitAll (node c cs) depth h (d, e) =
        let (p, q) = nil_of_append (check_use ps rule c depth) (check_uses ps rule cs depth) h in
        (check_use-Fits c depth p d, check_uses-FitAll cs depth q e)
