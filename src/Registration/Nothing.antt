-- ===== src/Registration/Nothing.antt =====
-- No issues in all is no issues in any part.
use test_assestment.Common.{List, [], ◌∷◌, ◌++◌, ◌≡◌, refl, All}
use test_assestment.Registration.{concat_map}

module _ {A : Type 0} where
  pub nil_of_append : (xs ys : List A) → xs ++ ys ≡ [] → (xs ≡ []) × (ys ≡ [])
  nil_of_append [] ys h = (refl, h)
  nil_of_append (x ∷ xs) ys h = cc

pub concat_map-nil :
    {A B : Type 0} (f : A → List B) (xs : List A) → concat_map f xs ≡ [] → All (λ x. f x ≡ []) xs
unfolding concat_map
concat_map-nil f [] h = tt
concat_map-nil f (x ∷ xs) h =
    let (p, q) = nil_of_append (f x) (concat_map f xs) h in (p, concat_map-nil f xs q)
