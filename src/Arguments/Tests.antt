-- ===== src/Arguments/Tests.antt =====
-- Pinned arguments over those of a use site, and the theorems at them.
use test_assestment.Common.{none, [], ◌∷◌, ◌≡◌, refl, ok}
use test_assestment.JsMap.{Map, set}
use test_assestment.Entities.{number, undefined, null, text, Args, BaseCtx, UseArg, plain, callback}
use test_assestment.Arguments.{resolve_args, overlay, merge_action_args}

abbrev ctx : BaseCtx
ctx = record { event = null; args = []; delivery_id = "d"; now = 5; scheduled = none }

abbrev pinned : Args
pinned = ("max", number 3) ∷ ("label", undefined) ∷ []

abbrev use_site : Map UseArg
use_site =
    ("label", plain (text "bug"))
    ∷ ("max", plain (number 9))
    ∷ ("now", callback (λ c. ok (number c.now)))
    ∷ []

abbrev resolved : Args
resolved = ("label", text "bug") ∷ ("max", number 9) ∷ ("now", number 5) ∷ []

merges :
    merge_action_args pinned use_site ctx none
    ≡ ok (("label", text "bug") ∷ ("max", number 3) ∷ ("now", number 5) ∷ [])
unfolding merge_action_args resolve_args overlay set
merges = refl
