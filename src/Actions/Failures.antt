-- ===== src/Actions/Failures.antt =====
-- Which errors come out.
use test_assestment.Common.{String, List, [], ◌∷◌, ok, throw, ◌≡◌, refl, ◌↔◌, All, ap}
use test_assestment.Entities.{Error}
use test_assestment.Actions.{Settled, rejections, raise, run_pending_actions}

rejections-nil : (settled : List Settled) → All (λ s. s ≡ ok tt) settled → rejections settled ≡ []
unfolding rejections
rejections-nil [] h = refl
rejections-nil (ok u ∷ settled) (p, h) = rejections-nil settled h
rejections-nil (throw e ∷ settled) (p, h) = cc

nil-rejections : (settled : List Settled) → rejections settled ≡ [] → All (λ s. s ≡ ok tt) settled
unfolding rejections
nil-rejections [] h = tt
nil-rejections (ok tt ∷ settled) h = (refl, nil-rejections settled h)
nil-rejections (throw e ∷ settled) h = cc

raise-ok : (message : String) (es : List Error) → raise message es ≡ ok tt → es ≡ []
unfolding raise
raise-ok message [] h = refl
raise-ok message (e ∷ []) h = cc
raise-ok message (e ∷ f ∷ es) h = cc

-- Running pending actions throws nothing exactly when every one of them fulfilled.
pub run_pending_actions_iff :
    (settled : List Settled) (message : String)
    → (run_pending_actions settled message ≡ ok tt) ↔ All (λ s. s ≡ ok tt) settled
unfolding run_pending_actions raise
run_pending_actions_iff settled message = (
  λ h. nil-rejections settled (raise-ok message (rejections settled) h),
  λ h. ap (raise message) (rejections-nil settled h),
)
