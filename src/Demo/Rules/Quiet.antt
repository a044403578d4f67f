-- ===== src/Demo/Rules/Quiet.antt =====
-- The check of the rule issue-closed-quiet.
use test_assestment.Common.{
  ◌≡◌, refl, ◌⊎◌, inl, inr, Bool, true, false, not, ◌&&◌, ◌||◌, Option, ℕ, arith, some, get_or,
  List, [], ◌∷◌, Result, codes, if◌then◌else◌,
}
use test_assestment.Duration.{text}
use test_assestment.Entities.{Error, CheckResult, pass, skip, recheck}
use test_assestment.Demo.GitHub.{
  Options, Request, Response, IssueState, opened, closed, unknown, is_empty, get_request, repo_url,
  state_of_response, ask_for_state,
}
use test_assestment.Demo.Uri.Safe.{is_well_formed}
use test_assestment.Demo.GitHub.Paths.{Encoded, repo_url-Encoded, path_of}
use test_assestment.Demo.GitHub.States.{
  Says, Reports, state_of_response-Reports, Says-closed, Says-opened,
}
use test_assestment.Demo.Rules.{IssueClosedQuietPayload}
use test_assestment.Demo.Rules.Conditions.{check_of_state, issue_closed_quiet_check}

module _ (fetch : Request → Result Error Response) (opts : Options) where
  -- A part lacks, or holds a surrogate that stands alone.
  abbrev pub cannot_ask : IssueClosedQuietPayload → Bool
  cannot_ask payload =
      is_empty opts.github_token
      || (is_empty (some payload.owner) || is_empty (some payload.repo))
      || not (is_well_formed payload.owner && is_well_formed payload.repo)

  abbrev pub asked : List ℕ → Request
  asked url = get_request (get_or opts.github_token []) url

  abbrev pub url_for : IssueClosedQuietPayload → Option (List ℕ)
  url_for payload =
      repo_url opts.github_api_url payload.owner payload.repo "/issues/" payload.issue_number

  -- The check follows the state that is answered, if it is one of the two.
  abbrev pub Follows : CheckResult → Result Error Response → Type 0
  Follows result answer =
      (result ≡ pass) × Says "closed" answer
      ⊎ (result ≡ skip) × Says "open" answer
      ⊎ (result ≡ recheck (text (codes "10s"))) × ¬ Says "closed" answer × ¬ Says "open" answer

  -- The issue is asked for unless the token or the repository lacks or cannot be encoded.
  abbrev pub Outcome : IssueClosedQuietPayload → List Request × CheckResult → Type 0
  Outcome payload (requests, result) =
      (cannot_ask payload ≡ true) × (requests ≡ []) × (result ≡ recheck (text (codes "10s")))
      ⊎ ((cannot_ask payload ≡ false)
          × (url : List ℕ) × (url_for payload ≡ some url)
          × (requests ≡ asked url ∷ [])
          × Follows result (fetch (asked url)))

  check_of_state-Follows :
      (state : IssueState) (answer : Result Error Response)
      → state_of_response answer ≡ state
      → Reports answer state
      → Follows (check_of_state state) answer
  check_of_state-Follows opened answer e h = inr (inl (refl, h))
  check_of_state-Follows closed answer e h = inl (refl, h)
  check_of_state-Follows unknown answer e h = inr (
      inr (
        refl,
        λ s. let f = Says-closed answer s in cc (e, f),
        λ s. let f = Says-opened answer s in cc (e, f),
      ))

  abbrev checked : List Request × IssueState → List Request × CheckResult
  checked (requests, state) = (requests, check_of_state state)

  outcome_if :
      (payload : IssueClosedQuietPayload) (lacks : Bool)
      → (is_empty opts.github_token
          || (is_empty (some payload.owner) || is_empty (some payload.repo)))
        ≡ lacks
      → Encoded opts "/issues/" payload.issue_number
          (is_well_formed payload.owner && is_well_formed payload.repo)
          (url_for payload)
      → Outcome payload (
          checked (
            if lacks
            then ([], unknown)
            else ask_for_state fetch (get_or opts.github_token []) (url_for payload)))
  outcome_if payload true b h = inl (ground arith, refl, refl)
  outcome_if payload false b (inr (f, u)) = rw u (inl (ground arith, refl, refl))
  outcome_if payload false b (inl (f, o, r, u, _, _)) =
      let url = path_of opts "/issues/" payload.issue_number o r in
      let answer = fetch (asked url) in
      rw u (
        inr (
          ground arith,
          url,
          refl,
          refl,
          check_of_state-Follows (state_of_response answer) answer refl
              (state_of_response-Reports answer),
        ))

  -- If the token, the owner or the repository lacks, or the owner or the repository holds a
  -- surrogate that stands alone and has no encoding, the check of a closed issue makes no request
  -- and is repeated later; otherwise it makes the one request for the state of the issue, and
  -- passes if the answer says closed, is skipped if it says open, and is repeated in every other
  -- case, failures of the service included.
  pub issue_closed_quiet_check-Outcome :
      (payload : IssueClosedQuietPayload)
      → Outcome payload (issue_closed_quiet_check fetch opts payload)
  unfolding issue_closed_quiet_check
  issue_closed_quiet_check-Outcome payload =
      outcome_if payload _ refl (repo_url-Encoded opts payload.owner payload.repo "/issues/" _)
