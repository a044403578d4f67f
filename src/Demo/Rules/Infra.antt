-- ===== src/Demo/Rules/Infra.antt =====
-- The requests of pullRequestTouchesInfra, and what its answer depends on.
use test_assestment.Common.{
  ℕ, ◌≡◌, refl, Bool, true, false, ◌⊎◌, Option, none, some, get_or, List, [], String, ◌==◌, codes,
  All, All-mono, Bool-cases, inl, inr, Result, if◌then◌else◌,
}
use test_assestment.Entities.{Error}
use test_assestment.Demo.GitHub.{Options, Request, Response, is_empty}
use test_assestment.Demo.GitHub.Paths.{
  IsGuarded, files_path, fetch_git_hub_pull_request_files-IsGuarded,
}
use test_assestment.Demo.Rules.{Ctx, PullRequest}
use test_assestment.Demo.Rules.Conditions.{
  any_infra, any_infra_name, repository_of, fetched_files, is_named_infra,
  pull_request_touches_infra,
}

module _ (fetch : Request → Result Error Response) (opts : Options) where
  -- A guarded read of the files of the pull request of that number.
  abbrev pub AsksFor : Option ℕ → Request → Type 0
  AsksFor number request = (n : ℕ) × (number ≡ some n) × IsGuarded opts (files_path opts n) request

  -- A call that is skipped makes no request.
  skips_All :
      {A : Type 0} (P : Request → Type 0) (b : Bool) (d : A) (r : List Request × A)
      → All P r.0
      → All P (if◌then◌else◌ {A = List Request × A} b ([], d) r).0
  skips_All P true d r h = tt
  skips_All P false d r h = h

  fetched_files-AsksFor :
      (repository : Option String) (number : Option ℕ)
      → All (AsksFor number) (fetched_files fetch opts repository number).0
  unfolding fetched_files
  fetched_files-AsksFor none number = tt
  fetched_files-AsksFor (some repository) none = tt
  fetched_files-AsksFor (some repository) (some n) = skips_All _ (repository == "") none _ (
      All-mono (λ r g. (n, refl, g)) _
        (fetch_git_hub_pull_request_files-IsGuarded fetch opts (codes repository) n))

  -- Either way the requests are those for the files.
  either_All :
      (P : Request → Type 0) (b x y : Bool) (rs : List Request)
      → All P rs
      → All P (if◌then◌else◌ {A = List Request × Bool} b (rs, x) (rs, y)).0
  either_All P true x y rs h = h
  either_All P false x y rs h = h

  pull_request_touches_infra-AsksFor :
      (ctx : Ctx) (pr : PullRequest)
      → All (AsksFor pr.number) (pull_request_touches_infra fetch opts ctx pr).0
  unfolding pull_request_touches_infra
  pull_request_touches_infra-AsksFor ctx pr =
      let fetched =
        fetched_files fetch opts (repository_of ctx.repo_name ctx.event.repository) pr.number in
      skips_All (AsksFor pr.number) (any_infra (get_or pr.files [])) true _ (
        either_All (AsksFor pr.number) (any_infra_name (get_or fetched.1 [])) true
          (is_named_infra fetch opts pr) fetched.0
          (fetched_files-AsksFor (repository_of ctx.repo_name ctx.event.repository) pr.number))

  -- Whatever the services answer, each request that is made to find out whether a pull request
  -- touches the infrastructure is a read with the token of the options, of the files of that
  -- number, below two parts of a path that hold nothing but unreserved characters and per cent
  -- signs; and if there is a token, neither the requests nor the answer depend on the name of the
  -- branch or the title.
  pub pull_request_touches_infra-trusts :
      (ctx : Ctx) (pr : PullRequest) (head_ref title : Option String)
      → All (AsksFor pr.number) (pull_request_touches_infra fetch opts ctx pr).0
        × ((is_empty opts.github_token ≡ true)
            ⊎ (pull_request_touches_infra fetch opts ctx
                  (record pr { head_ref = head_ref; title = title })
                ≡ pull_request_touches_infra fetch opts ctx pr))
  unfolding pull_request_touches_infra
  pull_request_touches_infra-trusts ctx pr head_ref title = (
    pull_request_touches_infra-AsksFor ctx pr,
    elim (Bool-cases (is_empty opts.github_token)) [ inl b ↦ inl b | inr b ↦ inr (rw b) ],
  )
