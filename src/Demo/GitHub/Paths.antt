-- ===== src/Demo/GitHub/Paths.antt =====
-- Where the requests for the files of a pull request and for the state of an issue go.
use test_assestment.Common.{
  ℕ, ◌≡◌, refl, ◌⊎◌, inl, inr, ◌&&◌, Bool, true, false, ◌||◌, Option, none, some, get_or, List, [],
  ◌∷◌, ◌++◌, String, codes, decimal, All, Result, arith, if◌then◌else◌,
}
use test_assestment.Entities.{Error}
use test_assestment.Demo.Uri.{split_at_slash}
use test_assestment.Demo.Uri.Safe.{is_plain, is_well_formed, Encodes, encode_uri_component-Encodes}
use test_assestment.Demo.GitHub.{
  Options, Request, Response, is_empty, base_url, url_of, repo_url, get_request, ask_for_files,
  ask_for_state, fetch_files_of, fetch_git_hub_pull_request_files, fetch_git_hub_issue_state,
  unknown,
}

-- A read with the token, of a path with two parts that hold nothing but unreserved characters and
-- per cent signs.
abbrev pub IsGuarded : Options → (List ℕ → List ℕ → List ℕ) → Request → Type 0
IsGuarded opts path request =
    (token : List ℕ) × (owner : List ℕ) × (repo : List ℕ) × (is_empty opts.github_token ≡ false)
    × (opts.github_token ≡ some token)
    × (request ≡ get_request token (path owner repo))
    × All (λ c. is_plain c ≡ true) owner
    × All (λ c. is_plain c ≡ true) repo

-- `${baseUrl}/repos/${owner}/${repo}/${what}/${n}`
abbrev pub path_of : Options → String → ℕ → List ℕ → List ℕ → List ℕ
path_of opts what n owner repo =
    base_url opts.github_api_url
    ++ (codes "/repos/" ++ (owner ++ (codes "/" ++ (repo ++ (codes what ++ decimal n)))))

abbrev pub files_path : Options → ℕ → List ℕ → List ℕ → List ℕ
files_path opts n owner repo = path_of opts "/pulls/" n owner repo ++ codes "/files"

-- A call that is skipped makes no request.
unless_All {ℓ κ} :
    {A : Type ℓ} (P : Request → Type κ) (b : Bool) (d : A) (r : List Request × A)
    → (b ≡ false → All P r.0)
    → All P (if b then ([], d) else r).0
unless_All P true d r h = tt
unless_All P false d r h = h refl

present : (t : Option (List ℕ)) → is_empty t ≡ false → t ≡ some (get_or t [])
present none h = absurd (cc h)
present (some t) h = refl

-- The two parts of a path are encoded if they are well-formed, and otherwise there is no URL.
abbrev pub Encoded : Options → String → ℕ → Bool → Option (List ℕ) → Type 0
Encoded opts what n well_formed url =
    ((well_formed ≡ true)
      × (owner : List ℕ) × (repo : List ℕ) × (url ≡ some (path_of opts what n owner repo))
      × All (λ c. is_plain c ≡ true) owner
      × All (λ c. is_plain c ≡ true) repo)
    ⊎ (well_formed ≡ false) × (url ≡ none)

url_of-Encoded :
    (opts : Options) (what : String) (n : ℕ) (a b : Bool) (x y : Option (List ℕ))
    → Encodes a x
    → Encodes b y
    → Encoded opts what n (a && b) (url_of opts.github_api_url what n x y)
url_of-Encoded opts what n true true (some t) (some u) h g = inl (refl, t, u, refl, h, g)
url_of-Encoded opts what n true true none y h g = absurd h
url_of-Encoded opts what n true true (some t) none h g = absurd g
url_of-Encoded opts what n true false (some t) none h g = inr (refl, refl)
url_of-Encoded opts what n true false (some t) (some u) h g = absurd g
url_of-Encoded opts what n true false none y h g = inr (refl, refl)
url_of-Encoded opts what n false b none y h g = inr (refl, refl)
url_of-Encoded opts what n false b (some t) y h g = absurd h

pub repo_url-Encoded :
    (opts : Options) (owner repo : List ℕ) (what : String) (n : ℕ)
    → Encoded opts what n
        (is_well_formed owner && is_well_formed repo)
        (repo_url opts.github_api_url owner repo what n)
unfolding repo_url
repo_url-Encoded opts owner repo what n =
    url_of-Encoded opts what n (is_well_formed owner) (is_well_formed repo) _ _
      (encode_uri_component-Encodes owner) (encode_uri_component-Encodes repo)

module _ (fetch : Request → Result Error Response) (opts : Options) where
  ask_for_files-IsGuarded :
      (token : List ℕ) (n : ℕ) (well_formed : Bool) (url : Option (List ℕ))
      → is_empty opts.github_token ≡ false
      → opts.github_token ≡ some token
      → Encoded opts "/pulls/" n well_formed url
      → All (IsGuarded opts (files_path opts n)) (ask_for_files fetch token url).0
  ask_for_files-IsGuarded token n w url h e (inl (f, o, r, u, p, q)) =
      rw u ((token, o, r, h, e, refl, p, q), tt)
  ask_for_files-IsGuarded token n w url h e (inr (f, u)) = rw u tt

  ask_for_state-IsGuarded :
      (token : List ℕ) (n : ℕ) (well_formed : Bool) (url : Option (List ℕ))
      → is_empty opts.github_token ≡ false
      → opts.github_token ≡ some token
      → Encoded opts "/issues/" n well_formed url
      → All (IsGuarded opts (path_of opts "/issues/" n)) (ask_for_state fetch token url).0
  ask_for_state-IsGuarded token n w url h e (inl (f, o, r, u, p, q)) =
      rw u ((token, o, r, h, e, refl, p, q), tt)
  ask_for_state-IsGuarded token n w url h e (inr (f, u)) = rw u tt

  fetch_files_of-IsGuarded :
      (token : List ℕ) (parts : List (List ℕ)) (n : ℕ)
      → is_empty opts.github_token ≡ false
      → opts.github_token ≡ some token
      → All (IsGuarded opts (files_path opts n)) (fetch_files_of fetch token parts n opts).0
  fetch_files_of-IsGuarded token [] n h e = tt
  fetch_files_of-IsGuarded token (owner ∷ []) n h e = tt
  fetch_files_of-IsGuarded token (owner ∷ repo ∷ parts) n h e =
      unless_All _ (is_empty (some owner) || is_empty (some repo)) none _ (λ b.
        ask_for_files-IsGuarded token n _ _ h e (repo_url-Encoded opts owner repo "/pulls/" n))

  pub fetch_git_hub_pull_request_files-IsGuarded :
      (repository : List ℕ) (n : ℕ)
      → All
          (IsGuarded opts (files_path opts n))
          (fetch_git_hub_pull_request_files fetch repository n opts).0
  unfolding fetch_git_hub_pull_request_files
  fetch_git_hub_pull_request_files-IsGuarded repository n =
      unless_All _ (is_empty opts.github_token) none _ (λ h.
        fetch_files_of-IsGuarded (get_or opts.github_token []) (split_at_slash repository) n h
          (present opts.github_token h))

  pub fetch_git_hub_issue_state-IsGuarded :
      (owner repo : List ℕ) (n : ℕ)
      → All
          (IsGuarded opts (path_of opts "/issues/" n))
          (fetch_git_hub_issue_state fetch owner repo n opts.github_token opts.github_api_url).0
  unfolding fetch_git_hub_issue_state
  fetch_git_hub_issue_state-IsGuarded owner repo n =
      unless_All _ (is_empty opts.github_token || (is_empty (some owner) || is_empty (some repo)))
        unknown _
        (λ b.
          let h : is_empty opts.github_token ≡ false = ground arith in
          ask_for_state-IsGuarded (get_or opts.github_token []) n _ _ h
            (present opts.github_token h) (repo_url-Encoded opts owner repo "/issues/" n))
