-- ===== src/Demo/GitHub.antt =====
-- The calls of other services in demo/src/rules.ts. What the service answers to a request is an
-- argument; a function gives the requests that it makes, one at most, and its result. Texts are
-- lists of code points.
pub mod Paths
pub mod States
use test_assestment.Common.{
  ℕ, ◌*◌, String, Bool, true, false, ◌&&◌, ◌||◌, Option, none, some, get_or, List, [], ◌∷◌, ◌++◌,
  ◌==◌, if◌then◌else◌, codes, decimal, Result, ok, throw,
}
use test_assestment.Entities.{
  Value, Items, no_items, item, undefined, null, text, number, object, array, Error, Schema,
  boolean,
}
use test_assestment.Demo.Server.{get_field}
use test_assestment.Demo.Uri.{encode_uri_component, split_at_slash, includes, to_lower_case}
use test_assestment.Duration.{Duration}

pub record Options : Type 0 where
  pub github_api_url : Option (List ℕ)
  pub github_token : Option (List ℕ)
  pub classifier_url : Option (List ℕ)
  pub flaky_ci_window : Option Duration
  pub issue_closed_quiet_delay : Option Duration
  pub issue_closed_quiet_deadline : Option Duration

pub data Method : Type 0 where
  get post : Method

pub record Request : Type 0 where
  pub url : List ℕ
  pub method : Method
  pub headers : List (String × List ℕ)
  pub body : Option (List ℕ)

pub record Response : Type 0 where
  pub is_ok : Bool
  pub json : Result Error Value

-- `!t` for a text that may be missing
abbrev pub is_empty : Option (List ℕ) → Bool
is_empty none = true
is_empty (some []) = true
is_empty (some (c ∷ s)) = false

unfoldable pub github_headers : List ℕ → List (String × List ℕ)
github_headers token =
    ("accept", codes "application/vnd.github+json")
    ∷ ("authorization", codes "Bearer " ++ token)
    ∷ ("user-agent", codes "air-demo-rule-engine")
    ∷ ("x-github-api-version", codes "2022-11-28")
    ∷ []

abbrev pub base_url : Option (List ℕ) → List ℕ
base_url url = get_or url (codes "https://api.github.com")

-- `${baseUrl}/repos/${owner}/${repo}/${what}/${n}` with two encoded parts, if there are
abbrev pub url_of :
    Option (List ℕ) → String → ℕ → Option (List ℕ) → Option (List ℕ) → Option (List ℕ)
url_of api_url what n none repo = none
url_of api_url what n (some owner) none = none
url_of api_url what n (some owner) (some repo) = some (
    base_url api_url
    ++ (codes "/repos/" ++ (owner ++ (codes "/" ++ (repo ++ (codes what ++ decimal n))))))

-- None where an encoding throws.
unfoldable pub repo_url : Option (List ℕ) → List ℕ → List ℕ → String → ℕ → Option (List ℕ)
unfolding encode_uri_component
repo_url api_url owner repo what n =
    url_of api_url what n (encode_uri_component owner) (encode_uri_component repo)

unfoldable pub get_request : List ℕ → List ℕ → Request
unfolding github_headers
get_request token url = record {
  url = url;
  method = get;
  headers = github_headers token;
  body = none;
}

-- `body.flatMap(…)`; a file that is null or undefined throws, and so does a body that is no array.
unfoldable pub filename_of : Value → Option (List String)
unfolding get_field
filename_of undefined = none
filename_of null = none
filename_of (object fields) = elim (get_field "filename" fields) [
  | text s ↦ some (s ∷ [])
  | v ↦ some []
]
filename_of v = some []

abbrev pub and_names : Option (List String) → Option (List String) → Option (List String)
and_names none ys = none
and_names (some xs) none = none
and_names (some xs) (some ys) = some (xs ++ ys)

unfoldable pub filenames : Items → Option (List String)
unfolding filename_of
filenames no_items = some []
filenames (item v vs) = and_names (filename_of v) (filenames vs)

unfoldable pub files_of_body : Value → Option (List String)
unfolding filenames
files_of_body (array vs) = filenames vs
files_of_body v = none

unfoldable pub files_of_response : Result Error Response → Option (List String)
unfolding files_of_body
files_of_response (throw e) = none
files_of_response (ok r) =
    if r.is_ok then (elim r.json [ throw e ↦ none | ok v ↦ files_of_body v ]) else none

pub data IssueState : Type 0 where
  opened closed unknown : IssueState

unfoldable pub state_of_text : String → IssueState
state_of_text s = if s == "open" then opened else if s == "closed" then closed else unknown

unfoldable pub state_of_body : Value → IssueState
unfolding get_field state_of_text
state_of_body (object fields) = elim (get_field "state" fields) [
  | text s ↦ state_of_text s
  | v ↦ unknown
]
state_of_body v = unknown

unfoldable pub state_of_response : Result Error Response → IssueState
unfolding state_of_body
state_of_response (throw e) = unknown
state_of_response (ok r) =
    if r.is_ok then (elim r.json [ throw e ↦ unknown | ok v ↦ state_of_body v ]) else unknown

-- A confidence in hundredths.
pub record Classified : Type 0 where
  pub label : List ℕ
  pub confidence : ℕ

abbrev pub label_of : Value → List ℕ
label_of (text s) = codes s
label_of v = codes "ok"

abbrev pub confidence_of : Value → ℕ
confidence_of (number n) = n * 100
confidence_of v = 0

-- A body that is null throws; no other value than an object has fields.
unfoldable pub classified_of_body : Error → Value → Result Error Classified
unfolding get_field
classified_of_body type_error undefined = throw type_error
classified_of_body type_error null = throw type_error
classified_of_body type_error (object fields) = ok (record {
  label = label_of (get_field "label" fields);
  confidence = confidence_of (get_field "confidence" fields);
})
classified_of_body type_error v = ok (record { label = codes "ok"; confidence = 0 })

unfoldable pub classified_of_response : Error → Result Error Response → Result Error Classified
unfolding classified_of_body
classified_of_response type_error (throw e) = throw e
classified_of_response type_error (ok r) =
    if r.is_ok
    then (elim r.json [ throw e ↦ throw e | ok v ↦ classified_of_body type_error v ])
    else ok (record { label = codes "ok"; confidence = 0 })

module _ (fetch : Request → Result Error Response) where
  -- The body of `try`; an encoding that throws makes no request.
  abbrev pub ask_for_files : List ℕ → Option (List ℕ) → List Request × Option (List String)
  ask_for_files token none = ([], none)
  ask_for_files token (some url) =
      let request = get_request token (url ++ codes "/files") in
      (request ∷ [], files_of_response (fetch request))

  abbrev pub ask_for_state : List ℕ → Option (List ℕ) → List Request × IssueState
  ask_for_state token none = ([], unknown)
  ask_for_state token (some url) =
      let request = get_request token url in (request ∷ [], state_of_response (fetch request))

  abbrev pub fetch_files_of :
      List ℕ → List (List ℕ) → ℕ → Options → List Request × Option (List String)
  fetch_files_of token (owner ∷ repo ∷ parts) pull_number opts =
      if is_empty (some owner) || is_empty (some repo)
      then ([], none)
      else ask_for_files token (repo_url opts.github_api_url owner repo "/pulls/" pull_number)
  fetch_files_of token parts pull_number opts = ([], none)

  unfoldable pub fetch_git_hub_pull_request_files :
      List ℕ → ℕ → Options → List Request × Option (List String)
  unfolding split_at_slash repo_url get_request files_of_response
  fetch_git_hub_pull_request_files repository pull_number opts =
      if is_empty opts.github_token
      then ([], none)
      else fetch_files_of (get_or opts.github_token []) (split_at_slash repository) pull_number opts

  unfoldable pub fetch_git_hub_issue_state :
      List ℕ → List ℕ → ℕ → Option (List ℕ) → Option (List ℕ) → List Request × IssueState
  unfolding repo_url get_request state_of_response
  fetch_git_hub_issue_state owner repo issue_number token api_url =
      if is_empty token || (is_empty (some owner) || is_empty (some repo))
      then ([], unknown)
      else ask_for_state (get_or token []) (repo_url api_url owner repo "/issues/" issue_number)

  -- `JSON.stringify` of a text is an argument, and so is the error of a read from null.
  unfoldable pub classify_comment :
      (List ℕ → List ℕ) → Error → List ℕ → Option (List ℕ) → List Request × Result Error Classified
  unfolding includes to_lower_case classified_of_response
  classify_comment quote type_error comment classifier_url =
      let request : Request = record {
        url = get_or classifier_url [];
        method = post;
        headers = ("content-type", codes "application/json") ∷ [];
        body = some (codes "{\"text\":" ++ (quote comment ++ codes "}"));
      } in
      if is_empty classifier_url
      then (
        [],
        ok (record {
          label =
              if includes (codes "[hostile]") (to_lower_case comment)
              then codes "hostile"
              else codes "ok";
          confidence = 95;
        }),
      )
      else (request ∷ [], classified_of_response type_error (fetch request))
