-- ===== src/LastCommit.antt =====
-- .circleci/getLastCommit.js: the script of the build that looks for the commit of the last
-- pipeline of a branch whose workflows succeeded. What it prints for debugging is left out.
pub mod Verdict
pub mod Search
pub mod Arguments
use Prim.Native.String.{◌++◌}
use account_lookup_bc.Common.{
  ℕ, zero, suc, String, Nullable, null, str, truthy, strict_eq, Bool, true, false, not, ◌&&◌, ◌||◌,
  shown, ok, Option, none, some, List, [], ◌∷◌, if◌then◌else◌, Action, base_error, pure, raise,
  ◌>>=◌, ◌>>◌,
}

-- `pipeline`, with the branch and the revision of its `vcs` if it has one
pub record Pipeline : Type 0 where
  pub id : Nullable
  pub state : Nullable
  pub vcs : Option (Nullable × Nullable)

pub record Workflow : Type 0 where
  pub status : Nullable

-- The body of an answer: `null`, or an object whose `items` may be missing.
pub record Page (A : Type 0) : Type 0 where
  pub items : Option (List A)
  pub next_page_token : Nullable

-- `fetch` of a URL with the header of the user, and `json()` on the answer.
pub record Api (W : Type 0) : Type 0 where
  pub pipelines : (user url : String) → Action W (Option (Page Pipeline))
  pub workflows : (user url : String) → Action W (Option (Page Workflow))

-- The global variables of the script that the arguments set.
pub record Settings : Type 0 where
  pub user : String
  pub branch : String
  pub projectslug : String

-- The token of the next page, and the world.
pub record Script (W : Type 0) : Type 0 where
  pub token : Nullable
  pub world : W

module _ {W A : Type 0} where
  abbrev pub lift : Action W A → Action (Script W) A
  lift m s = let (r, w) = m s.world in (r, record s { world = w })

abbrev pub get_token : {W : Type 0} → Action (Script W) Nullable
get_token s = (ok s.token, s)

abbrev pub set_token : {W : Type 0} → Nullable → Action (Script W) Unit
set_token token s = (ok tt, record s { token = token })

abbrev pub pipelines_url : (projectslug : String) (token : Nullable) → String
pipelines_url projectslug token =
    let url : String = "https://circleci.com/api/v2/project/" ++ (projectslug ++ "/pipeline/") in
    elim (truthy token) [ none ↦ url | some t ↦ url ++ ("?page-token=" ++ t) ]

abbrev pub workflows_url : (pipeline_id : Nullable) → String
workflows_url pipeline_id =
    "https://circleci.com/api/v2/pipeline/" ++ (shown pipeline_id ++ "/workflow")

-- `workflow.status !== "success" && workflow.status !== "not_run"`
abbrev pub failed : Workflow → Bool
failed workflow =
    not (strict_eq workflow.status (str "success"))
    && not (strict_eq workflow.status (str "not_run"))

-- The loop over the workflows, with its `break`: `anyFailedWorkflow`.
unfoldable pub any_failed_workflow : List Workflow → Bool
any_failed_workflow [] = false
any_failed_workflow (workflow ∷ workflows) = failed workflow || any_failed_workflow workflows

-- The two `continue` of the loop over the pipelines; the revision of one that is not skipped.
abbrev pub candidate : (branch : String) → Pipeline → Option Nullable
candidate branch pipeline =
    if strict_eq pipeline.state (str "errored") then none else elim pipeline.vcs [
      | none ↦ none
      | some (name, revision) ↦ if strict_eq name (str branch) then some revision else none
    ]

module _ {W : Type 0} (api : Api W) (settings : Settings) where
  unfoldable pub get_pipelines : Action (Script W) (List Pipeline)
  get_pipelines = do
    token ← get_token
    answer ← lift (api.pipelines settings.user (pipelines_url settings.projectslug token))
    elim answer [
      | none ↦ raise base_error
      | some page ↦ elim page.items [
        | none ↦ raise base_error
        | some items ↦ do set_token page.next_page_token; pure items
      ]
    ]

  -- `null` for no workflows, which the caller reads as an empty list
  unfoldable pub get_pipeline_workflows :
      (pipeline_id : Nullable) → Action (Script W) (Option (List Workflow))
  get_pipeline_workflows pipeline_id = do
    answer ← lift (api.workflows settings.user (workflows_url pipeline_id))
    elim answer [
      | none ↦ raise base_error
      | some page ↦ elim page.items [
        | none ↦ raise base_error
        | some [] ↦ pure none
        | some (first ∷ items) ↦ pure (some (first ∷ items))
      ]
    ]

  -- One page: the revision that is printed before `process.exit(0)`, if there is one.
  unfoldable pub check_pipelines : List Pipeline → Action (Script W) (Option Nullable)
  unfolding get_pipeline_workflows any_failed_workflow
  check_pipelines [] = pure none
  check_pipelines (pipeline ∷ pipelines) =
      let rest = check_pipelines pipelines in
      elim (candidate settings.branch pipeline) [
        | none ↦ rest
        | some revision ↦ do
          found ← get_pipeline_workflows pipeline.id
          let workflows : List Workflow = elim found [ none ↦ [] | some items ↦ items ]
          if any_failed_workflow workflows then rest else pure (some revision)
      ]

  -- `startLoop` with at most `rounds` rounds: `none` when they are used up, and otherwise what is
  -- printed before `process.exit(0)`.
  unfoldable pub start_loop : (rounds : ℕ) → Action (Script W) (Option (Option Nullable))
  unfolding get_pipelines check_pipelines
  start_loop zero = pure none
  start_loop (suc rounds) =
      let again = start_loop rounds in
      (do
        pipelines ← get_pipelines
        found ← check_pipelines pipelines
        token ← get_token
        elim found [
          | some revision ↦ pure (some (some revision))
          | none ↦ elim (truthy token) [ none ↦ pure (some none) | some _ ↦ again ]
        ])
