-- ===== src/Examples/LastCommit.antt =====
-- The search for the last good commit, on two pages; and the arguments of the script.
use account_lookup_bc.Common.{
  ℕ, String, Nullable, null, str, texts-ne, ◌≡◌, refl, Option, none, some, List, [], ◌∷◌, ◌==◌,
  if◌then◌else◌, arith, ok,
}
use account_lookup_bc.LastCommit.{Api, Settings, Pipeline, Workflow, start_loop}
use account_lookup_bc.LastCommit.Verdict.{IsFirst}
use account_lookup_bc.LastCommit.Search.{start_loop_finds}
use account_lookup_bc.LastCommit.Arguments.{followed, long, process_args, process_args_reads}

abbrev failed_build : Pipeline
failed_build = record { id = str "2"; state = str "errored"; vcs = some (str "main", str "c2") }

abbrev good_build : Pipeline
good_build = record { id = str "1"; state = str "created"; vcs = some (str "main", str "c1") }

abbrev flows : Nullable → List Workflow
flows id = record { status = str "success" } ∷ record { status = str "not_run" } ∷ []

abbrev settings : Settings
settings = record { user = "me"; branch = "main"; projectslug = "gh/mojaloop/repo" }

abbrev first_url : String
first_url = "https://circleci.com/api/v2/project/gh/mojaloop/repo/pipeline/"

-- Two pages of one pipeline each.
abbrev api : Api ℕ
api = record {
  pipelines = λ user url w. (
    if url == first_url
        then ok (some (record { items = some (failed_build ∷ []); next_page_token = str "p2" }))
        else ok (some (record { items = some (good_build ∷ []); next_page_token = null })),
    w,
  );
  workflows =
      λ user url w. (ok (some (record { items = some (flows null); next_page_token = null })), w);
}

start_loop_finds_example :
    (printed : Option Nullable) × ((start_loop api settings 2
        (record { token = null; world = 0 })).0
      ≡ ok (some printed))
    × IsFirst "main" flows (failed_build ∷ good_build ∷ []) printed
start_loop_finds_example =
    start_loop_finds api settings flows (λ id w. (null, refl)) 2 (failed_build ∷ [])
      ((good_build ∷ []) ∷ []) (record { token = null; world = 0 })
      (str "p2", λ w. refl, ("p2", refl), (null, λ w. refl, refl)) (omega arith)

finds_first_commit :
    (start_loop api settings 2 (record { token = null; world = 0 })).0 ≡ ok (some (some (str "c1")))
unfolding start_loop
finds_first_commit = refl

process_args_reads_example :
    process_args (
      long "user" (followed "me" (some "padding"))
      ∷ long "repo" (followed "repo" none)
      ∷ long "branch" (followed "main" none)
      ∷ [])
    ≡ some settings
process_args_reads_example =
    process_args_reads "me" "repo" "main" (some "padding") none none (refl, (refl, tt))
      (refl, (refl, (refl, (refl, tt)))) (refl, (refl, (refl, (refl, tt)))) (texts-ne _ _ refl)
      (texts-ne _ _ refl) (texts-ne _ _ refl)

-- A value that is cut, and a flag.
cuts_at_equals :
    process_args ("--user=ab==" ∷ "-v" ∷ "--repo=repo" ∷ "--branch=main" ∷ [])
    ≡ some (record settings { user = "ab" })
unfolding process_args
cuts_at_equals = refl
