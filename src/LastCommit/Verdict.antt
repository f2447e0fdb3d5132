-- ===== src/LastCommit/Verdict.antt =====
-- Which pipeline getLastCommit.js means: the first good one.
use account_lookup_bc.Common.{
  String, Nullable, str, strict_eq, strict_eq_iff, ◌≡◌, ◌≢◌, refl, sym, ap, subst, ◌⊎◌, inl, inr,
  true, false, Option, none, some, List, [], ◌∷◌, ◌++◌, All, if◌then◌else◌, arith, Option-cases,
  Bool-cases,
}
use account_lookup_bc.LastCommit.{Pipeline, Workflow, failed, any_failed_workflow, candidate}

-- A pipeline of the branch that did not end in an error, and all of whose workflows, as `flows`
-- has them, succeeded or were not run.
pub record IsGood (branch : String) (flows : Nullable → List Workflow) (p : Pipeline)
    (revision : Nullable) : Type 0 where
  pub completed : p.state ≢ str "errored"
  pub on_branch : p.vcs ≡ some (str branch, revision)
  pub passed : All (λ w. (w.status ≡ str "success") ⊎ (w.status ≡ str "not_run")) (flows p.id)

-- The revision of the first good pipeline, or that there is none.
abbrev pub IsFirst :
    (branch : String) (flows : Nullable → List Workflow) → List Pipeline → Option Nullable → Type 0
IsFirst branch flows ps none =
    All (λ p. (revision : Nullable) → ¬ IsGood branch flows p revision) ps
IsFirst branch flows ps (some revision) =
    (before : List Pipeline) × (p : Pipeline) × (after : List Pipeline) × (ps ≡ before ++ p ∷ after)
    × All (λ q. (other : Nullable) → ¬ IsGood branch flows q other) before
    × IsGood branch flows p revision

status_of_passing :
    (w : Workflow) → failed w ≡ false → (w.status ≡ str "success") ⊎ (w.status ≡ str "not_run")
status_of_passing w e = elim (Bool-cases (strict_eq w.status (str "success"))) [
  | inl success ↦ inl ((strict_eq_iff w.status (str "success")).0 success)
  | inr other ↦ inr ((strict_eq_iff w.status (str "not_run")).0 (ground arith))
]

status_of_failing :
    (w : Workflow) → failed w ≡ true → (w.status ≡ str "success") ⊎ (w.status ≡ str "not_run") → ⊥
status_of_failing w e (inl success) =
    ground (arith, (strict_eq_iff w.status (str "success")).1 success)
status_of_failing w e (inr not_run) =
    ground (arith, (strict_eq_iff w.status (str "not_run")).1 not_run)

passing_statuses :
    (workflows : List Workflow)
    → any_failed_workflow workflows ≡ false
    → All (λ w. (w.status ≡ str "success") ⊎ (w.status ≡ str "not_run")) workflows
unfolding any_failed_workflow
passing_statuses [] e = tt
passing_statuses (w ∷ workflows) e =
    (status_of_passing w (ground arith), passing_statuses workflows (ground arith))

failing_statuses :
    (workflows : List Workflow)
    → any_failed_workflow workflows ≡ true
    → ¬ All (λ w. (w.status ≡ str "success") ⊎ (w.status ≡ str "not_run")) workflows
unfolding any_failed_workflow
failing_statuses [] e h = cc
failing_statuses (w ∷ workflows) e (h, rest) = elim (Bool-cases (failed w)) [
  | inl fails ↦ status_of_failing w fails h
  | inr passes ↦ failing_statuses workflows (ground arith) rest
]

-- What the script makes of one pipeline, and of a list of them.
abbrev judge : (branch : String) (flows : Nullable → List Workflow) → Pipeline → Option Nullable
judge branch flows p = elim (candidate branch p) [
  | none ↦ none
  | some revision ↦ if any_failed_workflow (flows p.id) then none else some revision
]

abbrev pub pick :
    (branch : String) (flows : Nullable → List Workflow) → List Pipeline → Option Nullable
pick branch flows [] = none
pick branch flows (p ∷ ps) =
    let rest = pick branch flows ps in
    elim (judge branch flows p) [ none ↦ rest | some revision ↦ some revision ]

judge-IsGood :
    (branch : String) (flows : Nullable → List Workflow) (p : Pipeline) (revision : Nullable)
    → judge branch flows p ≡ some revision
    → IsGood branch flows p revision
judge-IsGood branch flows p revision e =
    let errored = strict_eq_iff p.state (str "errored") in
    elim (Option-cases p.vcs) [
      | inl absent ↦ absurd (ground arith)
      | inr ((name, found), present) ↦
          let on_branch = strict_eq_iff name (str branch) in
          record {
            completed = ground arith;
            on_branch = ground arith;
            passed = passing_statuses (flows p.id) (ground arith);
          }
    ]

judge_bad :
    (branch : String) (flows : Nullable → List Workflow) (p : Pipeline)
    → judge branch flows p ≡ none
    → (revision : Nullable) → ¬ IsGood branch flows p revision
judge_bad branch flows p e revision good =
    let errored = strict_eq_iff p.state (str "errored") in
    let on_branch = strict_eq_iff (str branch) (str branch) in
    elim (Bool-cases (any_failed_workflow (flows p.id))) [
      | inl fails ↦ failing_statuses (flows p.id) fails good.passed
      | inr passes ↦ ground arith
    ]

pub pick-append :
    (branch : String) (flows : Nullable → List Workflow) (ps qs : List Pipeline)
    → pick branch flows (ps ++ qs)
      ≡ elim (pick branch flows ps) [ none ↦ pick branch flows qs | some r ↦ some r ]
pick-append branch flows [] qs = refl
pick-append branch flows (p ∷ ps) qs = ground (arith, pick-append branch flows ps qs)

later :
    (branch : String) (flows : Nullable → List Workflow) (p : Pipeline) (ps : List Pipeline)
    → ((revision : Nullable) → ¬ IsGood branch flows p revision)
    → (found : Option Nullable) → IsFirst branch flows ps found
    → IsFirst branch flows (p ∷ ps) found
later branch flows p ps bad none h = (bad, h)
later branch flows p ps bad (some revision) (before, q, after, split, others, good) =
    (p ∷ before, q, after, ap (λ l. p ∷ l) split, (bad, others), good)

pub pick-IsFirst :
    (branch : String) (flows : Nullable → List Workflow) (ps : List Pipeline)
    → IsFirst branch flows ps (pick branch flows ps)
pick-IsFirst branch flows [] = tt
pick-IsFirst branch flows (p ∷ ps) = elim (Option-cases (judge branch flows p)) [
  | inr (revision, found) ↦
      let same : pick branch flows (p ∷ ps) ≡ some revision = ground arith in
      subst (IsFirst branch flows (p ∷ ps)) (sym same)
        ([], p, ps, refl, tt, judge-IsGood branch flows p revision found)
  | inl bad ↦
      let same : pick branch flows (p ∷ ps) ≡ pick branch flows ps = ground arith in
      subst (IsFirst branch flows (p ∷ ps)) (sym same) (
        later branch flows p ps (judge_bad branch flows p bad) (pick branch flows ps)
          (pick-IsFirst branch flows ps))
]
