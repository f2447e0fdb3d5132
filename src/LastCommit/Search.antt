-- ===== src/LastCommit/Search.antt =====
-- The search of getLastCommit.js ends, and prints the first pipeline whose workflows succeeded.
use account_lookup_bc.Common.{
  ℕ, zero, suc, ◌<◌, String, Nullable, truthy, ◌≡◌, refl, sym, subst, inl, inr, Option, none, some,
  List, [], ◌∷◌, ◌++◌, length, arith, ok, Option-cases,
}
use account_lookup_bc.LastCommit.{
  Api, Settings, Script, Pipeline, Workflow, candidate, pipelines_url, workflows_url, get_pipelines,
  get_pipeline_workflows, check_pipelines, start_loop,
}
use account_lookup_bc.LastCommit.Verdict.{IsFirst, pick, pick-append, pick-IsFirst}

abbrev pub concat : List (List Pipeline) → List Pipeline
concat [] = []
concat (page ∷ pages) = page ++ concat pages

module _ {W : Type 0} (api : Api W) (settings : Settings) (flows : Nullable → List Workflow) where
  -- The workflows of each pipeline are answered, and stay the same.
  abbrev pub HasFlows : Type 0
  HasFlows =
      (id : Nullable) (w : W)
      → (token : Nullable) × ((api.workflows settings.user (workflows_url id) w).0
          ≡ ok (some (record { items = some (flows id); next_page_token = token })))

  -- The pages that are answered from a token on: each names the next one, and the last names none.
  abbrev pub Serves : Nullable → List Pipeline → List (List Pipeline) → Type 0
  Serves token page [] =
      (next : Nullable) × ((w : W)
        → (api.pipelines settings.user (pipelines_url settings.projectslug token) w).0
          ≡ ok (some (record { items = some page; next_page_token = next })))
      × (truthy next ≡ none)
  Serves token page (page' ∷ pages) =
      (next : Nullable) × ((w : W)
        → (api.pipelines settings.user (pipelines_url settings.projectslug token) w).0
          ≡ ok (some (record { items = some page; next_page_token = next })))
      × ((t : String) × (truthy next ≡ some t))
      × Serves next page' pages

  module _ (has_flows : HasFlows) where
    workflows_cases :
        (id : Nullable) (s : Script W) (workflows : List Workflow)
        → flows id ≡ workflows
        → (found : Option (List Workflow)) × ((get_pipeline_workflows api settings id s).0
            ≡ ok found)
          × (elim found [ none ↦ [] | some items ↦ items ] ≡ flows id)
          × ((get_pipeline_workflows api settings id s).1.token ≡ s.token)
    unfolding get_pipeline_workflows
    workflows_cases id s [] e =
        let (token, answer) = has_flows id s.world in
        (none, ground (arith, answer), sym e, ground (arith, answer))
    workflows_cases id s (first ∷ items) e =
        let (token, answer) = has_flows id s.world in
        (some (first ∷ items), ground (arith, answer), sym e, ground (arith, answer))

    check_pipelines_lem :
        (ps : List Pipeline) (s : Script W)
        → ((check_pipelines api settings ps s).0 ≡ ok (pick settings.branch flows ps))
          × ((check_pipelines api settings ps s).1.token ≡ s.token)
    unfolding check_pipelines
    check_pipelines_lem [] s = (refl, refl)
    check_pipelines_lem (p ∷ ps) s = elim (Option-cases (candidate settings.branch p)) [
      | inl skipped ↦
          let (same, kept) = check_pipelines_lem ps s in
          (ground (arith, skipped, same), ground (arith, skipped, kept))
      | inr (revision, chosen) ↦
          let (found, got, items, kept) = workflows_cases p.id s (flows p.id) refl in
          let (same, kept') =
            check_pipelines_lem ps (get_pipeline_workflows api settings p.id s).1 in
          (
            ground (arith, chosen, got, items, same),
            ground (arith, chosen, got, items, kept, kept'),
          )
    ]

    pipelines_lem :
        (page : List Pipeline) (next : Nullable) (s : Script W)
        → ((w : W)
            → (api.pipelines settings.user (pipelines_url settings.projectslug s.token) w).0
              ≡ ok (some (record { items = some page; next_page_token = next })))
        → get_pipelines api settings s ≡ (
          ok page,
          record {
            token = next;
            world =
                (api.pipelines settings.user
                  (pipelines_url settings.projectslug s.token)
                  s.world).1;
          },
        )
    unfolding get_pipelines
    pipelines_lem page next s answers = ground (arith, answers s.world)

    start_loop_lem :
        (rounds : ℕ) (page : List Pipeline) (pages : List (List Pipeline)) (s : Script W)
        → Serves s.token page pages
        → length pages < rounds
        → (start_loop api settings rounds s).0
          ≡ ok (some (pick settings.branch flows (page ++ concat pages)))
    unfolding start_loop
    start_loop_lem zero page pages s serves enough = absurd (omega arith)
    start_loop_lem (suc rounds) page [] s (next, answers, last) enough =
        let s1 : Script W = record {
          token = next;
          world =
              (api.pipelines settings.user (pipelines_url settings.projectslug s.token) s.world).1;
        } in
        let got : get_pipelines api settings s ≡ (ok page, s1) =
          pipelines_lem page next s answers in
        let (same, kept) = check_pipelines_lem page s1 in
        let joined = pick-append settings.branch flows page [] in
        ground (arith, got, same, kept, joined, last)
    start_loop_lem (suc rounds) page (page' ∷ pages) s (next, answers, more, serves) enough =
        let s1 : Script W = record {
          token = next;
          world =
              (api.pipelines settings.user (pipelines_url settings.projectslug s.token) s.world).1;
        } in
        let got : get_pipelines api settings s ≡ (ok page, s1) =
          pipelines_lem page next s answers in
        let (same, kept) = check_pipelines_lem page s1 in
        let s2 = (check_pipelines api settings page s1).1 in
        let joined = pick-append settings.branch flows page (page' ++ concat pages) in
        let rest =
          start_loop_lem rounds page' pages s2 (subst (λ t. Serves t page' pages) (sym kept) serves)
            (omega arith) in
        ground (arith, got, same, kept, joined, more.1, rest)

    -- For a branch whose pipelines come on `page` and then `pages`, with the workflows that `flows`
    -- has of each: as many rounds as there are pages are enough, no call being refused, and the
    -- script prints the revision of the first good pipeline, or nothing if there is none.
    pub start_loop_finds :
        (rounds : ℕ) (page : List Pipeline) (pages : List (List Pipeline)) (s : Script W)
        → Serves s.token page pages
        → length pages < rounds
        → (printed : Option Nullable) × ((start_loop api settings rounds s).0 ≡ ok (some printed))
          × IsFirst settings.branch flows (page ++ concat pages) printed
    start_loop_finds rounds page pages s serves enough =
        let ps = page ++ concat pages in
        (
          pick settings.branch flows ps,
          start_loop_lem rounds page pages s serves enough,
          pick-IsFirst settings.branch flows ps,
        )
