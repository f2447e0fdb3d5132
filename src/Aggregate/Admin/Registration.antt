-- ===== src/Aggregate/Admin/Registration.antt =====
-- `addOracle`: what a success and a failure leave behind.
use account_lookup_bc.Common.{
  String, ◌≡◌, ap, ◌∙◌, ◌⊎◌, inl, inr, none, List, [], ◌∷◌, ◌++◌, find, ◌==◌, arith, Error, ok,
  throw, Result-cases,
}
use account_lookup_bc.Domain.Entities.{Oracle, AddOracleDto}
use account_lookup_bc.Domain.Ports.{Services}
use account_lookup_bc.Aggregate.State.{Aggregate}
use account_lookup_bc.Aggregate.Admin.{new_oracle, claim_id, register, add_oracle}
use account_lookup_bc.Aggregate.Admin.Registry.{
  ServiceLaws, InSync, InSync-append, InSync-not_of_extra,
}
use account_lookup_bc.Aggregate.Admin.Outcome.{
  Registered, claim_id-Same, claim_id-is_new, Registered-of, failed_of,
}

module _ {W : Type 0} (env : Services W) (oracles : W → List Oracle)
    (laws : ServiceLaws env oracles) where
  pub run_claimed :
      (dto : AddOracleDto) (claimed : String) (s : Aggregate W)
      → (claim_id env dto.id s).0 ≡ ok claimed
      → add_oracle env dto s ≡ register env dto claimed (claim_id env dto.id s).1
  unfolding add_oracle
  run_claimed dto claimed s answered = ground arith

  registers_claimed :
      (dto : AddOracleDto) (claimed : String) (s : Aggregate W)
      → InSync oracles s
      → (claim_id env dto.id s).0 ≡ ok claimed
      → let s1 = (claim_id env dto.id s).1 in
        Registered env oracles laws dto claimed s1 (register env dto claimed s1).1
        → let s' = (add_oracle env dto s).1 in
          (find (λ o. o.id == claimed) (oracles s.world) ≡ none)
          × (find (λ o. o.name == dto.name) (oracles s.world) ≡ none)
          × (oracles s'.world ≡ oracles s.world ++ new_oracle dto claimed ∷ [])
          × InSync oracles s'
  registers_claimed dto claimed s h answered done =
      let kept = claim_id-Same env oracles laws dto.id s in
      let unknown = claim_id-is_new env oracles laws dto.id s claimed answered in
      let adapters = done.adapters ∙ ap (λ adapters. adapters ++ done.adapter ∷ []) kept.adapters in
      let registered =
        done.registered ∙ ap (λ os. os ++ new_oracle dto claimed ∷ []) kept.registered in
      rw (run_claimed dto claimed s answered) (
        unknown,
        rw (← kept.registered) done.unnamed,
        registered,
        InSync-append oracles s _ (new_oracle dto claimed) done.adapter h
            (laws.created _ _ done.created) unknown adapters registered,
      )

  -- Of services that keep ServiceLaws and a registry in step: a registration that succeeds has
  -- found neither an oracle of that id nor one of that name; the finder then holds the new oracle
  -- after the others, and the registry is in step again, with a new adapter.
  pub add_oracle_registers :
      (dto : AddOracleDto) (id : String) (s : Aggregate W)
      → InSync oracles s
      → (add_oracle env dto s).0 ≡ ok id
      → let s' = (add_oracle env dto s).1 in
        (find (λ o. o.id == id) (oracles s.world) ≡ none)
        × (find (λ o. o.name == dto.name) (oracles s.world) ≡ none)
        × (oracles s'.world ≡ oracles s.world ++ new_oracle dto id ∷ [])
        × InSync oracles s'
  unfolding add_oracle
  add_oracle_registers dto id s h e = elim (Result-cases (claim_id env dto.id s).0) [
    | inr (x, thrown) ↦ absurd (ground arith)
    | inl (claimed, answered) ↦
        let s1 = (claim_id env dto.id s).1 in
        let (same, done) = Registered-of env oracles laws dto claimed id s1 (ground arith) in
        rw same (registers_claimed dto claimed s h answered done)
  ]

  -- Of services that keep ServiceLaws and a registry in step: a registration that fails leaves the
  -- adapters alone. It leaves the finder's oracles alone too, or else the finder has stored the
  -- new oracle: then the oracle stays registered with no adapter, and the registry is out of step.
  pub add_oracle_failure :
      (dto : AddOracleDto) (s : Aggregate W) (e : Error)
      → InSync oracles s
      → (add_oracle env dto s).0 ≡ throw e
      → let s' = (add_oracle env dto s).1 in
        (s'.adapters ≡ s.adapters)
        × ((oracles s'.world ≡ oracles s.world)
            ⊎ ((id : String) × (oracles s'.world ≡ oracles s.world ++ new_oracle dto id ∷ [])
                × ¬ InSync oracles s'))
  unfolding add_oracle
  add_oracle_failure dto s e h failed =
      let kept = claim_id-Same env oracles laws dto.id s in
      elim (Result-cases (claim_id env dto.id s).0) [
        | inr (x, thrown) ↦ (ground (arith, kept.adapters), inl (ground (arith, kept.registered)))
        | inl (claimed, answered) ↦
            let s1 = (claim_id env dto.id s).1 in
            rw (run_claimed dto claimed s answered)
              (elim (failed_of env oracles laws dto claimed e s1
                (ground (arith, run_claimed dto claimed s answered))) [
                  | inl same ↦
                      (same.adapters ∙ kept.adapters, inl (same.registered ∙ kept.registered))
                  | inr lost ↦
                      let adapters = lost.adapters ∙ kept.adapters in
                      let registered =
                        lost.registered
                        ∙ ap (λ os. os ++ new_oracle dto claimed ∷ []) kept.registered in
                      (
                        adapters,
                        inr (
                          claimed,
                          registered,
                          InSync-not_of_extra oracles s _ (new_oracle dto claimed) h adapters
                              registered,
                        ),
                      )
                ])
      ]
