-- ===== src/Aggregate/Admin/Outcome.antt =====
-- `addOracle` step by step: the choice of an id, and what each way through the rest leaves behind.
use account_lookup_bc.Common.{
  String, Nullable, truthy, ◌≡◌, refl, ap, subst, ◌∙◌, sym, ◌⊎◌, inl, inr, none, some, List, [],
  ◌∷◌, ◌++◌, find, ◌==◌, arith, Result, Error, ok, throw, duplicate_oracle, Option-cases,
  Result-cases,
}
use account_lookup_bc.Domain.Entities.{Oracle, AddOracleDto}
use account_lookup_bc.Domain.Ports.{Services, OracleProviderAdapter}
use account_lookup_bc.Aggregate.State.{Aggregate}
use account_lookup_bc.Aggregate.Admin.{new_oracle, claim_id, register}
use account_lookup_bc.Aggregate.Admin.Registry.{ServiceLaws}

module _ {W : Type 0} (env : Services W) (oracles : W → List Oracle)
    (laws : ServiceLaws env oracles) where
  -- The state still stands for the same oracles and holds the same adapters.
  pub record Same (s s' : Aggregate W) : Type 0 where
    pub adapters : s'.adapters ≡ s.adapters
    pub registered : oracles s'.world ≡ oracles s.world

  pub claim_id-Same : (id : Nullable) (s : Aggregate W) → Same s (claim_id env id s).1
  unfolding claim_id
  claim_id-Same id s = elim (Option-cases (truthy id)) [
    | inl absent ↦ record {
      adapters = ground arith;
      registered = ground (arith, laws.uuid_keeps s.world);
    }
    | inr (given, present) ↦ record {
      adapters = ground arith;
      registered = ground (arith, laws.finds.by_id_keeps given s.world);
    }
  ]

  pub claim_id-is_new :
      (id : Nullable) (s : Aggregate W) (claimed : String)
      → (claim_id env id s).0 ≡ ok claimed
      → find (λ o. o.id == claimed) (oracles s.world) ≡ none
  unfolding claim_id
  claim_id-is_new id s claimed e = elim (Option-cases (truthy id)) [
    | inl absent ↦ laws.fresh claimed s.world (ground arith)
    | inr (given, present) ↦ elim (Result-cases (env.finder.get_oracle_by_id given s.world).0) [
      | inr (x, thrown) ↦ absurd (ground arith)
      | inl (known, answered) ↦ elim (Option-cases known) [
        | inr (o, found) ↦ absurd (ground arith)
        | inl unknown ↦ ground (arith, laws.finds.by_id_reads given s.world known answered)
      ]
    ]
  ]

  -- What a registration under `id` has done when it succeeds.
  pub record Registered (dto : AddOracleDto) (id : String) (s s' : Aggregate W) : Type 0 where
    pub adapter : OracleProviderAdapter W
    pub created : env.create (new_oracle dto id) ≡ ok adapter
    pub adapters : s'.adapters ≡ s.adapters ++ adapter ∷ []
    pub registered : oracles s'.world ≡ oracles s.world ++ new_oracle dto id ∷ []
    pub unnamed : find (λ o. o.name == dto.name) (oracles s.world) ≡ none

  -- What it has done when it fails: nothing, or it has stored an oracle whose adapter it dropped.
  pub record Dropped (dto : AddOracleDto) (id : String) (s s' : Aggregate W) : Type 0 where
    pub adapter : OracleProviderAdapter W
    pub created : env.create (new_oracle dto id) ≡ ok adapter
    pub adapters : s'.adapters ≡ s.adapters
    pub registered : oracles s'.world ≡ oracles s.world ++ new_oracle dto id ∷ []

  abbrev Outcome : AddOracleDto → String → Aggregate W → Result String × Aggregate W → Type 0
  Outcome dto id s (ok got, s') = (got ≡ id) × Registered dto id s s'
  Outcome dto id s (throw e, s') = Same s s' ⊎ Dropped dto id s s'

  -- The last step of a registration: the oracle is stored, and its adapter starts or fails to.
  stored-Outcome :
      (dto : AddOracleDto) (id : String) (s : Aggregate W) (a : OracleProviderAdapter W)
      → (env.finder.get_oracle_by_name dto.name s.world).0 ≡ ok none
      → env.create (new_oracle dto id) ≡ ok a
      → (env.finder.add_oracle
          (new_oracle dto id)
          (env.finder.get_oracle_by_name dto.name s.world).1).0
        ≡ ok tt
      → Outcome dto id s (register env dto id s)
  unfolding register
  stored-Outcome dto id s a answered created stored =
      let o = new_oracle dto id in
      let w1 = (env.finder.get_oracle_by_name dto.name s.world).1 in
      let w2 = (env.finder.add_oracle o w1).1 in
      let kept = laws.finds.by_name_keeps dto.name s.world in
      let End = Outcome dto id s in
      let added : oracles w2 ≡ oracles s.world ++ o ∷ [] =
        laws.finds.add_adds o w1 stored ∙ ap (λ os. os ++ o ∷ []) kept in
      elim (Result-cases (a.init w2).0) [
        | inr (x, thrown) ↦
            let run : register env dto id s ≡ (throw x, record s { world = (a.init w2).1 }) =
              ground arith in
            subst End (sym run) (
              inr (record {
                adapter = a;
                created = created;
                adapters = refl;
                registered = laws.init_keeps o a w2 created ∙ added;
              }))
        | inl (_, ready) ↦
            let run : register env dto id s
                ≡ (ok id, record { adapters = s.adapters ++ a ∷ []; world = (a.init w2).1 }) =
              ground arith in
            subst End (sym run) (
              refl,
              record {
                adapter = a;
                created = created;
                adapters = refl;
                registered = laws.init_keeps o a w2 created ∙ added;
                unnamed = sym (laws.finds.by_name_reads dto.name s.world none answered);
              },
            )
      ]

  register-Outcome :
      (dto : AddOracleDto) (id : String) (s : Aggregate W)
      → Outcome dto id s (register env dto id s)
  unfolding register
  register-Outcome dto id s =
      let o = new_oracle dto id in
      let w1 = (env.finder.get_oracle_by_name dto.name s.world).1 in
      let w2 = (env.finder.add_oracle o w1).1 in
      let kept = laws.finds.by_name_keeps dto.name s.world in
      let End = Outcome dto id s in
      elim (Result-cases (env.finder.get_oracle_by_name dto.name s.world).0) [
        | inr (x, thrown) ↦
            let run : register env dto id s ≡ (throw x, record s { world = w1 }) = ground arith in
            subst End (sym run) (inl (record { adapters = refl; registered = kept }))
        | inl (some found, answered) ↦
            let run : register env dto id s ≡ (throw duplicate_oracle, record s { world = w1 }) =
              ground arith in
            subst End (sym run) (inl (record { adapters = refl; registered = kept }))
        | inl (none, answered) ↦ elim (Result-cases (env.create o)) [
          | inr (x, thrown) ↦
              let run : register env dto id s ≡ (throw x, record s { world = w1 }) = ground arith in
              subst End (sym run) (inl (record { adapters = refl; registered = kept }))
          | inl (a, created) ↦ elim (Result-cases (env.finder.add_oracle o w1).0) [
            | inr (x, thrown) ↦
                let run : register env dto id s ≡ (throw x, record s { world = w2 }) =
                  ground arith in
                subst End (sym run) (
                  inl (record {
                    adapters = refl;
                    registered = laws.finds.add_fails o w1 x thrown ∙ kept;
                  }))
            | inl (_, stored) ↦ stored-Outcome dto id s a answered created stored
          ]
        ]
      ]

  pub Registered-of :
      (dto : AddOracleDto) (id got : String) (s : Aggregate W)
      → (register env dto id s).0 ≡ ok got
      → (got ≡ id) × Registered dto id s (register env dto id s).1
  Registered-of dto id got s e = of_outcome (register env dto id s) (register-Outcome dto id s) e
    where
      of_outcome :
          (r : Result String × Aggregate W)
          → Outcome dto id s r
          → r.0 ≡ ok got
          → (got ≡ id) × Registered dto id s r.1
      of_outcome (ok x, s') (same, done) e = (ground arith, done)
      of_outcome (throw x, s') h e = absurd (cc)

  pub failed_of :
      (dto : AddOracleDto) (id : String) (x : Error) (s : Aggregate W)
      → (register env dto id s).0 ≡ throw x
      → Same s (register env dto id s).1 ⊎ Dropped dto id s (register env dto id s).1
  failed_of dto id x s e = of_outcome (register env dto id s) (register-Outcome dto id s) e
    where
      of_outcome :
          (r : Result String × Aggregate W)
          → Outcome dto id s r
          → r.0 ≡ throw x
          → Same s r.1 ⊎ Dropped dto id s r.1
      of_outcome (ok y, s') h e = absurd (cc)
      of_outcome (throw y, s') h e = h
