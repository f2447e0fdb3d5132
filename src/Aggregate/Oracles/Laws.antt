-- ===== src/Aggregate/Oracles/Laws.antt =====
-- What a lookup through an oracle answers, and which error a failed one becomes.
use account_lookup_bc.Common.{
  String, Nullable, truthy, ◌≡◌, ◌≢◌, refl, ◌↔◌, ◌⊎◌, inl, inr, none, some, arith, Action, Error,
  ok, throw, participant_not_found, unable_to_get_participant_fsp_id, Option-cases, Result-cases,
}
use account_lookup_bc.Domain.Entities.{Oracle, ParticipantLookup}
use account_lookup_bc.Domain.Ports.{Services, OracleProviderAdapter}
use account_lookup_bc.Aggregate.State.{Aggregate}
use account_lookup_bc.Aggregate.Oracles.{
  adapter_of, lookup_error, get_oracle_adapter, get_participant_id_from_oracle, get_account_lookup,
}

lookup_error-other :
    (e : Error) → e ≢ participant_not_found → lookup_error e ≡ unable_to_get_participant_fsp_id
lookup_error-other participant_not_found h = absurd (h refl)
lookup_error-other _ h = refl

module _ {W : Type 0} (env : Services W) where
  -- The finder names an oracle for the party type and currency, and the aggregate holds an adapter
  -- with that oracle's id.
  pub record Serves (party_type currency : Nullable) (s : Aggregate W)
      (adapter : OracleProviderAdapter W) : Type 0 where
    pub oracle : Oracle
    pub named : (env.finder.get_oracle party_type currency s.world).0 ≡ ok (some oracle)
    pub held : adapter_of oracle.id s ≡ some adapter

  -- the state after the finder was asked
  abbrev pub after_finder : (party_type currency : Nullable) → Aggregate W → Aggregate W
  after_finder party_type currency s = record s {
    world = (env.finder.get_oracle party_type currency s.world).1;
  }

  pub get_oracle_adapter_of_Serves :
      (party_type currency : Nullable) (s : Aggregate W) (adapter : OracleProviderAdapter W)
      → Serves party_type currency s adapter
      → get_oracle_adapter env party_type currency s
        ≡ (ok adapter, after_finder party_type currency s)
  unfolding get_oracle_adapter
  get_oracle_adapter_of_Serves party_type currency s adapter h = ground (arith, h.named, h.held)

  pub Serves-of_ok :
      (party_type currency : Nullable) (s : Aggregate W) (adapter : OracleProviderAdapter W)
      → (get_oracle_adapter env party_type currency s).0 ≡ ok adapter
      → Serves party_type currency s adapter
  unfolding get_oracle_adapter
  Serves-of_ok party_type currency s adapter e =
      elim (Result-cases (env.finder.get_oracle party_type currency s.world).0) [
        | inr (x, thrown) ↦ absurd (ground arith)
        | inl (found, answered) ↦ elim (Option-cases found) [
          | inl missing ↦ absurd (ground arith)
          | inr (oracle, present) ↦ elim (Option-cases (adapter_of oracle.id s)) [
            | inl no_adapter ↦ absurd (ground arith)
            | inr (other, held) ↦ record {
              oracle = oracle;
              named = ground arith;
              held = ground arith;
            }
          ]
        ]
      ]

  -- The adapter that serves the request answers `answer` about the party.
  pub record Answered (l : ParticipantLookup) (s : Aggregate W) (answer : Nullable) : Type 0 where
    pub adapter : OracleProviderAdapter W
    pub serves : Serves l.party_type l.currency s adapter
    pub given :
        (adapter.get_participant_fsp_id l.party_type l.party_id l.party_sub_type l.currency
          (after_finder l.party_type l.currency s).world).0
        ≡ ok answer

  abbrev lookup_of : ParticipantLookup → Action (Aggregate W) String
  lookup_of l =
      get_participant_id_from_oracle env l.party_id l.party_type l.party_sub_type l.currency

  get_oracle_adapter-ne-not_found :
      (party_type currency : Nullable) (s : Aggregate W)
      → (get_oracle_adapter env party_type currency s).0 ≢ throw participant_not_found
  unfolding get_oracle_adapter
  get_oracle_adapter-ne-not_found party_type currency s = ground arith

  Answered-once :
      (l : ParticipantLookup) (s : Aggregate W) (adapter : OracleProviderAdapter W) (e : Error)
      → (get_oracle_adapter env l.party_type l.currency s).0 ≡ ok adapter
      → (adapter.get_participant_fsp_id l.party_type l.party_id l.party_sub_type l.currency
          (after_finder l.party_type l.currency s).world).0
        ≡ throw e
      → (answer : Nullable) → ¬ Answered l s answer
  Answered-once l s adapter e ready thrown answer h =
      let run = get_oracle_adapter_of_Serves l.party_type l.currency s h.adapter h.serves in
      let same : adapter ≡ h.adapter = ground (arith, run, ready) in
      let given = h.given in let thrown' = rw same at thrown in cc

  -- What the two steps of a lookup lead to: an answer, or an error other than "not found".
  lookup_cases :
      (l : ParticipantLookup) (s : Aggregate W)
      → ((answer : Nullable) × Answered l s answer
          × ((lookup_of l s).0
              ≡ elim (truthy answer) [ none ↦ throw participant_not_found | some f ↦ ok f ]))
        ⊎ ((e : Error) × ((lookup_of l s).0 ≡ throw e)
            × (e ≢ participant_not_found)
            × ((answer : Nullable) → ¬ Answered l s answer))
  unfolding get_participant_id_from_oracle
  lookup_cases l s = elim (Result-cases (get_oracle_adapter env l.party_type l.currency s).0) [
    | inr (e, thrown) ↦ inr (
      e,
      ground (arith, thrown),
      λ x. get_oracle_adapter-ne-not_found l.party_type l.currency s (cc),
      λ answer h.
          let run = get_oracle_adapter_of_Serves l.party_type l.currency s h.adapter h.serves in
          ground (arith, run, thrown),
    )
    | inl (adapter, ready) ↦
        let serves = Serves-of_ok l.party_type l.currency s adapter ready in
        let run = get_oracle_adapter_of_Serves l.party_type l.currency s adapter serves in
        elim (Result-cases
          (adapter.get_participant_fsp_id l.party_type l.party_id l.party_sub_type l.currency
            (after_finder l.party_type l.currency s).world).0) [
              | inl (answer, given) ↦ inl (
                answer,
                record { adapter = adapter; serves = serves; given = given },
                ground (arith, run, given),
              )
              | inr (e, thrown) ↦ inr (
                unable_to_get_participant_fsp_id,
                ground (arith, run, thrown),
                λ x. cc,
                λ answer h. Answered-once l s adapter e ready thrown answer h,
              )
            ]
  ]

  lookup_of-Answered :
      (l : ParticipantLookup) (s : Aggregate W) (answer : Nullable)
      → Answered l s answer
      → (lookup_of l s).0
        ≡ elim (truthy answer) [ none ↦ throw participant_not_found | some f ↦ ok f ]
  unfolding get_participant_id_from_oracle
  lookup_of-Answered l s answer h =
      let run = get_oracle_adapter_of_Serves l.party_type l.currency s h.adapter h.serves in
      ground (arith, run, h.given)

  -- A lookup answers with an FSP exactly when the adapter of the oracle that the finder names
  -- answers with that FSP's id, which is not empty; it reports "participant not found" exactly when
  -- that adapter answers with no id; and every other failure becomes "unable to get the FSP id".
  pub get_account_lookup_outcomes :
      (l : ParticipantLookup) (s : Aggregate W)
      → ((fsp_id : String)
          → ((get_account_lookup env l s).0 ≡ ok fsp_id)
            ↔ ((answer : Nullable) × Answered l s answer × (truthy answer ≡ some fsp_id)))
        × (((get_account_lookup env l s).0 ≡ throw participant_not_found)
            ↔ ((answer : Nullable) × Answered l s answer × (truthy answer ≡ none)))
        × (((fsp_id : String) × ((get_account_lookup env l s).0 ≡ ok fsp_id))
            ⊎ ((get_account_lookup env l s).0 ≡ throw participant_not_found)
            ⊎ ((get_account_lookup env l s).0 ≡ throw unable_to_get_participant_fsp_id))
  unfolding get_account_lookup
  get_account_lookup_outcomes l s = elim (lookup_cases l s) [
    | inl (answer, h, run) ↦ (
      λ fsp_id. (
        λ e. (answer, h, ground (arith, run)),
        λ (other, k, text). ground (arith, lookup_of-Answered l s other k),
      ),
      (
        λ e. (answer, h, ground (arith, run)),
        λ (other, k, text). ground (arith, lookup_of-Answered l s other k),
      ),
      elim (Option-cases (truthy answer)) [
        | inl absent ↦ inr (inl (ground (arith, run)))
        | inr (f, present) ↦ inl (f, ground (arith, run))
      ],
    )
    | inr (e, run, other, nobody) ↦ (
      λ fsp_id. (λ x. absurd (ground (arith, run)), λ (answer, k, text). absurd (nobody answer k)),
      (
        λ x. absurd (ground (arith, run, lookup_error-other e other)),
        λ (answer, k, text). absurd (nobody answer k),
      ),
      inr (inr (ground (arith, run, lookup_error-other e other))),
    )
  ]
