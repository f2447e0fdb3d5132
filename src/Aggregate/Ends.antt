-- ===== src/Aggregate/Ends.antt =====
-- How the handlers of AccountLookupAggregate end: a rule for each of the steps that they are
-- composed of.
use account_lookup_bc.Common.{
  Nullable, str, ◌≡◌, refl, ◌∙◌, inl, inr, Option, none, some, arith, Action, ok, pure,
  Result-cases,
}
use account_lookup_bc.Domain.Messages.{
  Event, unable_to_get_participant_error, unable_to_get_oracle_adapter_error,
}
use account_lookup_bc.Domain.Ports.{Services, OracleProviderAdapter}
use account_lookup_bc.Aggregate.State.{Aggregate, lift}
use account_lookup_bc.Aggregate.Validate.{
  participant_error, validate_requester, validate_destination, unless_rejected,
}
use account_lookup_bc.Aggregate.Validate.Laws.{
  Rejection, Describes, requester_event, destination_event, report_of, answer_in, asked, Accepts,
  validation_diagnosis,
}
use account_lookup_bc.Aggregate.Oracles.{get_oracle_adapter, get_participant_id_from_oracle}
use account_lookup_bc.Aggregate.Queries.{with_oracle_answer, oracle_lookup_error}
use account_lookup_bc.Aggregate.Associations.{with_adapter, answer_call, oracle_adapter_error}

module _ {W : Type 0} where
  -- From the state `s` the handler returns an event of which `P` holds, throws nothing, and leaves
  -- the list of adapters as it was.
  pub record Ends (P : Event → Type 0) (m : Action (Aggregate W) Event) (s : Aggregate W)
      : Type 0 where
    pub event : Event
    pub state : Aggregate W
    pub run : m s ≡ (ok event, state)
    pub holds : P event
    pub kept : state.adapters ≡ s.adapters

  pub pure-Ends : (P : Event → Type 0) (e : Event) (s : Aggregate W) → P e → Ends P (pure e) s
  pure-Ends P e s h = record { event = e; state = s; run = refl; holds = h; kept = refl }

  pub option-Ends :
      {A : Type 0} (P : Event → Type 0) (o : Option A) (found : A → Action (Aggregate W) Event)
      (missing : Action (Aggregate W) Event) (s : Aggregate W)
      → ((a : A) → Ends P (found a) s)
      → Ends P missing s
      → Ends P (elim o [ none ↦ missing | some a ↦ found a ]) s
  option-Ends P none found missing s f m = m
  option-Ends P (some a) found missing s f m = f a

  pub asked-adapters :
      (env : Services W) (fsp_id : Nullable) (s : Aggregate W)
      → (asked env fsp_id s).adapters ≡ s.adapters
  asked-adapters env fsp_id s = ground arith

  module _ (P : Event → Type 0) (check : Action (Aggregate W) (Option Event)) where
    rejected-Ends :
        (next : Action (Aggregate W) Event) (s s' : Aggregate W) (e : Event)
        → check s ≡ (ok (some e), s')
        → s'.adapters ≡ s.adapters
        → P e
        → Ends P (unless_rejected check next) s
    rejected-Ends next s s' e run kept h = record {
      event = e;
      state = s';
      run = ground (arith, run);
      holds = h;
      kept = kept;
    }

    accepted-Ends :
        (next : Action (Aggregate W) Event) (s s' : Aggregate W)
        → check s ≡ (ok none, s')
        → s'.adapters ≡ s.adapters
        → Ends P next s'
        → Ends P (unless_rejected check next) s
    accepted-Ends next s s' run kept h = record {
      event = h.event;
      state = h.state;
      run = ground (arith, run, h.run);
      holds = h.holds;
      kept = h.kept ∙ kept;
    }

module _ {W : Type 0} (env : Services W) (P : Event → Type 0) where
  validated :
      {R : Type 0} (event : Rejection → R → Event) (report : R)
      (check : Action (Aggregate W) (Option Event)) (next : Action (Aggregate W) Event)
      (fsp_id : Nullable) (s : Aggregate W) (d : Option Rejection)
      → Describes d fsp_id (answer_in env s)
      → check s ≡ (ok (report_of event d report), asked env fsp_id s)
      → ((why : Rejection) → P (event why report))
      → (Accepts env fsp_id s → Ends P next (asked env fsp_id s))
      → Ends P (unless_rejected check next) s
  validated event report check next fsp_id s none h run refused later =
      accepted-Ends P check next s _ run (asked-adapters env fsp_id s) (later h)
  validated event report check next fsp_id s (some why) h run refused later =
      rejected-Ends P check next s _ _ run (asked-adapters env fsp_id s) (refused why)

  module _ (party_id party_type party_sub_type fsp_id : Nullable) where
    pub requester-Ends :
        (next : Action (Aggregate W) Event) (s : Aggregate W)
        → ((why : Rejection)
            → P (requester_event why (participant_error party_id party_type party_sub_type fsp_id)))
        → (Accepts env fsp_id s → Ends P next (asked env fsp_id s))
        → Ends P
            (unless_rejected
              (validate_requester env party_id party_type party_sub_type fsp_id)
              next)
            s
    requester-Ends next s refused later =
        let (d, why, run, _) =
          validation_diagnosis env party_id party_type party_sub_type fsp_id s in
        validated requester_event _ _ next fsp_id s d why run refused later

    pub destination-Ends :
        (next : Action (Aggregate W) Event) (s : Aggregate W)
        → ((why : Rejection)
            → P (
                destination_event why
                  (participant_error party_id party_type party_sub_type fsp_id)))
        → (Accepts env fsp_id s → Ends P next (asked env fsp_id s))
        → Ends P
            (unless_rejected
              (validate_destination env party_id party_type party_sub_type fsp_id)
              next)
            s
    destination-Ends next s refused later =
        let (d, why, _, run) =
          validation_diagnosis env party_id party_type party_sub_type fsp_id s in
        validated destination_event _ _ next fsp_id s d why run refused later

  get_oracle_adapter-adapters :
      (party_type currency : Nullable) (s : Aggregate W)
      → (get_oracle_adapter env party_type currency s).1.adapters ≡ s.adapters
  unfolding get_oracle_adapter
  get_oracle_adapter-adapters party_type currency s = ground arith

  get_participant_id-adapters :
      (party_id party_type party_sub_type currency : Nullable) (s : Aggregate W)
      → (get_participant_id_from_oracle env party_id party_type party_sub_type currency
          s).1.adapters
        ≡ s.adapters
  unfolding get_participant_id_from_oracle
  get_participant_id-adapters party_id party_type party_sub_type currency s =
      ground (arith, get_oracle_adapter-adapters party_type currency s)

  pub oracle_answer-Ends :
      (party_id party_type party_sub_type currency : Nullable)
      (next : Nullable → Action (Aggregate W) Event) (s : Aggregate W)
      → P (
          unable_to_get_participant_error
            (oracle_lookup_error party_id party_type party_sub_type currency))
      → ((fsp_id : Nullable) (t : Aggregate W) → Ends P (next fsp_id) t)
      → Ends P (with_oracle_answer env party_id party_type party_sub_type currency next) s
  unfolding with_oracle_answer
  oracle_answer-Ends party_id party_type party_sub_type currency next s failed later =
      let m = get_participant_id_from_oracle env party_id party_type party_sub_type currency in
      let same = get_participant_id-adapters party_id party_type party_sub_type currency s in
      elim (Result-cases (m s).0) [
        | inl (fsp_id, answered) ↦
            let h = later (str fsp_id) (m s).1 in
            record {
              event = h.event;
              state = h.state;
              run = ground (arith, answered, h.run);
              holds = h.holds;
              kept = h.kept ∙ same;
            }
        | inr (e, thrown) ↦ record {
          event = _;
          state = (m s).1;
          run = ground (arith, thrown);
          holds = failed;
          kept = same;
        }
      ]

  pub adapter-Ends :
      (party_id party_type currency : Nullable)
      (next : OracleProviderAdapter W → Action (Aggregate W) Event) (s : Aggregate W)
      → P (unable_to_get_oracle_adapter_error (oracle_adapter_error party_id party_type currency))
      → ((adapter : OracleProviderAdapter W) (t : Aggregate W) → Ends P (next adapter) t)
      → Ends P (with_adapter env party_id party_type currency next) s
  unfolding with_adapter
  adapter-Ends party_id party_type currency next s failed later =
      let m = get_oracle_adapter env party_type currency in
      let same = get_oracle_adapter-adapters party_type currency s in
      elim (Result-cases (m s).0) [
        | inl (adapter, answered) ↦
            let h = later adapter (m s).1 in
            record {
              event = h.event;
              state = h.state;
              run = ground (arith, answered, h.run);
              holds = h.holds;
              kept = h.kept ∙ same;
            }
        | inr (e, thrown) ↦ record {
          event = _;
          state = (m s).1;
          run = ground (arith, thrown);
          holds = failed;
          kept = same;
        }
      ]

  pub call-Ends :
      (call : Action W Unit) (failed done : Event) (s : Aggregate W)
      → P failed
      → P done
      → Ends P (answer_call (lift call) failed done) s
  call-Ends call failed done s on_failed on_done = elim (Result-cases (call s.world).0) [
    | inl (_, answered) ↦ record {
      event = done;
      state = record s { world = (call s.world).1 };
      run = ground (arith, answered);
      holds = on_done;
      kept = refl;
    }
    | inr (e, thrown) ↦ record {
      event = failed;
      state = record s { world = (call s.world).1 };
      run = ground (arith, thrown);
      holds = on_failed;
      kept = refl;
    }
  ]
