-- ===== src/Aggregate/Validate/Laws.antt =====
-- Which participants the two validations of AccountLookupAggregate accept, and with which event
-- they refuse the others.
use account_lookup_bc.Common.{
  String, Nullable, truthy, ◌≡◌, refl, inl, inr, true, false, Option, none, some, arith, ◌==◌,
  eq_iff, Result, Error, ok, throw, Option-cases, Bool-cases,
}
use account_lookup_bc.Domain.Entities.{Participant}
use account_lookup_bc.Domain.Messages.{
  ErrorCode, Event, ParticipantError, invalid_requester_error, requester_not_found_error,
  requester_id_mismatch_error, requester_not_approved_error, requester_not_active_error,
  invalid_destination_error, destination_not_found_error, destination_id_mismatch_error,
  destination_not_approved_error, destination_not_active_error,
}
use account_lookup_bc.Domain.Ports.{Services}
use account_lookup_bc.Aggregate.State.{Aggregate}
use account_lookup_bc.Aggregate.Validate.{
  requester_verdict, destination_verdict, participant_error, validate_requester,
  validate_destination,
}

-- Why a participant is refused.
pub data Rejection : Type 0 where
  no_id unavailable unknown id_mismatch not_approved not_active : Rejection

-- What the service's answer about the FSP `id` has to be for each outcome.
abbrev pub Answers : Rejection → String → Result (Option Participant) → Type 0
Answers Rejection.no_id id r = ⊥
Answers Rejection.unavailable id r = (e : Error) × (r ≡ throw e)
Answers Rejection.unknown id r = r ≡ ok none
Answers Rejection.id_mismatch id r = (p : Participant) × (r ≡ ok (some p)) × ¬ (p.id ≡ id)
Answers Rejection.not_approved id r =
    (p : Participant) × (r ≡ ok (some p)) × (p.id ≡ id) × (p.approved ≡ false)
Answers Rejection.not_active id r =
    (p : Participant) × (r ≡ ok (some p))
    × (p.id ≡ id)
    × (p.approved ≡ true)
    × (p.is_active ≡ false)

-- A participant that the validations accept.
abbrev pub AnswersEligible : String → Result (Option Participant) → Type 0
AnswersEligible id r =
    (p : Participant) × (r ≡ ok (some p)) × (p.id ≡ id) × (p.approved ≡ true) × (p.is_active ≡ true)

abbrev pub DescribesAnswer : Option Rejection → String → Result (Option Participant) → Type 0
DescribesAnswer none id r = AnswersEligible id r
DescribesAnswer (some why) id r = Answers why id r

-- The verdict on an FSP id, given how the service answers about each id.
abbrev pub Describes : Option Rejection → Nullable → (String → Result (Option Participant)) → Type 0
Describes (some Rejection.no_id) fsp_id answer = truthy fsp_id ≡ none
Describes verdict fsp_id answer =
    (id : String) × (truthy fsp_id ≡ some id) × DescribesAnswer verdict id (answer id)

abbrev pub requester_event : Rejection → (ErrorCode → ParticipantError) → Event
requester_event Rejection.no_id report =
    invalid_requester_error (report ErrorCode.invalid_source_participant)
requester_event Rejection.unavailable report =
    invalid_requester_error (report ErrorCode.invalid_source_participant)
requester_event Rejection.unknown report =
    requester_not_found_error (report ErrorCode.source_participant_not_found)
requester_event Rejection.id_mismatch report =
    requester_id_mismatch_error (report ErrorCode.required_source_participant_id_mismatch)
requester_event Rejection.not_approved report =
    requester_not_approved_error (report ErrorCode.required_source_participant_not_approved)
requester_event Rejection.not_active report =
    requester_not_active_error (report ErrorCode.required_source_participant_not_active)

abbrev pub destination_event : Rejection → (ErrorCode → ParticipantError) → Event
destination_event Rejection.no_id report =
    invalid_destination_error (report ErrorCode.invalid_destination_participant)
destination_event Rejection.unavailable report =
    invalid_destination_error (report ErrorCode.invalid_destination_participant)
destination_event Rejection.unknown report =
    destination_not_found_error (report ErrorCode.destination_participant_not_found)
destination_event Rejection.id_mismatch report =
    destination_id_mismatch_error (report ErrorCode.required_destination_participant_id_mismatch)
destination_event Rejection.not_approved report =
    destination_not_approved_error (report ErrorCode.required_destination_participant_not_approved)
destination_event Rejection.not_active report =
    destination_not_active_error (report ErrorCode.required_destination_participant_not_active)

abbrev pub report_of {ℓ} :
    {R : Type ℓ} → (Rejection → R → Event) → Option Rejection → R → Option Event
report_of event none report = none
report_of event (some why) report = some (event why report)

verdicts_found :
    (report : ErrorCode → ParticipantError) (id : String) (p : Participant)
    → (d : Option Rejection) × DescribesAnswer d id (ok (some p))
      × (requester_verdict report id (ok (some p)) ≡ report_of requester_event d report)
      × (destination_verdict report id (ok (some p)) ≡ report_of destination_event d report)
unfolding requester_verdict destination_verdict
verdicts_found report id p = elim (Bool-cases (p.id == id)) [
  | inr other ↦
      (some Rejection.id_mismatch, (p, refl, ground (arith, eq_iff p.id id)), rw other, rw other)
  | inl same ↦ elim (Bool-cases p.approved) [
    | inr no_approval ↦ (
      some Rejection.not_approved,
      (p, refl, (eq_iff p.id id).0 same, no_approval),
      rw (same, no_approval),
      rw (same, no_approval),
    )
    | inl approved ↦ elim (Bool-cases p.is_active) [
      | inr inactive ↦ (
        some Rejection.not_active,
        (p, refl, (eq_iff p.id id).0 same, approved, inactive),
        rw (same, approved, inactive),
        rw (same, approved, inactive),
      )
      | inl active ↦ (
        none,
        (p, refl, (eq_iff p.id id).0 same, approved, active),
        rw (same, approved, active),
        rw (same, approved, active),
      )
    ]
  ]
]

verdicts :
    (report : ErrorCode → ParticipantError) (id : String) (r : Result (Option Participant))
    → (d : Option Rejection) × DescribesAnswer d id r
      × (requester_verdict report id r ≡ report_of requester_event d report)
      × (destination_verdict report id r ≡ report_of destination_event d report)
unfolding requester_verdict destination_verdict
verdicts report id (throw e) = (some Rejection.unavailable, (e, refl), refl, refl)
verdicts report id (ok none) = (some Rejection.unknown, refl, refl, refl)
verdicts report id (ok (some p)) = verdicts_found report id p

Describes-of_answer :
    (d : Option Rejection) (fsp_id : Nullable) (id : String)
    (answer : String → Result (Option Participant))
    → truthy fsp_id ≡ some id
    → DescribesAnswer d id (answer id)
    → Describes d fsp_id answer
Describes-of_answer none fsp_id id answer e h = (id, e, h)
Describes-of_answer (some Rejection.no_id) fsp_id id answer e h = absurd h
Describes-of_answer (some Rejection.unavailable) fsp_id id answer e h = (id, e, h)
Describes-of_answer (some Rejection.unknown) fsp_id id answer e h = (id, e, h)
Describes-of_answer (some Rejection.id_mismatch) fsp_id id answer e h = (id, e, h)
Describes-of_answer (some Rejection.not_approved) fsp_id id answer e h = (id, e, h)
Describes-of_answer (some Rejection.not_active) fsp_id id answer e h = (id, e, h)

module _ {W : Type 0} (env : Services W) where
  -- what the participant service answers in the state `s`
  abbrev pub answer_in : Aggregate W → String → Result (Option Participant)
  answer_in s id = (env.get_participant_info id s.world).0

  -- the state after a validation: the service has been asked, if there is an id
  abbrev pub asked : Nullable → Aggregate W → Aggregate W
  asked fsp_id s = elim (truthy fsp_id) [
    | none ↦ s
    | some id ↦ record s { world = (env.get_participant_info id s.world).1 }
  ]

  -- Both validations reach the same verdict on an FSP id: they accept it exactly when the service
  -- knows it under that id, approved and active, and otherwise each reports the first reason that
  -- applies (no id, the service fails, no such participant, another id, not approved, not active)
  -- by its own event, with the party's fields copied. Neither throws, and each only asks the
  -- service.
  pub validation_diagnosis :
      (party_id party_type party_sub_type fsp_id : Nullable) (s : Aggregate W)
      → let report = participant_error party_id party_type party_sub_type fsp_id in
        (d : Option Rejection) × Describes d fsp_id (answer_in s)
        × (validate_requester env party_id party_type party_sub_type fsp_id s
            ≡ (ok (report_of requester_event d report), asked fsp_id s))
        × (validate_destination env party_id party_type party_sub_type fsp_id s
            ≡ (ok (report_of destination_event d report), asked fsp_id s))
  unfolding validate_requester validate_destination
  validation_diagnosis party_id party_type party_sub_type fsp_id s =
      elim (Option-cases (truthy fsp_id)) [
        | inl absent ↦ (some Rejection.no_id, absent, ground arith, ground arith)
        | inr (id, present) ↦
            let report = participant_error party_id party_type party_sub_type fsp_id in
            let (d, why, by_requester, by_destination) = verdicts report id (answer_in s id) in
            (
              d,
              Describes-of_answer d fsp_id id (answer_in s) present why,
              ground (arith, by_requester),
              ground (arith, by_destination),
            )
      ]

  -- The service knows the FSP under its id, approved and active.
  abbrev pub Accepts : Nullable → Aggregate W → Type 0
  Accepts fsp_id s = Describes none fsp_id (answer_in s)
