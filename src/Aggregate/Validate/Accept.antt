-- ===== src/Aggregate/Validate/Accept.antt =====
-- When the two validations of AccountLookupAggregate let an FSP pass, and how a handler goes on
-- after either of them.
use account_lookup_bc.Common.{Nullable, ◌≡◌, ◌↔◌, Option, none, some, arith, eq_iff, ok}
use account_lookup_bc.Domain.Messages.{Event}
use account_lookup_bc.Domain.Ports.{Services}
use account_lookup_bc.Aggregate.State.{Aggregate}
use account_lookup_bc.Aggregate.Validate.{
  requester_verdict, destination_verdict, participant_error, validate_requester,
  validate_destination,
}
use account_lookup_bc.Aggregate.Validate.Laws.{
  Rejection, Describes, requester_event, destination_event, report_of, answer_in, asked, Accepts,
  validation_diagnosis,
}

module _ {W : Type 0} (env : Services W) where
  accepted_of :
      {R : Type 0} (event : Rejection → R → Event) (report : R) (fsp_id : Nullable)
      (s : Aggregate W) (d : Option Rejection)
      → Describes d fsp_id (answer_in env s)
      → report_of event d report ≡ none
      → Accepts env fsp_id s
  accepted_of event report fsp_id s none h e = h
  accepted_of event report fsp_id s (some why) h e = absurd (cc)

  module _ (party_id party_type party_sub_type fsp_id : Nullable) (s : Aggregate W) where
    pub requester_passes :
        Accepts env fsp_id s
        → validate_requester env party_id party_type party_sub_type fsp_id s
          ≡ (ok none, asked env fsp_id s)
    unfolding validate_requester requester_verdict
    requester_passes (id, present, (p, found, same, approved, active)) =
        ground (arith, eq_iff p.id id)

    pub destination_passes :
        Accepts env fsp_id s
        → validate_destination env party_id party_type party_sub_type fsp_id s
          ≡ (ok none, asked env fsp_id s)
    unfolding validate_destination destination_verdict
    destination_passes (id, present, (p, found, same, approved, active)) =
        ground (arith, eq_iff p.id id)

    -- The requester validation reports nothing exactly when the service knows the requester under
    -- its id, approved and active.
    pub validate_requester-Accepts_iff :
        ((validate_requester env party_id party_type party_sub_type fsp_id s).0 ≡ ok none)
        ↔ Accepts env fsp_id s
    validate_requester-Accepts_iff =
        let report = participant_error party_id party_type party_sub_type fsp_id in
        let (d, why, run, _) =
          validation_diagnosis env party_id party_type party_sub_type fsp_id s in
        (
          λ accepted. accepted_of requester_event report fsp_id s d why (ground (arith, run)),
          λ h. ground (arith, requester_passes h),
        )

    -- The destination validation reports nothing exactly when the service knows the destination
    -- under its id, approved and active.
    pub validate_destination-Accepts_iff :
        ((validate_destination env party_id party_type party_sub_type fsp_id s).0 ≡ ok none)
        ↔ Accepts env fsp_id s
    validate_destination-Accepts_iff =
        let report = participant_error party_id party_type party_sub_type fsp_id in
        let (d, why, _, run) =
          validation_diagnosis env party_id party_type party_sub_type fsp_id s in
        (
          λ accepted. accepted_of destination_event report fsp_id s d why (ground (arith, run)),
          λ h. ground (arith, destination_passes h),
        )
