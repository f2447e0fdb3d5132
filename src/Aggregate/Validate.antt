-- ===== src/Aggregate/Validate.antt =====
-- The region "Validations" of AccountLookupAggregate.
pub mod Laws
pub mod Accept
use account_lookup_bc.Common.{
  String, Nullable, or_null, truthy, Option, none, some, not, ◌==◌, if◌then◌else◌, Action, Result,
  ok, throw, attempt, pure, ◌>>=◌,
}
use account_lookup_bc.Domain.Entities.{Participant}
use account_lookup_bc.Domain.Messages.{
  ErrorCode, Event, Message, MessageType, domain_event, no_payload, InvalidMessage,
  ParticipantError, invalid_message_payload_error, invalid_message_type_error,
  invalid_requester_error, requester_not_found_error, requester_id_mismatch_error,
  requester_not_approved_error, requester_not_active_error, invalid_destination_error,
  destination_not_found_error, destination_id_mismatch_error, destination_not_approved_error,
  destination_not_active_error,
}
use account_lookup_bc.Domain.Messages.{Payload, other_type}
use account_lookup_bc.Domain.Ports.{Services}
use account_lookup_bc.Aggregate.State.{Aggregate, lift}

-- `message.payload`, of which a missing one reads as `undefined` in every field
abbrev pub fields : Message → Payload
fields m = elim m.payload [ none ↦ no_payload | some p ↦ p ]

abbrev pub invalid_message : ErrorCode → Payload → InvalidMessage
invalid_message code p = record {
  requester_fsp_id = or_null p.requester_fsp_id;
  party_id = or_null p.party_id;
  party_type = or_null p.party_type;
  party_sub_type = or_null p.party_sub_type;
  error_code = code;
}

check_type : Payload → MessageType → Option Event
check_type p domain_event = none
check_type p (other_type _) =
    some (invalid_message_type_error (invalid_message ErrorCode.invalid_message_type p))

-- `_validateMessageOrGetErrorEvent`
unfoldable pub validate_message : Message → Option Event
unfolding check_type
validate_message m = elim m.payload [
  | none ↦
      some (
        invalid_message_payload_error
          (invalid_message ErrorCode.invalid_message_payload (fields m)))
  | some p ↦ check_type p m.msg_type
]

-- The three guards on the participant that the service found.
unfoldable pub requester_verdict :
    (ErrorCode → ParticipantError) → String → Result (Option Participant) → Option Event
requester_verdict report id (throw e) =
    some (invalid_requester_error (report ErrorCode.invalid_source_participant))
requester_verdict report id (ok none) =
    some (requester_not_found_error (report ErrorCode.source_participant_not_found))
requester_verdict report id (ok (some p)) =
    if not (p.id == id)
    then some
        (requester_id_mismatch_error (report ErrorCode.required_source_participant_id_mismatch))
    else if not p.approved
    then some
        (requester_not_approved_error (report ErrorCode.required_source_participant_not_approved))
    else if not p.is_active
    then some (requester_not_active_error (report ErrorCode.required_source_participant_not_active))
    else none

unfoldable pub destination_verdict :
    (ErrorCode → ParticipantError) → String → Result (Option Participant) → Option Event
destination_verdict report id (throw e) =
    some (invalid_destination_error (report ErrorCode.invalid_destination_participant))
destination_verdict report id (ok none) =
    some (destination_not_found_error (report ErrorCode.destination_participant_not_found))
destination_verdict report id (ok (some p)) =
    if not (p.id == id)
    then some (
        destination_id_mismatch_error
          (report ErrorCode.required_destination_participant_id_mismatch))
    else if not p.approved
    then some (
        destination_not_approved_error
          (report ErrorCode.required_destination_participant_not_approved))
    else if not p.is_active
    then some (
        destination_not_active_error (report ErrorCode.required_destination_participant_not_active))
    else none

abbrev pub participant_error :
    (party_id party_type party_sub_type participant_id : Nullable) → ErrorCode → ParticipantError
participant_error party_id party_type party_sub_type participant_id code = record {
  party_id = party_id;
  party_type = party_type;
  party_sub_type = party_sub_type;
  fsp_id = participant_id;
  error_code = code;
}

-- `const error = await validate…; if (error) { return error; }`, and what follows it.
abbrev pub unless_rejected :
    {S : Type 0} → Action S (Option Event) → Action S Event → Action S Event
unless_rejected check next = do
  problem ← check
  elim problem [ some event ↦ pure event | none ↦ next ]

module _ {W : Type 0} (env : Services W) where
  -- `validateRequesterParticipantInfoOrGetErrorEvent`
  unfoldable pub validate_requester :
      (party_id party_type party_sub_type participant_id : Nullable)
      → Action (Aggregate W) (Option Event)
  unfolding requester_verdict
  validate_requester party_id party_type party_sub_type participant_id =
      let report = participant_error party_id party_type party_sub_type participant_id in
      elim (truthy participant_id) [
        | none ↦ pure (some (invalid_requester_error (report ErrorCode.invalid_source_participant)))
        | some id ↦ do
          answer ← attempt (lift (env.get_participant_info id))
          pure (requester_verdict report id answer)
      ]

  -- `validateDestinationParticipantInfoOrGetErrorEvent`
  unfoldable pub validate_destination :
      (party_id party_type party_sub_type participant_id : Nullable)
      → Action (Aggregate W) (Option Event)
  unfolding destination_verdict
  validate_destination party_id party_type party_sub_type participant_id =
      let report = participant_error party_id party_type party_sub_type participant_id in
      elim (truthy participant_id) [
        | none ↦
            pure
              (some (invalid_destination_error (report ErrorCode.invalid_destination_participant)))
        | some id ↦ do
          answer ← attempt (lift (env.get_participant_info id))
          pure (destination_verdict report id answer)
      ]
