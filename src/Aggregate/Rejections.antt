-- ===== src/Aggregate/Rejections.antt =====
-- The regions "Get Party Error" and "Get Participant Error" of AccountLookupAggregate.
pub mod Laws
use account_lookup_bc.Common.{or_null, Action, pure}
use account_lookup_bc.Domain.Messages.{
  Event, Payload, RejectedResponse, party_rejected_response, participant_rejected_response,
}
use account_lookup_bc.Domain.Ports.{Services}
use account_lookup_bc.Aggregate.State.{Aggregate}
use account_lookup_bc.Aggregate.Validate.{validate_requester, validate_destination, unless_rejected}

abbrev pub rejected_response : Payload → RejectedResponse
rejected_response p = record {
  party_id = p.party_id;
  party_type = p.party_type;
  party_sub_type = p.party_sub_type;
  currency = p.currency;
  error_information = p.error_information;
}

module _ {W : Type 0} (env : Services W) where
  -- `_getPartyRejected`
  unfoldable pub get_party_rejected : Payload → Action (Aggregate W) Event
  get_party_rejected p =
      unless_rejected
        (validate_requester env (or_null p.party_id) (or_null p.party_type)
          (or_null p.party_sub_type) (or_null p.requester_fsp_id))
        (unless_rejected
          (validate_destination env (or_null p.party_id) (or_null p.party_type)
            (or_null p.party_sub_type) (or_null p.destination_fsp_id))
          (pure (party_rejected_response (rejected_response p))))

  -- `_getParticipantRejected`
  unfoldable pub get_participant_rejected : Payload → Action (Aggregate W) Event
  get_participant_rejected p =
      unless_rejected
        (validate_requester env (or_null p.party_id) (or_null p.party_type)
          (or_null p.party_sub_type) (or_null p.requester_fsp_id))
        (unless_rejected
          (validate_destination env (or_null p.party_id) (or_null p.party_type)
            (or_null p.party_sub_type) (or_null p.destination_fsp_id))
          (pure (participant_rejected_response (rejected_response p))))
