-- ===== src/Participants/Outage.antt =====
-- What an outage of the participant service looks like to the aggregate.
use account_lookup_bc.Common.{String, Nullable, truthy, ◌≡◌, some, Error, ok, throw, arith}
use account_lookup_bc.Domain.Messages.{
  ErrorCode, requester_not_found_error, destination_not_found_error,
}
use account_lookup_bc.Domain.Ports.{Services}
use account_lookup_bc.Aggregate.State.{Aggregate}
use account_lookup_bc.Aggregate.Validate.{
  participant_error, validate_requester, validate_destination, requester_verdict,
  destination_verdict,
}
use account_lookup_bc.Participants.{ParticipantsClient, get_participant_info, with_adapter_of}

-- While the client of the participant service fails, the validations report an FSP whose id is not
-- empty as a participant that was not found: the adapter turns the failure into an answer with no
-- participant, and the event for a failing service is not sent.
pub outage_reads_as_unknown :
    {W : Type 0} (env : Services W) (client : ParticipantsClient W)
    (party_id party_type party_sub_type fsp_id : Nullable) (id : String) (s : Aggregate W)
    (e : Error)
    → truthy fsp_id ≡ some id
    → (client.get_participant_by_id id s.world).0 ≡ throw e
    → let report = participant_error party_id party_type party_sub_type fsp_id in
      let services = with_adapter_of env client in
      ((validate_requester services party_id party_type party_sub_type fsp_id s).0
        ≡ ok (some (requester_not_found_error (report ErrorCode.source_participant_not_found))))
      × ((validate_destination services party_id party_type party_sub_type fsp_id s).0
          ≡ ok (
              some
                (destination_not_found_error (report ErrorCode.destination_participant_not_found))))
unfolding validate_requester validate_destination requester_verdict destination_verdict
    get_participant_info
outage_reads_as_unknown env client party_id party_type party_sub_type fsp_id id s e present fails =
    (ground arith, ground arith)
