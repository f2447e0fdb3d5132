-- ===== src/Aggregate/Kinds.antt =====
-- The events that AccountLookupAggregate constructs, by kind, and which kinds answer which message.
use account_lookup_bc.Common.{◌≡◌, ◌≢◌, refl, ◌⊎◌, arith}
use account_lookup_bc.Domain.Messages.{
  ErrorCode, Event, MessageName, ParticipantError, party_info_requested, party_query_response,
  participant_query_response, party_rejected_response, participant_rejected_response,
  participant_association_created, participant_association_removed, invalid_message_payload_error,
  invalid_message_type_error, unknown_error, invalid_requester_error, requester_not_found_error,
  requester_id_mismatch_error, requester_not_approved_error, requester_not_active_error,
  unable_to_get_participant_error, unable_to_get_oracle_adapter_error, unable_to_associate_error,
  unable_to_disassociate_error, party_query_received, party_info_available,
  participant_query_received, participant_association_request_received,
  participant_disassociate_request_received, party_rejected, participant_rejected, other_name,
}
use account_lookup_bc.Aggregate.Validate.Laws.{Rejection, requester_event, destination_event}

-- The kinds of events. `answer n` is the event that reports the success of a message of name `n`.
pub data Kind : Type 0 where
  answer : MessageName → Kind
  about_requester about_destination about_lookup about_adapter : Kind
  about_association about_removal about_message about_unknown : Kind

abbrev pub kind : Event → Kind
kind (party_info_requested _) = answer party_query_received
kind (party_query_response _) = answer party_info_available
kind (participant_query_response _) = answer participant_query_received
kind (party_rejected_response _) = answer party_rejected
kind (participant_rejected_response _) = answer participant_rejected
kind (participant_association_created _) = answer participant_association_request_received
kind (participant_association_removed _) = answer participant_disassociate_request_received
kind (invalid_message_payload_error _) = about_message
kind (invalid_message_type_error _) = about_message
kind (unknown_error _) = about_unknown
kind (unable_to_get_participant_error _) = about_lookup
kind (unable_to_get_oracle_adapter_error _) = about_adapter
kind (unable_to_associate_error _) = about_association
kind (unable_to_disassociate_error _) = about_removal
kind (invalid_requester_error _) = about_requester
kind (requester_not_found_error _) = about_requester
kind (requester_id_mismatch_error _) = about_requester
kind (requester_not_approved_error _) = about_requester
kind (requester_not_active_error _) = about_requester
kind _ = about_destination

-- A failure that a message of each name can run into after it was validated.
abbrev pub CanFail : MessageName → Kind → Type 0
CanFail party_query_received k =
    (k ≡ about_requester) ⊎ (k ≡ about_lookup) ⊎ (k ≡ about_destination)
CanFail party_info_available k = (k ≡ about_requester) ⊎ (k ≡ about_destination)
CanFail participant_query_received k =
    (k ≡ about_requester) ⊎ (k ≡ about_lookup) ⊎ (k ≡ about_destination)
CanFail participant_association_request_received k =
    (k ≡ about_requester) ⊎ (k ≡ about_adapter) ⊎ (k ≡ about_association)
CanFail participant_disassociate_request_received k =
    (k ≡ about_requester) ⊎ (k ≡ about_adapter) ⊎ (k ≡ about_removal)
CanFail party_rejected k = (k ≡ about_requester) ⊎ (k ≡ about_destination)
CanFail participant_rejected k = (k ≡ about_requester) ⊎ (k ≡ about_destination)
CanFail (other_name _) k = k ≡ about_message

abbrev pub CanAnswer : MessageName → Event → Type 0
CanAnswer n e = (kind e ≡ answer n) ⊎ CanFail n (kind e)

pub kind-requester_event :
    (why : Rejection) (report : ErrorCode → ParticipantError)
    → kind (requester_event why report) ≡ about_requester
kind-requester_event Rejection.no_id report = refl
kind-requester_event _ report = refl

pub kind-destination_event :
    (why : Rejection) (report : ErrorCode → ParticipantError)
    → kind (destination_event why report) ≡ about_destination
kind-destination_event Rejection.no_id report = refl
kind-destination_event _ report = refl

pub answers-ne-unknown :
    (n : MessageName) (k : Kind) → (k ≡ answer n) ⊎ CanFail n k → k ≢ about_unknown
answers-ne-unknown party_query_received k h = ground arith
answers-ne-unknown _ k h = ground arith

pub answer-ne-requester : (n : MessageName) → answer n ≢ about_requester
answer-ne-requester n e = cc

pub answer-ne-destination : (n : MessageName) → answer n ≢ about_destination
answer-ne-destination n e = cc

pub answer-ne-lookup : (n : MessageName) → answer n ≢ about_lookup
answer-ne-lookup n e = cc

pub answer-ne-adapter : (n : MessageName) → answer n ≢ about_adapter
answer-ne-adapter n e = cc
