-- ===== src/Domain/Messages.antt =====
-- The messages that arrive and the events that answer them, with the payload fields that
-- packages/domain-lib/src/aggregate.ts reads and writes. A payload field is a text, `null` or
-- absent; a structured field (KYC data, extensions) is carried as its JSON text.
use account_lookup_bc.Common.{String, Nullable, undefined, Option}

-- AccountLookupErrorCodeNames of packages/public-types-lib/src/enums.ts
pub data ErrorCode : Type 0 where
  command_type_unknown unable_to_associate_participant : ErrorCode
  unable_to_disassociate_participant destination_participant_not_found : ErrorCode
  source_participant_not_found invalid_destination_participant : ErrorCode
  invalid_source_participant invalid_message_payload invalid_message_type : ErrorCode
  unable_to_get_oracle_adapter unable_to_get_participant_from_oracle : ErrorCode
  required_source_participant_id_mismatch required_source_participant_not_approved : ErrorCode
  required_source_participant_not_active required_destination_participant_id_mismatch : ErrorCode
  required_destination_participant_not_approved : ErrorCode
  required_destination_participant_not_active : ErrorCode

-- The names by which `handleEvent` switches.
pub data MessageName : Type 0 where
  party_query_received party_info_available participant_query_received : MessageName
  participant_association_request_received : MessageName
  participant_disassociate_request_received : MessageName
  party_rejected participant_rejected : MessageName
  other_name : String → MessageName

pub data MessageType : Type 0 where
  domain_event : MessageType
  other_type : String → MessageType

pub record Payload : Type 0 where
  pub party_id : Nullable
  pub party_type : Nullable
  pub party_sub_type : Nullable
  pub currency : Nullable
  pub requester_fsp_id : Nullable
  pub destination_fsp_id : Nullable
  pub owner_fsp_id : Nullable
  pub party_do_b : Nullable
  pub merchant_classification_code : Nullable
  pub name : Nullable
  pub first_name : Nullable
  pub middle_name : Nullable
  pub last_name : Nullable
  pub kyc_info : Nullable
  pub supported_currencies : Nullable
  pub extensions : Nullable
  pub error_information : Nullable

-- What `message.payload?.field` reads where there is no payload.
abbrev pub no_payload : Payload
no_payload = record {
  party_id = undefined;
  party_type = undefined;
  party_sub_type = undefined;
  currency = undefined;
  requester_fsp_id = undefined;
  destination_fsp_id = undefined;
  owner_fsp_id = undefined;
  party_do_b = undefined;
  merchant_classification_code = undefined;
  name = undefined;
  first_name = undefined;
  middle_name = undefined;
  last_name = undefined;
  kyc_info = undefined;
  supported_currencies = undefined;
  extensions = undefined;
  error_information = undefined;
}

-- The protocol state of the request, which the answer carries back.
pub record Inbound : Type 0 where
  pub inbound_protocol_type : Nullable
  pub inbound_protocol_opaque_state : Nullable

pub record Message : Type 0 where
  pub msg_name : MessageName
  pub msg_type : MessageType
  pub payload : Option Payload
  pub inbound : Inbound

pub record PartyInfoRequested : Type 0 where
  pub requester_fsp_id : Nullable
  pub destination_fsp_id : Nullable
  pub party_type : Nullable
  pub party_id : Nullable
  pub party_sub_type : Nullable
  pub currency : Nullable

pub record PartyQueryResponse : Type 0 where
  pub requester_fsp_id : Nullable
  pub destination_fsp_id : Nullable
  pub party_do_b : Nullable
  pub merchant_classification_code : Nullable
  pub name : Nullable
  pub first_name : Nullable
  pub middle_name : Nullable
  pub last_name : Nullable
  pub owner_fsp_id : Nullable
  pub party_type : Nullable
  pub party_id : Nullable
  pub party_sub_type : Nullable
  pub currency : Nullable
  pub kyc_info : Nullable
  pub supported_currencies : Nullable
  pub extensions : Nullable

pub record ParticipantQueryResponse : Type 0 where
  pub requester_fsp_id : Nullable
  pub owner_fsp_id : Nullable
  pub party_type : Nullable
  pub party_id : Nullable
  pub party_sub_type : Nullable
  pub currency : Nullable

-- Of PartyRejectedResponseEvt and of ParticipantRejectedResponseEvt.
pub record RejectedResponse : Type 0 where
  pub party_id : Nullable
  pub party_type : Nullable
  pub party_sub_type : Nullable
  pub currency : Nullable
  pub error_information : Nullable

pub record AssociationCreated : Type 0 where
  pub party_id : Nullable
  pub owner_fsp_id : Nullable
  pub party_type : Nullable
  pub party_sub_type : Nullable
  pub extensions : Nullable

pub record AssociationRemoved : Type 0 where
  pub party_id : Nullable
  pub owner_fsp_id : Nullable
  pub party_type : Nullable
  pub party_sub_type : Nullable

-- Of the two events about an invalid message.
pub record InvalidMessage : Type 0 where
  pub requester_fsp_id : Nullable
  pub party_id : Nullable
  pub party_type : Nullable
  pub party_sub_type : Nullable
  pub error_code : ErrorCode

pub record UnknownError : Type 0 where
  pub party_id : Nullable
  pub party_type : Nullable
  pub currency : Nullable
  pub requester_fsp_id : Nullable
  pub error_code : ErrorCode

-- Of the events about a participant: `fsp_id` is the source's `requesterFspId` in the events about
-- a requester, and `destinationFspId` in those about a destination.
pub record ParticipantError : Type 0 where
  pub party_id : Nullable
  pub party_type : Nullable
  pub party_sub_type : Nullable
  pub fsp_id : Nullable
  pub error_code : ErrorCode

pub record OracleLookupError : Type 0 where
  pub party_id : Nullable
  pub party_sub_type : Nullable
  pub party_type : Nullable
  pub currency : Nullable
  pub error_code : ErrorCode

pub record OracleAdapterError : Type 0 where
  pub party_id : Nullable
  pub party_type : Nullable
  pub currency : Nullable
  pub error_code : ErrorCode

-- `fsp_id` is the source's `fspIdToAssociate` or `fspIdToDisassociate`.
pub record AssociationError : Type 0 where
  pub fsp_id : Nullable
  pub party_type : Nullable
  pub party_id : Nullable
  pub currency : Nullable
  pub error_code : ErrorCode

-- One constructor for each event class that the aggregate constructs.
pub data Event : Type 0 where
  party_info_requested : PartyInfoRequested → Event
  party_query_response : PartyQueryResponse → Event
  participant_query_response : ParticipantQueryResponse → Event
  party_rejected_response participant_rejected_response : RejectedResponse → Event
  participant_association_created : AssociationCreated → Event
  participant_association_removed : AssociationRemoved → Event
  invalid_message_payload_error invalid_message_type_error : InvalidMessage → Event
  unknown_error : UnknownError → Event
  invalid_requester_error requester_not_found_error : ParticipantError → Event
  requester_id_mismatch_error requester_not_approved_error : ParticipantError → Event
  requester_not_active_error : ParticipantError → Event
  invalid_destination_error destination_not_found_error : ParticipantError → Event
  destination_id_mismatch_error destination_not_approved_error : ParticipantError → Event
  destination_not_active_error : ParticipantError → Event
  unable_to_get_participant_error : OracleLookupError → Event
  unable_to_get_oracle_adapter_error : OracleAdapterError → Event
  unable_to_associate_error unable_to_disassociate_error : AssociationError → Event
