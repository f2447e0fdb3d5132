-- ===== src/Aggregate/Dispatch.antt =====
-- `handleEvent` of AccountLookupAggregate: the message is validated, the handler of its name runs,
-- and whatever it throws becomes an event.
pub mod Laws
use account_lookup_bc.Common.{or_null, Option, none, some, Action, Result, ok, throw, pure}
use account_lookup_bc.Domain.Messages.{
  ErrorCode, Event, Payload, Message, MessageName, Inbound, UnknownError, unknown_error,
  invalid_message_type_error, party_query_received, party_info_available,
  participant_query_received, participant_association_request_received,
  participant_disassociate_request_received, party_rejected, participant_rejected, other_name,
}
use account_lookup_bc.Domain.Ports.{Services}
use account_lookup_bc.Aggregate.State.{Aggregate}
use account_lookup_bc.Aggregate.Validate.{fields, invalid_message, validate_message}
use account_lookup_bc.Aggregate.Queries.{
  handle_party_query_received, handle_party_info_available, handle_participant_query_received,
}
use account_lookup_bc.Aggregate.Rejections.{get_party_rejected, get_participant_rejected}
use account_lookup_bc.Aggregate.Associations.{
  handle_association_request, handle_disassociate_request,
}

-- An event as `handleEvent` returns it. The protocol state is `none` where the method leaves it as
-- the event's constructor set it.
pub record Reply : Type 0 where
  pub event : Event
  pub inbound : Option Inbound

abbrev pub unknown_error_of : Payload → Event
unknown_error_of p = unknown_error (record {
  party_id = or_null p.party_id;
  party_type = or_null p.party_type;
  currency = or_null p.currency;
  requester_fsp_id = or_null p.requester_fsp_id;
  error_code = ErrorCode.command_type_unknown;
})

-- the `catch` block
abbrev reply_of : Payload → Result Event → Reply
reply_of p (ok event) = record { event = event; inbound = none }
reply_of p (throw e) = record { event = unknown_error_of p; inbound = none }

module _ {W : Type 0} (env : Services W) where
  -- the `switch`
  unfoldable pub dispatch : MessageName → Payload → Action (Aggregate W) Event
  dispatch party_query_received p = handle_party_query_received env p
  dispatch party_info_available p = handle_party_info_available env p
  dispatch participant_query_received p = handle_participant_query_received env p
  dispatch participant_association_request_received p = handle_association_request env p
  dispatch participant_disassociate_request_received p = handle_disassociate_request env p
  dispatch party_rejected p = get_party_rejected env p
  dispatch participant_rejected p = get_participant_rejected env p
  dispatch (other_name _) p =
      pure (invalid_message_type_error (invalid_message ErrorCode.invalid_message_payload p))

  unfoldable pub handle_event : Message → Aggregate W → Reply × Aggregate W
  handle_event m s = elim (validate_message m) [
    | some event ↦ (record { event = event; inbound = some m.inbound }, s)
    | none ↦ let (r, s') = dispatch m.msg_name (fields m) s in (reply_of (fields m) r, s')
  ]
