-- ===== src/Aggregate/Queries.antt =====
-- The regions "Get Participant" and "Get Party" of AccountLookupAggregate: the handlers of
-- PartyQueryReceivedEvt, PartyInfoAvailableEvt and ParticipantQueryReceivedEvt.
pub mod Laws
use account_lookup_bc.Common.{
  Nullable, str, or_null, truthy, none, some, Action, Result, ok, throw, attempt, pure, ◌>>=◌,
}
use account_lookup_bc.Domain.Messages.{
  ErrorCode, Event, Payload, OracleLookupError, party_info_requested, party_query_response,
  participant_query_response, unable_to_get_participant_error,
}
use account_lookup_bc.Domain.Ports.{Services}
use account_lookup_bc.Aggregate.State.{Aggregate}
use account_lookup_bc.Aggregate.Validate.{validate_requester, validate_destination, unless_rejected}
use account_lookup_bc.Aggregate.Oracles.{get_participant_id_from_oracle}

abbrev pub oracle_lookup_error :
    (party_id party_type party_sub_type currency : Nullable) → OracleLookupError
oracle_lookup_error party_id party_type party_sub_type currency = record {
  party_id = party_id;
  party_sub_type = party_sub_type;
  party_type = party_type;
  currency = currency;
  error_code = ErrorCode.unable_to_get_participant_from_oracle;
}

abbrev pub info_requested : Payload → Nullable → Event
info_requested p destination_fsp_id = party_info_requested (record {
  requester_fsp_id = p.requester_fsp_id;
  destination_fsp_id = destination_fsp_id;
  party_type = p.party_type;
  party_id = p.party_id;
  party_sub_type = p.party_sub_type;
  currency = p.currency;
})

abbrev pub query_response : Payload → Event
query_response p = party_query_response (record {
  requester_fsp_id = p.requester_fsp_id;
  destination_fsp_id = p.destination_fsp_id;
  party_do_b = p.party_do_b;
  merchant_classification_code = p.merchant_classification_code;
  name = p.name;
  first_name = p.first_name;
  middle_name = p.middle_name;
  last_name = p.last_name;
  owner_fsp_id = p.owner_fsp_id;
  party_type = p.party_type;
  party_id = p.party_id;
  party_sub_type = p.party_sub_type;
  currency = p.currency;
  kyc_info = p.kyc_info;
  supported_currencies = p.supported_currencies;
  extensions = p.extensions;
})

abbrev pub owner_response : Payload → Nullable → Event
owner_response p owner_fsp_id = participant_query_response (record {
  requester_fsp_id = p.requester_fsp_id;
  owner_fsp_id = owner_fsp_id;
  party_type = p.party_type;
  party_id = p.party_id;
  party_sub_type = p.party_sub_type;
  currency = p.currency;
})

module _ {W : Type 0} (env : Services W) where
  -- The FSP that an oracle names, with the error event that a failure becomes.
  unfoldable pub with_oracle_answer :
      (party_id party_type party_sub_type currency : Nullable)
      → (Nullable → Action (Aggregate W) Event)
      → Action (Aggregate W) Event
  with_oracle_answer party_id party_type party_sub_type currency next = do
    answer ←
        attempt (get_participant_id_from_oracle env party_id party_type party_sub_type currency)
    elim answer [
      | throw e ↦ pure (
          unable_to_get_participant_error
            (oracle_lookup_error party_id party_type party_sub_type currency))
      | ok fsp_id ↦ next (str fsp_id)
    ]

  -- What `_handlePartyQueryReceivedEvt` does once the destination is known.
  unfoldable pub request_party_info : Payload → Nullable → Action (Aggregate W) Event
  request_party_info p destination_fsp_id =
      unless_rejected
        (validate_destination env (or_null p.party_id) (or_null p.party_type)
          (or_null p.party_sub_type) destination_fsp_id)
        (pure (info_requested p destination_fsp_id))

  -- What `_handlePartyQueryReceivedEvt` does once the requester is validated.
  unfoldable pub forward_party_query : Payload → Action (Aggregate W) Event
  unfolding with_oracle_answer request_party_info
  forward_party_query p = elim (truthy (or_null p.destination_fsp_id)) [
    | some _ ↦ request_party_info p (or_null p.destination_fsp_id)
    | none ↦
        with_oracle_answer (or_null p.party_id) (or_null p.party_type) (or_null p.party_sub_type)
          (or_null p.currency) (request_party_info p)
  ]

  -- `_handlePartyQueryReceivedEvt`
  unfoldable pub handle_party_query_received : Payload → Action (Aggregate W) Event
  unfolding forward_party_query
  handle_party_query_received p =
      unless_rejected
        (validate_requester env (or_null p.party_id) (or_null p.party_type)
          (or_null p.party_sub_type) (or_null p.requester_fsp_id))
        (forward_party_query p)

  -- `_handlePartyInfoAvailableEvt`
  unfoldable pub handle_party_info_available : Payload → Action (Aggregate W) Event
  handle_party_info_available p =
      unless_rejected
        (validate_requester env (or_null p.party_id) (or_null p.party_type)
          (or_null p.party_sub_type) (or_null p.requester_fsp_id))
        (unless_rejected
          (validate_destination env (or_null p.party_id) (or_null p.party_type)
            (or_null p.party_sub_type) (or_null p.destination_fsp_id))
          (pure (query_response p)))

  -- What `_handleParticipantQueryReceivedEvt` does once the owner is known.
  unfoldable pub answer_owner : Payload → Nullable → Action (Aggregate W) Event
  answer_owner p owner_fsp_id =
      unless_rejected
        (validate_destination env p.party_id p.party_type p.party_sub_type owner_fsp_id)
        (pure (owner_response p owner_fsp_id))

  -- `_handleParticipantQueryReceivedEvt`: here no field goes through `?? null`.
  unfoldable pub handle_participant_query_received : Payload → Action (Aggregate W) Event
  unfolding with_oracle_answer answer_owner
  handle_participant_query_received p =
      unless_rejected
        (validate_requester env p.party_id p.party_type p.party_sub_type p.requester_fsp_id)
        (with_oracle_answer p.party_id p.party_type p.party_sub_type p.currency (answer_owner p))
