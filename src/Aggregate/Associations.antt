-- ===== src/Aggregate/Associations.antt =====
-- The regions "ParticipantAssociationRequestReceivedEvt" and
-- "ParticipantDisassociateRequestReceivedEvt" of AccountLookupAggregate.
pub mod Laws
use account_lookup_bc.Common.{Nullable, or_null, Action, ok, throw, attempt, pure, ◌>>=◌}
use account_lookup_bc.Domain.Messages.{
  ErrorCode, Event, Payload, OracleAdapterError, AssociationError, participant_association_created,
  participant_association_removed, unable_to_get_oracle_adapter_error, unable_to_associate_error,
  unable_to_disassociate_error,
}
use account_lookup_bc.Domain.Ports.{Services, OracleProviderAdapter}
use account_lookup_bc.Aggregate.State.{Aggregate, lift}
use account_lookup_bc.Aggregate.Validate.{validate_requester, unless_rejected}
use account_lookup_bc.Aggregate.Oracles.{get_oracle_adapter}

abbrev pub oracle_adapter_error : (party_id party_type currency : Nullable) → OracleAdapterError
oracle_adapter_error party_id party_type currency = record {
  party_id = party_id;
  party_type = party_type;
  currency = currency;
  error_code = ErrorCode.unable_to_get_oracle_adapter;
}

abbrev pub association_error :
    ErrorCode → (fsp_id party_type party_id currency : Nullable) → AssociationError
association_error code fsp_id party_type party_id currency = record {
  fsp_id = fsp_id;
  party_type = party_type;
  party_id = party_id;
  currency = currency;
  error_code = code;
}

abbrev pub association_created : Payload → Event
association_created p = participant_association_created (record {
  party_id = p.party_id;
  owner_fsp_id = p.owner_fsp_id;
  party_type = p.party_type;
  party_sub_type = p.party_sub_type;
  extensions = p.extensions;
})

abbrev pub association_removed : Payload → Event
association_removed p = participant_association_removed (record {
  party_id = p.party_id;
  owner_fsp_id = p.owner_fsp_id;
  party_type = p.party_type;
  party_sub_type = p.party_sub_type;
})

-- The second `try`: the answer to a call of the adapter that throws or does not.
abbrev pub answer_call : {S : Type 0} → Action S Unit → Event → Event → Action S Event
answer_call call failed done = do
  outcome ← attempt call
  elim outcome [ throw e ↦ pure failed | ok _ ↦ pure done ]

module _ {W : Type 0} (env : Services W) where
  -- The first `try`: the adapter for the party type, with the error event that a failure becomes.
  unfoldable pub with_adapter :
      (party_id party_type currency : Nullable)
      → (OracleProviderAdapter W → Action (Aggregate W) Event)
      → Action (Aggregate W) Event
  with_adapter party_id party_type currency next = do
    found ← attempt (get_oracle_adapter env party_type currency)
    elim found [
      | throw e ↦
          pure
            (unable_to_get_oracle_adapter_error (oracle_adapter_error party_id party_type currency))
      | ok adapter ↦ next adapter
    ]

  -- `_handleParticipantAssociationRequestReceivedEvt`: here no field goes through `?? null`.
  unfoldable pub handle_association_request : Payload → Action (Aggregate W) Event
  unfolding with_adapter
  handle_association_request p =
      unless_rejected
        (validate_requester env p.party_id p.party_type p.party_sub_type p.owner_fsp_id)
        (with_adapter p.party_id p.party_type p.currency (λ adapter.
          answer_call
            (lift (
              adapter.associate_participant p.owner_fsp_id p.party_type p.party_id p.party_sub_type
                p.currency))
            (unable_to_associate_error (
              association_error ErrorCode.unable_to_associate_participant p.owner_fsp_id
                p.party_type p.party_id p.currency))
            (association_created p)))

  -- `_handleParticipantDisassociateRequestReceivedEvt`
  unfoldable pub handle_disassociate_request : Payload → Action (Aggregate W) Event
  unfolding with_adapter
  handle_disassociate_request p =
      let owner_fsp_id = or_null p.owner_fsp_id in
      let party_id = or_null p.party_id in
      let party_type = or_null p.party_type in
      let party_sub_type = or_null p.party_sub_type in
      let currency = or_null p.currency in
      unless_rejected (validate_requester env party_id party_type party_sub_type owner_fsp_id) (
        with_adapter party_id party_type currency (λ adapter.
          answer_call
            (lift (
              adapter.disassociate_participant owner_fsp_id party_type party_id party_sub_type
                currency))
            (unable_to_disassociate_error (
              association_error ErrorCode.unable_to_disassociate_participant owner_fsp_id party_type
                party_id currency))
            (association_removed p)))
