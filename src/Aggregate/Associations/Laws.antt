-- ===== src/Aggregate/Associations/Laws.antt =====
-- When an association is created or removed, and when the oracle's adapter is called at all.
use account_lookup_bc.Common.{
  Nullable, or_null, ◌≡◌, ◌≢◌, ◌↔◌, inl, inr, arith, Action, ok, Result-cases,
}
use account_lookup_bc.Domain.Messages.{
  ErrorCode, Event, Payload, unable_to_associate_error, unable_to_disassociate_error,
}
use account_lookup_bc.Domain.Ports.{Services, OracleProviderAdapter}
use account_lookup_bc.Aggregate.State.{Aggregate, lift}
use account_lookup_bc.Aggregate.Validate.Laws.{asked, Accepts}
use account_lookup_bc.Aggregate.Oracles.{get_oracle_adapter}
use account_lookup_bc.Aggregate.Oracles.Laws.{
  Serves, after_finder, get_oracle_adapter_of_Serves, Serves-of_ok,
}
use account_lookup_bc.Aggregate.Kinds.{kind, about_adapter, answer-ne-requester, answer-ne-adapter}
use account_lookup_bc.Aggregate.Passes.{requester_then_iff, requester_stops}
use account_lookup_bc.Aggregate.Associations.{
  association_error, with_adapter, answer_call, association_created, association_removed,
  handle_association_request, handle_disassociate_request,
}

module _ {W : Type 0} (env : Services W) where
  -- The adapter that serves the party type and currency carries out `call`, in the state after the
  -- finder was asked.
  pub record Carries (party_type currency : Nullable)
      (call : OracleProviderAdapter W → Action W Unit) (s : Aggregate W) : Type 0 where
    pub adapter : OracleProviderAdapter W
    pub serves : Serves env party_type currency s adapter
    pub done : (call adapter (after_finder env party_type currency s).world).0 ≡ ok tt

  module _ (party_id party_type currency : Nullable)
      (call : OracleProviderAdapter W → Action W Unit) (failed done : Event) (s : Aggregate W) where
    with_adapter_iff :
        kind done ≢ about_adapter
        → failed ≢ done
        → ((with_adapter env party_id party_type currency
              (λ adapter. answer_call (lift (call adapter)) failed done)
              s).0
            ≡ ok done)
          ↔ Carries party_type currency call s
    unfolding with_adapter
    with_adapter_iff other differ = (
      λ run. elim (Result-cases (get_oracle_adapter env party_type currency s).0) [
        | inr (e, thrown) ↦ absurd (other (ground arith))
        | inl (adapter, ready) ↦
            let serves = Serves-of_ok env party_type currency s adapter ready in
            let at = get_oracle_adapter_of_Serves env party_type currency s adapter serves in
            record { adapter = adapter; serves = serves; done = ground (arith, at) }
      ],
      λ h.
          let at = get_oracle_adapter_of_Serves env party_type currency s h.adapter h.serves in
          ground (arith, at, h.done),
    )

  -- A request to associate a party is answered with "association created" exactly when the service
  -- accepts the owner, and the adapter of the oracle that the finder names stores the association.
  pub handle_association_request-creates_iff :
      (p : Payload) (s : Aggregate W)
      → ((handle_association_request env p s).0 ≡ ok (association_created p)) ↔ (
          Accepts env p.owner_fsp_id s
          × Carries p.party_type p.currency
              (λ adapter.
                adapter.associate_participant p.owner_fsp_id p.party_type p.party_id
                  p.party_sub_type p.currency)
              (asked env p.owner_fsp_id s))
  unfolding handle_association_request
  handle_association_request-creates_iff p s =
      let first =
        requester_then_iff env _ _ _ _ _ s (association_created p) (answer-ne-requester _) in
      let second =
        with_adapter_iff p.party_id p.party_type p.currency _
          (unable_to_associate_error (
            association_error ErrorCode.unable_to_associate_participant p.owner_fsp_id p.party_type
              p.party_id p.currency))
          (association_created p) (asked env p.owner_fsp_id s) (answer-ne-adapter _) (λ same. cc) in
      (λ e. let (a, rest) = first.0 e in (a, second.0 rest), λ (a, h). first.1 (a, second.1 h))

  -- A request to disassociate a party is answered with "association removed" exactly when the
  -- service accepts the owner, and the adapter of the oracle that the finder names removes the
  -- association.
  pub handle_disassociate_request-removes_iff :
      (p : Payload) (s : Aggregate W)
      → ((handle_disassociate_request env p s).0 ≡ ok (association_removed p)) ↔ (
          Accepts env (or_null p.owner_fsp_id) s
          × Carries
              (or_null p.party_type)
              (or_null p.currency)
              (λ adapter.
                adapter.disassociate_participant
                  (or_null p.owner_fsp_id)
                  (or_null p.party_type)
                  (or_null p.party_id)
                  (or_null p.party_sub_type)
                  (or_null p.currency))
              (asked env (or_null p.owner_fsp_id) s))
  unfolding handle_disassociate_request
  handle_disassociate_request-removes_iff p s =
      let first =
        requester_then_iff env _ _ _ _ _ s (association_removed p) (answer-ne-requester _) in
      let second =
        with_adapter_iff (or_null p.party_id) (or_null p.party_type) (or_null p.currency) _
          (unable_to_disassociate_error (
            association_error ErrorCode.unable_to_disassociate_participant (or_null p.owner_fsp_id)
              (or_null p.party_type) (or_null p.party_id) (or_null p.currency)))
          (association_removed p) (asked env (or_null p.owner_fsp_id) s) (answer-ne-adapter _)
          (λ same. cc) in
      (λ e. let (a, rest) = first.0 e in (a, second.0 rest), λ (a, h). first.1 (a, second.1 h))

  -- An association and a disassociation of an owner that the service does not accept, as it stands
  -- in the message or with `null` for `undefined`, end in the state after the validation: neither
  -- the finder nor an adapter is called.
  unaccepted_owner_is_refused :
      (p : Payload) (s : Aggregate W)
      → ¬ Accepts env p.owner_fsp_id s
      → ¬ Accepts env (or_null p.owner_fsp_id) s
      → ((handle_association_request env p s).1 ≡ asked env p.owner_fsp_id s)
        × ((handle_disassociate_request env p s).1 ≡ asked env (or_null p.owner_fsp_id) s)
  unfolding handle_association_request handle_disassociate_request
  unaccepted_owner_is_refused p s refused refused' =
      (requester_stops env _ _ _ _ _ s refused, requester_stops env _ _ _ _ _ s refused')
