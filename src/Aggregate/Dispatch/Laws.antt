-- ===== src/Aggregate/Dispatch/Laws.antt =====
-- Which events `handleEvent` can answer each message with.
use account_lookup_bc.Common.{
  Nullable, truthy, ◌≡◌, ◌≢◌, refl, ◌⊎◌, inl, inr, none, some, arith, ok, or_null, pure,
}
use account_lookup_bc.Domain.Messages.{
  Event, Payload, Message, domain_event, MessageName, party_query_received, party_info_available,
  participant_query_received, participant_association_request_received,
  participant_disassociate_request_received, party_rejected, participant_rejected, other_name,
}
use account_lookup_bc.Domain.Ports.{Services}
use account_lookup_bc.Aggregate.State.{Aggregate}
use account_lookup_bc.Aggregate.Validate.{validate_message, validate_destination, unless_rejected}
use account_lookup_bc.Aggregate.Kinds.{
  Kind, answer, about_destination, about_message, about_unknown, kind, CanFail, CanAnswer,
  kind-requester_event, kind-destination_event, answers-ne-unknown,
}
use account_lookup_bc.Aggregate.Queries.{
  request_party_info, answer_owner, forward_party_query, info_requested, owner_response,
  handle_party_query_received, handle_party_info_available, handle_participant_query_received,
}
use account_lookup_bc.Aggregate.Rejections.{get_party_rejected, get_participant_rejected}
use account_lookup_bc.Aggregate.Associations.{
  handle_association_request, handle_disassociate_request,
}
use account_lookup_bc.Aggregate.Ends.{
  Ends, pure-Ends, option-Ends, requester-Ends, destination-Ends, oracle_answer-Ends, adapter-Ends,
  call-Ends,
}
use account_lookup_bc.Aggregate.Dispatch.{dispatch, handle_event}

module _ {W : Type 0} (env : Services W) where
  -- The second half of a handler that validates its destination last.
  destination_then :
      (n : MessageName) (party_id party_type party_sub_type fsp_id : Nullable) (e : Event)
      (s : Aggregate W)
      → ((k : Kind) → k ≡ about_destination → CanFail n k)
      → kind e ≡ answer n
      → Ends
          (CanAnswer n)
          (unless_rejected
            (validate_destination env party_id party_type party_sub_type fsp_id)
            (pure e))
          s
  destination_then n party_id party_type party_sub_type fsp_id e s can success =
      destination-Ends env (CanAnswer n) party_id party_type party_sub_type fsp_id _ s
        (λ why. inr (can _ (kind-destination_event why _)))
        (λ _. pure-Ends (CanAnswer n) e _ (inl success))

  request_party_info-Ends :
      (p : Payload) (d : Nullable) (s : Aggregate W)
      → Ends (CanAnswer party_query_received) (request_party_info env p d) s
  unfolding request_party_info
  request_party_info-Ends p d s =
      destination_then party_query_received _ _ _ d (info_requested p d) s (λ k h. inr (inr h)) refl

  answer_owner-Ends :
      (p : Payload) (d : Nullable) (s : Aggregate W)
      → Ends (CanAnswer participant_query_received) (answer_owner env p d) s
  unfolding answer_owner
  answer_owner-Ends p d s =
      destination_then participant_query_received _ _ _ d (owner_response p d) s
        (λ k h. inr (inr h)) refl

  forward_party_query-Ends :
      (p : Payload) (s : Aggregate W)
      → Ends (CanAnswer party_query_received) (forward_party_query env p) s
  unfolding forward_party_query
  forward_party_query-Ends p s =
      option-Ends (CanAnswer party_query_received) (truthy (or_null p.destination_fsp_id)) _ _ _
        (λ _. request_party_info-Ends p (or_null p.destination_fsp_id) _)
        (oracle_answer-Ends env (CanAnswer party_query_received) _ _ _ _ (request_party_info env p)
          _ (inr (inr (inl refl))) (λ d t. request_party_info-Ends p d t))

  handle_party_query_received-Ends :
      (p : Payload) (s : Aggregate W)
      → Ends (CanAnswer party_query_received) (handle_party_query_received env p) s
  unfolding handle_party_query_received
  handle_party_query_received-Ends p s =
      requester-Ends env (CanAnswer party_query_received) _ _ _ _ _ s
        (λ why. inr (inl (kind-requester_event why _))) (λ _. forward_party_query-Ends p _)

  handle_party_info_available-Ends :
      (p : Payload) (s : Aggregate W)
      → Ends (CanAnswer party_info_available) (handle_party_info_available env p) s
  unfolding handle_party_info_available
  handle_party_info_available-Ends p s =
      requester-Ends env (CanAnswer party_info_available) _ _ _ _ _ s
        (λ why. inr (inl (kind-requester_event why _)))
        (λ _. destination_then party_info_available _ _ _ _ _ _ (λ k h. inr h) refl)

  handle_participant_query_received-Ends :
      (p : Payload) (s : Aggregate W)
      → Ends (CanAnswer participant_query_received) (handle_participant_query_received env p) s
  unfolding handle_participant_query_received
  handle_participant_query_received-Ends p s =
      requester-Ends env (CanAnswer participant_query_received) _ _ _ _ _ s
        (λ why. inr (inl (kind-requester_event why _)))
        (λ _.
          oracle_answer-Ends env (CanAnswer participant_query_received) _ _ _ _ (answer_owner env p)
            _ (inr (inr (inl refl))) (λ d t. answer_owner-Ends p d t))

  get_party_rejected-Ends :
      (p : Payload) (s : Aggregate W) → Ends (CanAnswer party_rejected) (get_party_rejected env p) s
  unfolding get_party_rejected
  get_party_rejected-Ends p s =
      requester-Ends env (CanAnswer party_rejected) _ _ _ _ _ s
        (λ why. inr (inl (kind-requester_event why _)))
        (λ _. destination_then party_rejected _ _ _ _ _ _ (λ k h. inr h) refl)

  get_participant_rejected-Ends :
      (p : Payload) (s : Aggregate W)
      → Ends (CanAnswer participant_rejected) (get_participant_rejected env p) s
  unfolding get_participant_rejected
  get_participant_rejected-Ends p s =
      requester-Ends env (CanAnswer participant_rejected) _ _ _ _ _ s
        (λ why. inr (inl (kind-requester_event why _)))
        (λ _. destination_then participant_rejected _ _ _ _ _ _ (λ k h. inr h) refl)

  handle_association_request-Ends :
      (p : Payload) (s : Aggregate W)
      → Ends
          (CanAnswer participant_association_request_received)
          (handle_association_request env p)
          s
  unfolding handle_association_request
  handle_association_request-Ends p s =
      requester-Ends env (CanAnswer participant_association_request_received) _ _ _ _ _ s
        (λ why. inr (inl (kind-requester_event why _)))
        (λ _.
          adapter-Ends env (CanAnswer participant_association_request_received) _ _ _ _ _
            (inr (inr (inl refl)))
            (λ adapter t.
              call-Ends env (CanAnswer participant_association_request_received) _ _ _ t
                (inr (inr (inr refl))) (inl refl)))

  handle_disassociate_request-Ends :
      (p : Payload) (s : Aggregate W)
      → Ends
          (CanAnswer participant_disassociate_request_received)
          (handle_disassociate_request env p)
          s
  unfolding handle_disassociate_request
  handle_disassociate_request-Ends p s =
      requester-Ends env (CanAnswer participant_disassociate_request_received) _ _ _ _ _ s
        (λ why. inr (inl (kind-requester_event why _)))
        (λ _.
          adapter-Ends env (CanAnswer participant_disassociate_request_received) _ _ _ _ _
            (inr (inr (inl refl)))
            (λ adapter t.
              call-Ends env (CanAnswer participant_disassociate_request_received) _ _ _ t
                (inr (inr (inr refl))) (inl refl)))

  dispatch-Ends :
      (n : MessageName) (p : Payload) (s : Aggregate W) → Ends (CanAnswer n) (dispatch env n p) s
  unfolding dispatch
  dispatch-Ends party_query_received p s = handle_party_query_received-Ends p s
  dispatch-Ends party_info_available p s = handle_party_info_available-Ends p s
  dispatch-Ends participant_query_received p s = handle_participant_query_received-Ends p s
  dispatch-Ends participant_association_request_received p s = handle_association_request-Ends p s
  dispatch-Ends participant_disassociate_request_received p s = handle_disassociate_request-Ends p s
  dispatch-Ends party_rejected p s = get_party_rejected-Ends p s
  dispatch-Ends participant_rejected p s = get_participant_rejected-Ends p s
  dispatch-Ends (other_name x) p s = pure-Ends (CanAnswer (other_name x)) _ s (inr refl)

  run_valid :
      (m : Message) (p : Payload) (s t : Aggregate W) (e : Event)
      → m.payload ≡ some p
      → m.msg_type ≡ domain_event
      → dispatch env m.msg_name p s ≡ (ok e, t)
      → handle_event env m s ≡ (record { event = e; inbound = none }, t)
  unfolding handle_event validate_message
  run_valid m p s t e has_payload typed run = ground arith

  -- A message that has a payload and is a domain event is answered by the event that reports
  -- success for its name or by an error event of a kind that its handler can run into, never by
  -- the unknown error; the protocol state is left to the caller, and the list of adapters is as it
  -- was.
  pub handle_event_answers :
      (m : Message) (p : Payload) (s : Aggregate W)
      → m.payload ≡ some p
      → m.msg_type ≡ domain_event
      → let (reply, s') = handle_event env m s in
        CanAnswer m.msg_name reply.event
        × (kind reply.event ≢ about_unknown)
        × (reply.inbound ≡ none)
        × (s'.adapters ≡ s.adapters)
  handle_event_answers m p s has_payload typed =
      let h = dispatch-Ends m.msg_name p s in
      rw (run_valid m p s h.state h.event has_payload typed h.run)
        (h.holds, answers-ne-unknown m.msg_name (kind h.event) h.holds, refl, h.kept)

  -- A message with no payload, or of another type than domain event, is answered by an invalid
  -- message event with the protocol state of the message, and nothing else happens.
  pub handle_event_invalid :
      (m : Message) (s : Aggregate W)
      → (m.payload ≡ none) ⊎ (m.msg_type ≢ domain_event)
      → let (reply, s') = handle_event env m s in
        (kind reply.event ≡ about_message) × (reply.inbound ≡ some m.inbound) × (s' ≡ s)
  unfolding handle_event validate_message
  handle_event_invalid m s (inl missing) = ground arith
  handle_event_invalid m s (inr other) = ground arith
