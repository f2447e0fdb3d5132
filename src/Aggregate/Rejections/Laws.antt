-- ===== src/Aggregate/Rejections/Laws.antt =====
-- When a rejection is passed on to the requester.
use account_lookup_bc.Common.{or_null, ◌≡◌, refl, ◌↔◌, ok}
use account_lookup_bc.Domain.Messages.{
  Payload, party_rejected_response, participant_rejected_response,
}
use account_lookup_bc.Domain.Ports.{Services}
use account_lookup_bc.Aggregate.State.{Aggregate}
use account_lookup_bc.Aggregate.Validate.Laws.{asked, Accepts}
use account_lookup_bc.Aggregate.Kinds.{answer-ne-requester, answer-ne-destination}
use account_lookup_bc.Aggregate.Passes.{requester_then_iff, destination_then_iff}
use account_lookup_bc.Aggregate.Rejections.{
  rejected_response, get_party_rejected, get_participant_rejected,
}

module _ {W : Type 0} (env : Services W) (p : Payload) (s : Aggregate W) where
  -- The service accepts the requester of the message, and then its destination.
  abbrev pub BothAccepted : Type 0
  BothAccepted =
      Accepts env (or_null p.requester_fsp_id) s
      × Accepts env (or_null p.destination_fsp_id) (asked env (or_null p.requester_fsp_id) s)

  party_rejected_iff :
      ((get_party_rejected env p s).0 ≡ ok (party_rejected_response (rejected_response p)))
      ↔ BothAccepted
  unfolding get_party_rejected
  party_rejected_iff =
      let s' = asked env (or_null p.requester_fsp_id) s in
      let e = party_rejected_response (rejected_response p) in
      let first = requester_then_iff env _ _ _ _ _ s e (answer-ne-requester _) in
      let second = destination_then_iff env _ _ _ _ _ s' e (answer-ne-destination _) in
      (
        λ run. let (a, rest) = first.0 run in let (b, _) = second.0 rest in (a, b),
        λ (a, b). first.1 (a, second.1 (b, refl)),
      )

  participant_rejected_iff :
      ((get_participant_rejected env p s).0
        ≡ ok (participant_rejected_response (rejected_response p)))
      ↔ BothAccepted
  unfolding get_participant_rejected
  participant_rejected_iff =
      let s' = asked env (or_null p.requester_fsp_id) s in
      let e = participant_rejected_response (rejected_response p) in
      let first = requester_then_iff env _ _ _ _ _ s e (answer-ne-requester _) in
      let second = destination_then_iff env _ _ _ _ _ s' e (answer-ne-destination _) in
      (
        λ run. let (a, rest) = first.0 run in let (b, _) = second.0 rest in (a, b),
        λ (a, b). first.1 (a, second.1 (b, refl)),
      )

  -- A rejection, of a party or of a participant, is passed on with the party's fields and the error
  -- information exactly when the service accepts the requester and then the destination.
  pub rejections_pass_on_iff :
      (((get_party_rejected env p s).0 ≡ ok (party_rejected_response (rejected_response p)))
        ↔ BothAccepted)
      × (((get_participant_rejected env p s).0
            ≡ ok (participant_rejected_response (rejected_response p)))
          ↔ BothAccepted)
  rejections_pass_on_iff = (party_rejected_iff, participant_rejected_iff)
