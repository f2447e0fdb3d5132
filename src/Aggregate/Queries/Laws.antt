-- ===== src/Aggregate/Queries/Laws.antt =====
-- When the three query handlers of AccountLookupAggregate answer with success, and with what.
use account_lookup_bc.Common.{
  Nullable, str, or_null, truthy, String, ◌≡◌, ◌≢◌, refl, ◌↔◌, inl, inr, none, some, arith, Action,
  ok, Option-cases, Result-cases,
}
use account_lookup_bc.Domain.Messages.{Event, Payload}
use account_lookup_bc.Domain.Ports.{Services}
use account_lookup_bc.Aggregate.State.{Aggregate}
use account_lookup_bc.Aggregate.Validate.Laws.{asked, Accepts}
use account_lookup_bc.Aggregate.Oracles.{get_participant_id_from_oracle}
use account_lookup_bc.Aggregate.Kinds.{
  kind, about_lookup, answer-ne-requester, answer-ne-destination, answer-ne-lookup,
}
use account_lookup_bc.Aggregate.Passes.{requester_then_iff, destination_then_iff}
use account_lookup_bc.Aggregate.Queries.{
  info_requested, query_response, owner_response, with_oracle_answer, request_party_info,
  answer_owner, forward_party_query, handle_party_query_received, handle_party_info_available,
  handle_participant_query_received,
}

module _ {W : Type 0} (env : Services W) where
  -- An oracle names the FSP `fsp_id` for the party, and the service accepts that FSP afterwards.
  pub record OracleNames (party_id party_type party_sub_type currency : Nullable) (s : Aggregate W)
      (fsp_id : Nullable) : Type 0 where
    pub named : String
    pub is_text : fsp_id ≡ str named
    pub answered :
        (get_participant_id_from_oracle env party_id party_type party_sub_type currency s).0
        ≡ ok named
    pub accepted :
        Accepts env
          (str named)
          (get_participant_id_from_oracle env party_id party_type party_sub_type currency s).1

  -- A PartyInfoAvailable message is answered with the party's data exactly when the service accepts
  -- its requester and then its destination.
  pub handle_party_info_available-responds_iff :
      (p : Payload) (s : Aggregate W)
      → let s' = asked env (or_null p.requester_fsp_id) s in
        ((handle_party_info_available env p s).0 ≡ ok (query_response p)) ↔ (
          Accepts env (or_null p.requester_fsp_id) s
          × Accepts env (or_null p.destination_fsp_id) s')
  unfolding handle_party_info_available
  handle_party_info_available-responds_iff p s =
      let s' = asked env (or_null p.requester_fsp_id) s in
      let first = requester_then_iff env _ _ _ _ _ s (query_response p) (answer-ne-requester _) in
      let second =
        destination_then_iff env _ _ _ _ _ s' (query_response p) (answer-ne-destination _) in
      (
        λ e. let (a, rest) = first.0 e in let (b, _) = second.0 rest in (a, b),
        λ (a, b). first.1 (a, second.1 (b, refl)),
      )

  module _ (party_id party_type party_sub_type currency : Nullable)
      (next : Nullable → Action (Aggregate W) Event) (s : Aggregate W) (e : Event) where
    with_oracle_answer_iff :
        let ask = get_participant_id_from_oracle env party_id party_type party_sub_type currency in
        kind e ≢ about_lookup
        → ((with_oracle_answer env party_id party_type party_sub_type currency next s).0 ≡ ok e)
          ↔ ((named : String) × ((ask s).0 ≡ ok named) × ((next (str named) (ask s).1).0 ≡ ok e))
    unfolding with_oracle_answer
    with_oracle_answer_iff other =
        let ask = get_participant_id_from_oracle env party_id party_type party_sub_type currency in
        (
          λ run. elim (Result-cases (ask s).0) [
            | inl (named, answered) ↦ (named, answered, ground arith)
            | inr (x, thrown) ↦ absurd (other (ground arith))
          ],
          λ (named, answered, run). ground arith,
        )

  request_party_info_iff :
      (p : Payload) (d d' : Nullable) (s : Aggregate W)
      → ((request_party_info env p d' s).0 ≡ ok (info_requested p d))
        ↔ ((d ≡ d') × Accepts env d' s)
  unfolding request_party_info
  request_party_info_iff p d d' s =
      let check =
        destination_then_iff env _ _ _ d' _ s (info_requested p d) (answer-ne-destination _) in
      (λ e. let (a, rest) = check.0 e in (cc, a), λ (same, a). check.1 (a, rw same))

  -- Where a PartyQueryReceived message goes, from the state after its requester was validated: to
  -- the destination that it names, or to the FSP that an oracle names where it names none.
  abbrev pub GoesTo : Payload → Aggregate W → Nullable → Type 0
  GoesTo p s d = elim (truthy (or_null p.destination_fsp_id)) [
    | some _ ↦ (d ≡ or_null p.destination_fsp_id) × Accepts env (or_null p.destination_fsp_id) s
    | none ↦
        OracleNames (or_null p.party_id) (or_null p.party_type) (or_null p.party_sub_type)
          (or_null p.currency) s d
  ]

  forward_to_named :
      (p : Payload) (s : Aggregate W) (d : Nullable)
      → ((with_oracle_answer env
            (or_null p.party_id)
            (or_null p.party_type)
            (or_null p.party_sub_type)
            (or_null p.currency)
            (request_party_info env p)
            s).0
          ≡ ok (info_requested p d))
        ↔ OracleNames
            (or_null p.party_id)
            (or_null p.party_type)
            (or_null p.party_sub_type)
            (or_null p.currency)
            s
            d
  forward_to_named p s d =
      let ask =
        with_oracle_answer_iff (or_null p.party_id) (or_null p.party_type)
          (or_null p.party_sub_type) (or_null p.currency) (request_party_info env p) s
          (info_requested p d) (answer-ne-lookup _) in
      (
        λ e.
            let (named, answered, last) = ask.0 e in
            let (same, b) = (request_party_info_iff p d (str named) _).0 last in
            record { named = named; is_text = same; answered = answered; accepted = b },
        λ h.
            ask.1 (h.named, h.answered, (request_party_info_iff p d _ _).1 (h.is_text, h.accepted)),
      )

  forward_party_query_iff :
      (p : Payload) (s : Aggregate W) (d : Nullable)
      → ((forward_party_query env p s).0 ≡ ok (info_requested p d)) ↔ GoesTo p s d
  unfolding forward_party_query
  forward_party_query_iff p s d = elim (Option-cases (truthy (or_null p.destination_fsp_id))) [
    | inl absent ↦ rw (absent, forward_party_query) (rw (absent, GoesTo) (forward_to_named p s d))
    | inr (text, present) ↦
        rw (present, forward_party_query)
          (rw (present, GoesTo) (request_party_info_iff p d (or_null p.destination_fsp_id) s))
  ]

  -- A PartyQueryReceived message is forwarded to `d` exactly when the service accepts its requester,
  -- and `d` is the destination that it names or, if it names none, the FSP that an oracle names for
  -- the party, and the service accepts `d` too.
  pub handle_party_query_received-forwards_iff :
      (p : Payload) (s : Aggregate W) (d : Nullable)
      → let s' = asked env (or_null p.requester_fsp_id) s in
        ((handle_party_query_received env p s).0 ≡ ok (info_requested p d))
        ↔ (Accepts env (or_null p.requester_fsp_id) s × GoesTo p s' d)
  unfolding handle_party_query_received
  handle_party_query_received-forwards_iff p s d =
      let s' = asked env (or_null p.requester_fsp_id) s in
      let first = requester_then_iff env _ _ _ _ _ s (info_requested p d) (answer-ne-requester _) in
      let second = forward_party_query_iff p s' d in
      (λ e. let (a, rest) = first.0 e in (a, second.0 rest), λ (a, h). first.1 (a, second.1 h))

  answer_owner_iff :
      (p : Payload) (d d' : Nullable) (s : Aggregate W)
      → ((answer_owner env p d' s).0 ≡ ok (owner_response p d)) ↔ ((d ≡ d') × Accepts env d' s)
  unfolding answer_owner
  answer_owner_iff p d d' s =
      let check =
        destination_then_iff env _ _ _ d' _ s (owner_response p d) (answer-ne-destination _) in
      (λ e. let (a, rest) = check.0 e in (cc, a), λ (same, a). check.1 (a, rw same))

  -- A ParticipantQueryReceived message is answered with the owner `d` exactly when the service
  -- accepts its requester, an oracle names `d` for the party, and the service accepts `d`.
  pub handle_participant_query_received-answers_iff :
      (p : Payload) (s : Aggregate W) (d : Nullable)
      → let s' = asked env p.requester_fsp_id s in
        ((handle_participant_query_received env p s).0 ≡ ok (owner_response p d)) ↔ (
          Accepts env p.requester_fsp_id s
          × OracleNames p.party_id p.party_type p.party_sub_type p.currency s' d)
  unfolding handle_participant_query_received
  handle_participant_query_received-answers_iff p s d =
      let s' = asked env p.requester_fsp_id s in
      let first = requester_then_iff env _ _ _ _ _ s (owner_response p d) (answer-ne-requester _) in
      let second =
        with_oracle_answer_iff p.party_id p.party_type p.party_sub_type p.currency
          (answer_owner env p) s' (owner_response p d) (answer-ne-lookup _) in
      (
        λ e.
            let (a, rest) = first.0 e in
            let (named, answered, last) = second.0 rest in
            let (same, b) = (answer_owner_iff p d (str named) _).0 last in
            (a, record { named = named; is_text = same; answered = answered; accepted = b }),
        λ (a, h). first.1 (
          a,
          second.1 (h.named, h.answered, (answer_owner_iff p d _ _).1 (h.is_text, h.accepted)),
        ),
      )
