-- ===== src/Examples/Handlers.antt =====
-- The theorems about AccountLookupAggregate's messages and lookups, at one query.
use account_lookup_bc.Common.{
  Nullable, null, str, truthy, ◌≡◌, ◌≢◌, ◌↔◌, ◌⊎◌, inl, refl, Option, none, some, String, ok, throw,
  participant_not_found, unable_to_get_participant_fsp_id,
}
use account_lookup_bc.Domain.Entities.{ParticipantLookup}
use account_lookup_bc.Domain.Messages.{
  party_rejected_response, participant_rejected_response, Message, Payload,
}
use account_lookup_bc.Aggregate.Validate.{
  participant_error, validate_requester, validate_destination,
}
use account_lookup_bc.Aggregate.Validate.Laws.{
  Rejection, Describes, requester_event, destination_event, report_of, answer_in, asked, Accepts,
  validation_diagnosis,
}
use account_lookup_bc.Aggregate.Validate.Accept.{
  validate_requester-Accepts_iff, validate_destination-Accepts_iff,
}
use account_lookup_bc.Aggregate.Oracles.{get_account_lookup}
use account_lookup_bc.Aggregate.Oracles.Laws.{Answered, get_account_lookup_outcomes}
use account_lookup_bc.Aggregate.Kinds.{kind, about_unknown, about_message, CanAnswer}
use account_lookup_bc.Aggregate.Queries.{
  info_requested, query_response, owner_response, handle_party_query_received,
  handle_party_info_available, handle_participant_query_received,
}
use account_lookup_bc.Aggregate.Queries.Laws.{
  OracleNames, GoesTo, handle_party_query_received-forwards_iff,
  handle_party_info_available-responds_iff, handle_participant_query_received-answers_iff,
}
use account_lookup_bc.Aggregate.Rejections.{
  rejected_response, get_party_rejected, get_participant_rejected,
}
use account_lookup_bc.Aggregate.Rejections.Laws.{BothAccepted, rejections_pass_on_iff}
use account_lookup_bc.Aggregate.Associations.{
  association_created, association_removed, handle_association_request, handle_disassociate_request,
}
use account_lookup_bc.Aggregate.Associations.Laws.{
  Carries, handle_association_request-creates_iff, handle_disassociate_request-removes_iff,
}
use account_lookup_bc.Aggregate.Dispatch.{handle_event}
use account_lookup_bc.Aggregate.Dispatch.Laws.{handle_event_answers, handle_event_invalid}
use account_lookup_bc.Examples.World.{running, start, query, answered_query, query_message}

handle_event_answers_example :
    let (reply, s') = handle_event running query_message start in
    CanAnswer query_message.msg_name reply.event
    × (kind reply.event ≢ about_unknown)
    × (reply.inbound ≡ none)
    × (s'.adapters ≡ start.adapters)
handle_event_answers_example = handle_event_answers running query_message query start refl refl

abbrev empty_message : Message
empty_message = record query_message { payload = none }

handle_event_invalid_example :
    let (reply, s') = handle_event running empty_message start in
    (kind reply.event ≡ about_message) × (reply.inbound ≡ some empty_message.inbound) × (s' ≡ start)
handle_event_invalid_example = handle_event_invalid running empty_message start (inl refl)

handle_party_query_received-forwards_iff_example :
    ((handle_party_query_received running query start).0 ≡ ok (info_requested query (str "dfsp2")))
    ↔ (Accepts running (str "dfsp1") start
        × GoesTo running query (asked running (str "dfsp1") start) (str "dfsp2"))
handle_party_query_received-forwards_iff_example =
    handle_party_query_received-forwards_iff running query start (str "dfsp2")

handle_participant_query_received-answers_iff_example :
    ((handle_participant_query_received running query start).0
      ≡ ok (owner_response query (str "dfsp2")))
    ↔ (Accepts running (str "dfsp1") start
        × OracleNames running
            (str "123")
            (str "MSISDN")
            query.party_sub_type
            (str "EUR")
            (asked running (str "dfsp1") start)
            (str "dfsp2"))
handle_participant_query_received-answers_iff_example =
    handle_participant_query_received-answers_iff running query start (str "dfsp2")

handle_party_info_available-responds_iff_example :
    ((handle_party_info_available running answered_query start).0
      ≡ ok (query_response answered_query))
    ↔ (Accepts running (str "dfsp1") start
        × Accepts running (str "dfsp2") (asked running (str "dfsp1") start))
handle_party_info_available-responds_iff_example =
    handle_party_info_available-responds_iff running answered_query start

handle_association_request-creates_iff_example :
    ((handle_association_request running query start).0 ≡ ok (association_created query)) ↔ (
      Accepts running (str "dfsp2") start
      × Carries running
          (str "MSISDN")
          (str "EUR")
          (λ adapter.
            adapter.associate_participant
              (str "dfsp2")
              (str "MSISDN")
              (str "123")
              query.party_sub_type
              (str "EUR"))
          (asked running (str "dfsp2") start))
handle_association_request-creates_iff_example =
    handle_association_request-creates_iff running query start

handle_disassociate_request-removes_iff_example :
    ((handle_disassociate_request running query start).0 ≡ ok (association_removed query)) ↔ (
      Accepts running (str "dfsp2") start
      × Carries running
          (str "MSISDN")
          (str "EUR")
          (λ adapter.
            adapter.disassociate_participant
              (str "dfsp2")
              (str "MSISDN")
              (str "123")
              null
              (str "EUR"))
          (asked running (str "dfsp2") start))
handle_disassociate_request-removes_iff_example =
    handle_disassociate_request-removes_iff running query start

abbrev ownerless : Payload
ownerless = record query { owner_fsp_id = str "" }

validation_diagnosis_example :
    let report = participant_error (str "123") (str "MSISDN") null (str "dfsp1") in
    (d : Option Rejection) × Describes d (str "dfsp1") (answer_in running start)
    × (validate_requester running (str "123") (str "MSISDN") null (str "dfsp1") start
        ≡ (ok (report_of requester_event d report), asked running (str "dfsp1") start))
    × (validate_destination running (str "123") (str "MSISDN") null (str "dfsp1") start
        ≡ (ok (report_of destination_event d report), asked running (str "dfsp1") start))
validation_diagnosis_example =
    validation_diagnosis running (str "123") (str "MSISDN") null (str "dfsp1") start

rejections_pass_on_iff_example :
    (((get_party_rejected running answered_query start).0
        ≡ ok (party_rejected_response (rejected_response answered_query)))
      ↔ BothAccepted running answered_query start)
    × (((get_participant_rejected running answered_query start).0
          ≡ ok (participant_rejected_response (rejected_response answered_query)))
        ↔ BothAccepted running answered_query start)
rejections_pass_on_iff_example = rejections_pass_on_iff running answered_query start

validate_requester-Accepts_iff_example :
    ((validate_requester running (str "123") (str "MSISDN") null (str "dfsp1") start).0 ≡ ok none)
    ↔ Accepts running (str "dfsp1") start
validate_requester-Accepts_iff_example =
    validate_requester-Accepts_iff running (str "123") (str "MSISDN") null (str "dfsp1") start

validate_destination-Accepts_iff_example :
    ((validate_destination running (str "123") (str "MSISDN") null (str "dfsp2") start).0 ≡ ok none)
    ↔ Accepts running (str "dfsp2") start
validate_destination-Accepts_iff_example =
    validate_destination-Accepts_iff running (str "123") (str "MSISDN") null (str "dfsp2") start

abbrev lookup_of_query : ParticipantLookup
lookup_of_query = record {
  party_id = str "123";
  party_type = str "MSISDN";
  party_sub_type = null;
  currency = str "EUR";
}

get_account_lookup_outcomes_example :
    ((fsp_id : String)
      → ((get_account_lookup running lookup_of_query start).0 ≡ ok fsp_id) ↔ (
          (answer : Nullable) × Answered running lookup_of_query start answer
          × (truthy answer ≡ some fsp_id)))
    × (((get_account_lookup running lookup_of_query start).0 ≡ throw participant_not_found) ↔ (
        (answer : Nullable) × Answered running lookup_of_query start answer
        × (truthy answer ≡ none)))
    × (((fsp_id : String) × ((get_account_lookup running lookup_of_query start).0 ≡ ok fsp_id))
        ⊎ ((get_account_lookup running lookup_of_query start).0 ≡ throw participant_not_found)
        ⊎ ((get_account_lookup running lookup_of_query start).0
            ≡ throw unable_to_get_participant_fsp_id))
get_account_lookup_outcomes_example = get_account_lookup_outcomes running lookup_of_query start
