-- ===== src/Aggregate/Passes.antt =====
-- When a handler gets past a validation and goes on to a given event.
use account_lookup_bc.Common.{
  Nullable, ◌≡◌, ◌≢◌, ◌↔◌, ◌∙◌, sym, ap, Option, none, some, arith, Action, ok,
}
use account_lookup_bc.Domain.Messages.{Event}
use account_lookup_bc.Domain.Ports.{Services}
use account_lookup_bc.Aggregate.State.{Aggregate}
use account_lookup_bc.Aggregate.Validate.{validate_requester, validate_destination, unless_rejected}
use account_lookup_bc.Aggregate.Validate.Laws.{
  Rejection, Describes, requester_event, destination_event, report_of, answer_in, asked, Accepts,
  validation_diagnosis,
}
use account_lookup_bc.Aggregate.Validate.Accept.{requester_passes, destination_passes}
use account_lookup_bc.Aggregate.Kinds.{
  about_requester, about_destination, kind, kind-requester_event, kind-destination_event,
}

module _ {W : Type 0} (env : Services W) where
  -- A validation that rejects reports its own event, so another event comes from what follows it.
  passes :
      {R : Type 0} (event : Rejection → R → Event) (report : R)
      (check : Action (Aggregate W) (Option Event)) (next : Action (Aggregate W) Event)
      (fsp_id : Nullable) (s : Aggregate W) (d : Option Rejection) (e : Event)
      → Describes d fsp_id (answer_in env s)
      → check s ≡ (ok (report_of event d report), asked env fsp_id s)
      → ((why : Rejection) → event why report ≢ e)
      → (unless_rejected check next s).0 ≡ ok e
      → Accepts env fsp_id s × ((next (asked env fsp_id s)).0 ≡ ok e)
  passes event report check next fsp_id s none e h run other done = (h, ground (arith, run))
  passes event report check next fsp_id s (some why) e h run other done =
      absurd (other why (ground (arith, run)))

  stops :
      {R : Type 0} (event : Rejection → R → Event) (report : R)
      (check : Action (Aggregate W) (Option Event)) (next : Action (Aggregate W) Event)
      (fsp_id : Nullable) (s : Aggregate W) (d : Option Rejection)
      → Describes d fsp_id (answer_in env s)
      → check s ≡ (ok (report_of event d report), asked env fsp_id s)
      → ¬ Accepts env fsp_id s
      → (unless_rejected check next s).1 ≡ asked env fsp_id s
  stops event report check next fsp_id s none h run refused = absurd (refused h)
  stops event report check next fsp_id s (some why) h run refused = ground (arith, run)

  module _ (party_id party_type party_sub_type fsp_id : Nullable)
      (next : Action (Aggregate W) Event) (s : Aggregate W) (e : Event) where
    pub requester_then_iff :
        kind e ≢ about_requester
        → ((unless_rejected
              (validate_requester env party_id party_type party_sub_type fsp_id)
              next
              s).0
            ≡ ok e)
          ↔ (Accepts env fsp_id s × ((next (asked env fsp_id s)).0 ≡ ok e))
    requester_then_iff other =
        let (d, why, run, _) =
          validation_diagnosis env party_id party_type party_sub_type fsp_id s in
        (
          passes requester_event _
              (validate_requester env party_id party_type party_sub_type fsp_id) next fsp_id s d e
              why run (λ w same. other (sym (ap kind same) ∙ kind-requester_event w _)),
          λ (h, done).
              ground (arith, requester_passes env party_id party_type party_sub_type fsp_id s h),
        )

    pub destination_then_iff :
        kind e ≢ about_destination
        → ((unless_rejected
              (validate_destination env party_id party_type party_sub_type fsp_id)
              next
              s).0
            ≡ ok e)
          ↔ (Accepts env fsp_id s × ((next (asked env fsp_id s)).0 ≡ ok e))
    destination_then_iff other =
        let (d, why, _, run) =
          validation_diagnosis env party_id party_type party_sub_type fsp_id s in
        (
          passes destination_event _
              (validate_destination env party_id party_type party_sub_type fsp_id) next fsp_id s d e
              why run (λ w same. other (sym (ap kind same) ∙ kind-destination_event w _)),
          λ (h, done).
              ground (arith, destination_passes env party_id party_type party_sub_type fsp_id s h),
        )

  -- Nothing that follows a rejected requester runs.
  pub requester_stops :
      (party_id party_type party_sub_type fsp_id : Nullable) (next : Action (Aggregate W) Event)
      (s : Aggregate W)
      → ¬ Accepts env fsp_id s
      → (unless_rejected
          (validate_requester env party_id party_type party_sub_type fsp_id)
          next
          s).1
        ≡ asked env fsp_id s
  requester_stops party_id party_type party_sub_type fsp_id next s refused =
      let (d, why, run, _) = validation_diagnosis env party_id party_type party_sub_type fsp_id s in
      stops requester_event _ (validate_requester env party_id party_type party_sub_type fsp_id)
        next fsp_id s d why run refused
