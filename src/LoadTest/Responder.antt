-- ===== src/LoadTest/Responder.antt =====
-- scripts/responder.js: the handler of a message, and that of a batch of messages. What it prints is
-- left out, and with it the sum of the durations, which is kept for printing alone.
pub mod Answers
use account_lookup_bc.Common.{
  ℕ, zero, suc, ◌-◌, String, Nullable, null, str, truthy, Bool, true, false, Option, none, some,
  List, [], ◌∷◌, ◌++◌, leb, if◌then◌else◌, Action, base_error, ok, pure, raise, ◌>>=◌, ◌>>◌,
}
use account_lookup_bc.Domain.Messages.{Payload}

-- The names by which `handler` tells messages apart.
pub data ReceivedName : Type 0 where
  participant_query_response party_info_requested party_query_response : ReceivedName
  other_name : String → ReceivedName

-- `fspiopOpaqueState`, with the time at which the sender sent the query if it has one.
pub record OpaqueState : Type 0 where
  pub req_send_timestamp : Option ℕ

pub record Received : Type 0 where
  pub msg_name : ReceivedName
  pub payload : Option Payload
  pub opaque_state : Option OpaqueState

-- A PartyInfoAvailableEvt, with the state that goes along: `headers` is always empty.
pub record PartyInfoAvailable : Type 0 where
  pub requester_fsp_id : Nullable
  pub destination_fsp_id : Nullable
  pub owner_fsp_id : Nullable
  pub party_type : Nullable
  pub party_id : Nullable
  pub party_sub_type : Nullable
  pub currency : Nullable
  pub party_name : String
  pub party_do_b : ℕ
  pub original_requester_fsp_id : Nullable
  pub original_destination : Nullable
  pub req_send_timestamp : Option ℕ
  pub response_timestamp : ℕ

-- The clock (`Date.now()` and `new Date()`, in milliseconds), and the producer.
pub record Bus (W : Type 0) : Type 0 where
  pub now : W → ℕ × W
  pub send : List PartyInfoAvailable → Action W Unit

-- The global variables of the script, and the world.
pub record Responder (W : Type 0) : Type 0 where
  pub received : ℕ
  pub events_to_publish : List PartyInfoAvailable
  pub overall_max_duration : ℕ
  pub batch_max_duration : ℕ
  pub batch_processed : ℕ
  pub world : W

-- `partySubType || null`
abbrev pub text_or_null : Nullable → Nullable
text_or_null value = elim (truthy value) [ none ↦ null | some s ↦ str s ]

-- `reqSendTimestamp`, where the tests for a missing state and for a falsy timestamp do not return.
abbrev pub sent_at : Option OpaqueState → Option ℕ
sent_at none = none
sent_at (some state) = elim state.req_send_timestamp [
  | none ↦ none
  | some zero ↦ none
  | some (suc t) ↦ some (suc t)
]

abbrev pub answer : Payload → OpaqueState → (born now : ℕ) → PartyInfoAvailable
answer p state born now = record {
  requester_fsp_id = p.requester_fsp_id;
  destination_fsp_id = p.destination_fsp_id;
  owner_fsp_id = p.destination_fsp_id;
  party_type = p.party_type;
  party_id = p.party_id;
  party_sub_type = text_or_null p.party_sub_type;
  currency = p.currency;
  party_name = "partynmame";
  party_do_b = born;
  original_requester_fsp_id = p.requester_fsp_id;
  original_destination = p.destination_fsp_id;
  req_send_timestamp = state.req_send_timestamp;
  response_timestamp = now;
}

module _ {W : Type 0} (bus : Bus W) (single_mode : Bool) where
  abbrev pub update : (Responder W → Responder W) → Action (Responder W) Unit
  update f s = (ok tt, f s)

  abbrev pub tell_time : Action (Responder W) ℕ
  tell_time s = let (t, w) = bus.now s.world in (ok t, record s { world = w })

  abbrev pub send : List PartyInfoAvailable → Action (Responder W) Unit
  send events s = let (r, w) = bus.send events s.world in (r, record s { world = w })

  -- The end of a query. A duration below zero is never the longest, since the longest starts at 0.
  unfoldable pub record_response : (now : ℕ) → Option OpaqueState → Action (Responder W) Unit
  record_response now opaque_state = elim (sent_at opaque_state) [
    | none ↦ pure tt
    | some t ↦ update (λ s. record s {
      received = suc s.received;
      batch_max_duration =
          if leb (now - t) s.batch_max_duration then s.batch_max_duration else now - t;
      batch_processed = if single_mode then s.batch_processed else suc s.batch_processed;
    })
  ]

  -- A missing payload or a missing state is a TypeError where the code reads it.
  unfoldable pub answer_request :
      (now : ℕ) → Option Payload → Option OpaqueState → Action (Responder W) Unit
  answer_request now payload opaque_state = elim payload [
    | none ↦ raise base_error
    | some p ↦ do
      born ← tell_time
      elim opaque_state [
        | none ↦ raise base_error
        | some state ↦
            if single_mode
            then send (answer p state born now ∷ [])
            else update (λ s. record s {
              events_to_publish = s.events_to_publish ++ answer p state born now ∷ [];
              batch_processed = suc s.batch_processed;
            })
      ]
  ]

  -- `handler`
  unfoldable pub handle : Received → Action (Responder W) Unit
  unfolding record_response answer_request
  handle m = do
    now ← tell_time
    elim m.msg_name [
      | participant_query_response ↦ record_response now m.opaque_state
      | party_info_requested ↦ answer_request now m.payload m.opaque_state
      | party_query_response ↦ record_response now m.opaque_state
      | other_name _ ↦ pure tt
    ]

  -- The loop of `batchHandler`.
  unfoldable pub handle_each : List Received → Action (Responder W) Unit
  unfolding handle
  handle_each [] = pure tt
  handle_each (m ∷ messages) = do handle m; handle_each messages

  abbrev pub publish : Action (Responder W) Unit
  publish s = send s.events_to_publish s

  -- What `batchHandler` assigns before the loop, and after it.
  abbrev pub open_batch : Responder W → Responder W
  open_batch s = record s { batch_processed = 0; batch_max_duration = 0; events_to_publish = [] }

  abbrev pub close_batch : Responder W → Responder W
  close_batch s = record s {
    overall_max_duration =
        if leb s.batch_max_duration s.overall_max_duration
        then s.overall_max_duration
        else s.batch_max_duration;
  }

  unfoldable pub batch_handler : List Received → Action (Responder W) Unit
  unfolding handle_each
  batch_handler messages = do update open_batch; handle_each messages; update close_batch; publish
