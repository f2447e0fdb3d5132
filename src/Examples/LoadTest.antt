-- ===== src/Examples/LoadTest.antt =====
-- The scripts of the load test, on a bus that counts its ticks.
use account_lookup_bc.Common.{
  ℕ, suc, ◌≡◌, refl, ◌⊎◌, true, false, none, some, List, [], ◌∷◌, Action, base_error, ok, throw,
}
use account_lookup_bc.LoadTest.Responder
use account_lookup_bc.LoadTest.Responder.{
  Responder, Received, PartyInfoAvailable, party_info_requested, party_query_response,
  batch_handler, send,
}
use account_lookup_bc.LoadTest.Responder.Answers.{
  are_readable, AnswersAll, batch_handler_all_or_none,
}
use account_lookup_bc.LoadTest.Sender.{run}
use account_lookup_bc.Examples.World.{query}

-- The time, and what was published.
abbrev Wire : Type 0
Wire = ℕ × List PartyInfoAvailable

abbrev wire : Responder.Bus Wire
wire = record {
  now = λ (t, sent). (suc t, (suc t, sent));
  send = λ events (t, sent). (ok tt, (t, events));
}

abbrev idle : Responder Wire
idle = record {
  received = 0;
  events_to_publish = [];
  overall_max_duration = 0;
  batch_max_duration = 0;
  batch_processed = 0;
  world = (10, []);
}

abbrev response : Received
response = record {
  msg_name = party_query_response;
  payload = none;
  opaque_state = some (record { req_send_timestamp = some 4 });
}

abbrev request : Received
request = record {
  msg_name = party_info_requested;
  payload = some query;
  opaque_state = some (record { req_send_timestamp = some 6 });
}

abbrev drop : List PartyInfoAvailable → Action Wire Unit
drop events w = (ok tt, w)

batch_handler_all_or_none_example :
    let ms = response ∷ request ∷ [] in
    ((are_readable ms ≡ true)
      × ((out : List PartyInfoAvailable) × (t : Responder Wire) × AnswersAll ms out
          × (batch_handler wire false ms idle ≡ send wire false out t)))
    ⊎ ((are_readable ms ≡ false)
        × ((batch_handler wire false ms idle).0 ≡ throw base_error)
        × (batch_handler (record wire { send = drop }) false ms idle
            ≡ batch_handler wire false ms idle))
batch_handler_all_or_none_example =
    batch_handler_all_or_none wire (response ∷ request ∷ []) idle drop

-- The longest duration of the batch is that of the response, which was sent at 4.
measures : (batch_handler wire false (response ∷ request ∷ []) idle).1.overall_max_duration ≡ 7
unfolding batch_handler
measures = refl

-- One request without a state, and the batch is lost.
loses_batch :
    let (r, t) =
      batch_handler wire false (request ∷ record request { opaque_state = none } ∷ []) idle in
    (r ≡ throw base_error) × (t.world.1 ≡ [])
unfolding batch_handler
loses_batch = (refl, refl)

-- A script that is to send 40 messages sends a batch more.
sends_sixty :
    (run
      (record { now = λ t. (suc t, suc t); random_id = λ t. (7, t); send = λ l t. (ok tt, t) })
      40
      20
      3
      (record { sent = 0; world = 0 })).1.sent
    ≡ 60
unfolding run
sends_sixty = refl
