-- ===== src/Examples/Services.antt =====
-- The theorems about the event handler and about the MongoDB provider, in small worlds.
use account_lookup_bc.Common.{
  external_error, throw, String, null, str, ◌≡◌, ◌≢◌, ◌⊎◌, refl, none, some, List, [], ◌∷◌, ◌++◌,
  ◌==◌, find, select, remove_first, arith, eq_iff, ok, if◌then◌else◌,
}
use account_lookup_bc.Domain.Entities.{Association}
use account_lookup_bc.Domain.Messages.{
  ErrorCode, requester_not_found_error, destination_not_found_error,
}
use account_lookup_bc.Aggregate.State.{Aggregate, lift}
use account_lookup_bc.EventHandler.{Outgoing, Broker, batch_msg_handler}
use account_lookup_bc.EventHandler.Laws.{Handled, batch_msg_handler_answers}
use account_lookup_bc.Mongo.Collection.{Collection, CollectionLaws, count_one}
use account_lookup_bc.Mongo.Provider.{Cache, PartyQuery}
use account_lookup_bc.Mongo.Provider.Laws.{CacheLaws}
use account_lookup_bc.Mongo.Provider.Storage.{matches, StoreLaws}
use account_lookup_bc.Aggregate.Validate.{
  participant_error, validate_requester, validate_destination,
}
use account_lookup_bc.Participants.{ParticipantsClient, with_adapter_of}
use account_lookup_bc.Participants.Outage.{outage_reads_as_unknown}
use account_lookup_bc.Examples.World.{Shelf, running, start, query_message}

abbrev broker : Broker Shelf
broker = record {
  connect_producer = λ w. (ok tt, w);
  connect_consumer = λ w. (ok tt, w);
  start_and_wait_for_rebalance = λ w. (ok tt, w);
  stop_consumer = λ w. (ok tt, w);
  send = λ outputs w. (ok tt, w);
}

batch_msg_handler_answers_example :
    let messages = query_message ∷ record query_message { payload = none } ∷ [] in
    (outputs : List Outgoing) × (t : Aggregate Shelf) × Handled running messages start outputs t
    × (t.adapters ≡ start.adapters)
    × (((messages ≡ []) × (batch_msg_handler running broker messages start ≡ (ok tt, start)))
        ⊎ ((messages ≢ [])
            × (batch_msg_handler running broker messages start ≡ lift (broker.send outputs) t)))
batch_msg_handler_answers_example =
    batch_msg_handler_answers running broker
      (query_message ∷ record query_message { payload = none } ∷ []) start

-- Associations, and the last entry of the cache.
abbrev Store : Type 0
Store = List Association × String × String

abbrev parties : Collection Store Association PartyQuery
parties = record {
  find_one = λ q w. (ok (find (matches q) w.0), w);
  find_all = λ q w. (ok (select (matches q) w.0), w);
  insert_one = λ a w. (ok tt, (w.0 ++ a ∷ [], w.1, w.2));
  delete_one =
      λ q w. (ok (count_one (find (matches q) w.0)), (remove_first (matches q) w.0, w.1, w.2));
}

parties-CollectionLaws : CollectionLaws parties (λ w. w.0) matches
parties-CollectionLaws = record {
  find_one_reads = λ q w found e. ground arith;
  find_one_keeps = λ q w. refl;
  find_all_reads = λ q w found e. ground arith;
  find_all_keeps = λ q w. refl;
  insert_one_adds = λ d w e. refl;
  insert_one_fails = λ d w x e. absurd (ground arith);
  delete_one_removes = λ q w n e. (refl, ground arith);
  delete_one_fails = λ q w x e. absurd (ground arith);
}

abbrev entry : Association
entry = record {
  fsp_id = str "dfsp2";
  party_type = str "MSISDN";
  party_id = str "123";
  party_sub_type = null;
  currency = str "EUR";
}

abbrev cache : Cache Store
cache = record {
  connect = λ w. (ok tt, w);
  get = λ key w. (ok (if w.1 == key then str w.2 else null), w);
  setex = λ key secs text w. (ok tt, (w.0, key, text));
  del = λ key w. (ok tt, (w.0, "", ""));
  stringify = λ a. "entry";
  parse = λ text. some entry;
}

cache-CacheLaws : CacheLaws cache entry
cache-CacheLaws = record {
  get_after_setex = λ key secs text w e. ground (arith, eq_iff key key);
  parse_stringify = refl;
  stringify_nonempty = λ e. ground (arith, eq_iff "entry" "");
}

parties-StoreLaws : StoreLaws parties cache (λ w. w.0)
parties-StoreLaws = record {
  stores = parties-CollectionLaws;
  setex_keeps = λ key secs text w. refl;
  del_keeps = λ key w. refl;
}

abbrev empty_store : Store
empty_store = ([], "", "")

-- A client that is never answered.
abbrev down : ParticipantsClient Shelf
down = record {
  get_participant_by_id = λ id w. (throw external_error, w);
  get_participants_by_ids = λ ids w. (throw external_error, w);
}

outage_reads_as_unknown_example :
    let report = participant_error (str "123") (str "MSISDN") null (str "dfsp1") in
    let services = with_adapter_of running down in
    ((validate_requester services (str "123") (str "MSISDN") null (str "dfsp1") start).0
      ≡ ok (some (requester_not_found_error (report ErrorCode.source_participant_not_found))))
    × ((validate_destination services (str "123") (str "MSISDN") null (str "dfsp1") start).0
        ≡ ok (
            some
              (destination_not_found_error (report ErrorCode.destination_participant_not_found))))
outage_reads_as_unknown_example =
    outage_reads_as_unknown running down (str "123") (str "MSISDN") null (str "dfsp1") "dfsp1" start
      external_error refl refl
