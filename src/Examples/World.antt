-- ===== src/Examples/World.antt =====
-- A world to run the code in: a collection that is a list, the MongoDB finder over it, adapters
-- that know one FSP, and a participant service that knows everybody.
use account_lookup_bc.Common.{
  inl, inr, String, null, str, refl, true, none, some, List, [], ◌∷◌, ◌++◌, ◌==◌, arith, find,
  select, remove_first, Action, Result, ok, throw, external_error, Option-cases,
}
use account_lookup_bc.Domain.Entities.{Oracle, OracleType}
use account_lookup_bc.Domain.Messages.{
  Payload, Message, party_query_received, domain_event, no_payload,
}
use account_lookup_bc.Domain.Ports.{OracleProviderAdapter, Services}
use account_lookup_bc.Aggregate.State.{Aggregate}
use account_lookup_bc.Aggregate.Admin.Registry.{ServiceLaws}
use account_lookup_bc.Mongo.Collection.{Collection, CollectionLaws, count_one}
use account_lookup_bc.Mongo.Finder.{OracleQuery, Client, finder}
use account_lookup_bc.Mongo.Finder.Laws.{matches}
use account_lookup_bc.Mongo.Finder.Contract.{finder-FinderLaws}

abbrev pub Shelf : Type 0
Shelf = List Oracle

abbrev pub shelf : Collection Shelf Oracle OracleQuery
shelf = record {
  find_one = λ q w. (ok (find (matches q) w), w);
  find_all = λ q w. (ok (select (matches q) w), w);
  insert_one = λ o w. (ok tt, w ++ o ∷ []);
  delete_one = λ q w. (ok (count_one (find (matches q) w)), remove_first (matches q) w);
}

pub shelf-CollectionLaws : CollectionLaws shelf (λ w. w) matches
shelf-CollectionLaws = record {
  find_one_reads = λ q w found e. ground arith;
  find_one_keeps = λ q w. refl;
  find_all_reads = λ q w found e. ground arith;
  find_all_keeps = λ q w. refl;
  insert_one_adds = λ d w e. refl;
  insert_one_fails = λ d w x e. absurd (ground arith);
  delete_one_removes = λ q w n e. (refl, ground arith);
  delete_one_fails = λ q w x e. absurd (ground arith);
}

abbrev pub client : Client Shelf
client = record { connect = λ w. (ok tt, w); close = λ w. (ok tt, w) }

-- The adapter of an oracle, which starts as `started` says and names one FSP for every party.
abbrev pub desk : Result Unit → Oracle → OracleProviderAdapter Shelf
desk started o = record {
  oracle_id = o.id;
  oracle_type = o.oracle_type;
  init = λ w. (started, w);
  destroy = λ w. (ok tt, w);
  health_check = λ w. (ok true, w);
  get_participant_fsp_id = λ _ _ _ _ w. (ok (str "dfsp2"), w);
  associate_participant = λ _ _ _ _ _ w. (ok tt, w);
  disassociate_participant = λ _ _ _ _ _ w. (ok tt, w);
  get_all_associations = λ w. (ok [], w);
  search_associations = λ _ _ _ _ _ _ _. throw external_error;
  get_search_keywords = ok (λ w. (ok [], w));
}

-- The id "new", while no oracle has it.
abbrev pub new_id : Action Shelf String
new_id w = elim (find (λ (o : Oracle). o.id == "new") w) [
  | none ↦ (ok "new", w)
  | some _ ↦ (throw external_error, w)
]

abbrev pub services : Result Unit → Services Shelf
services started = record {
  finder = finder client shelf;
  create = λ o. ok (desk started o);
  get_participant_info =
      λ id w. (ok (some (record { id = id; approved = true; is_active = true })), w);
  random_uuid = new_id;
}

pub services-ServiceLaws : (started : Result Unit) → ServiceLaws (services started) (λ w. w)
services-ServiceLaws started = record {
  finds = finder-FinderLaws shelf (λ w. w) shelf-CollectionLaws client;
  created = λ o a e. ground arith;
  init_keeps = λ o a w e. ground arith;
  fresh = λ id w e. elim (Option-cases (find (λ (o : Oracle). o.id == "new") w)) [
    | inl unknown ↦ ground arith
    | inr (o, known) ↦ absurd (ground arith)
  ];
  uuid_keeps = λ w. elim (Option-cases (find (λ (o : Oracle). o.id == "new") w)) [
    | inl unknown ↦ ground arith
    | inr (o, known) ↦ ground arith
  ];
}

abbrev pub first_oracle : Oracle
first_oracle = record {
  id = "oracle1";
  name = "numbers";
  oracle_type = OracleType.builtin;
  party_type = "MSISDN";
  currency = str "EUR";
  endpoint = null;
}

abbrev pub running : Services Shelf
running = services (ok tt)

abbrev pub start : Aggregate Shelf
start = record { adapters = desk (ok tt) first_oracle ∷ []; world = first_oracle ∷ [] }

abbrev pub query : Payload
query = record no_payload {
  party_id = str "123";
  party_type = str "MSISDN";
  currency = str "EUR";
  requester_fsp_id = str "dfsp1";
  owner_fsp_id = str "dfsp2";
}

-- A rejection names both FSPs.
abbrev pub answered_query : Payload
answered_query = record query { destination_fsp_id = str "dfsp2" }

abbrev pub query_message : Message
query_message = record {
  msg_name = party_query_received;
  msg_type = domain_event;
  payload = some query;
  inbound = record { inbound_protocol_type = str "FSPIOP"; inbound_protocol_opaque_state = null };
}
