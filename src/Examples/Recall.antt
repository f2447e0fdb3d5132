-- ===== src/Examples/Recall.antt =====
-- An association and the lookup that follows it, over a cache of one entry.
use account_lookup_bc.Common.{
  String, null, str, ◌≡◌, refl, true, none, some, [], ◌∷◌, ◌==◌, if◌then◌else◌, arith, eq_iff,
  Action, ok, throw, external_error,
}
use account_lookup_bc.Domain.Entities.{Oracle, OracleType, Association}
use account_lookup_bc.Domain.Messages.{Payload, no_payload}
use account_lookup_bc.Domain.Ports.{Services}
use account_lookup_bc.Aggregate.State.{Aggregate}
use account_lookup_bc.Aggregate.Validate.{validate_requester}
use account_lookup_bc.Aggregate.Oracles.{get_oracle_adapter, get_account_lookup}
use account_lookup_bc.Aggregate.Associations.{handle_association_request}
use account_lookup_bc.Mongo.Provider.{Cache, associate_participant, get_key_with_prefix}
use account_lookup_bc.Mongo.Provider.Laws.{CacheLaws}
use account_lookup_bc.Adapters.Factory.{Backends, mongo_provider, create}
use account_lookup_bc.Adapters.Factory.Recall.{lookup_of, lookup_after_association}

-- The key and the text of the last entry.
abbrev Entry : Type 0
Entry = String × String

abbrev succeed : Action Entry Unit
succeed w = (ok tt, w)

abbrev entry : Association
entry = record {
  fsp_id = str "dfsp2";
  party_type = str "MSISDN";
  party_id = str "123";
  party_sub_type = null;
  currency = str "EUR";
}

abbrev cache : Cache Entry
cache = record {
  connect = succeed;
  get = λ key w. (ok (if w.0 == key then str w.1 else null), w);
  setex = λ key secs text w. (ok tt, (key, text));
  del = λ key w. (ok tt, ("", ""));
  stringify = λ a. "entry";
  parse = λ text. some entry;
}

cache-CacheLaws : CacheLaws cache entry
cache-CacheLaws = record {
  get_after_setex = λ key secs text w e. ground (arith, eq_iff key key);
  parse_stringify = refl;
  stringify_nonempty = λ e. ground (arith, eq_iff "entry" "");
}

abbrev backends : Backends Entry
backends = record {
  client = record { connect = succeed; close = succeed };
  ping = succeed;
  parties = record {
    find_one = λ q w. (ok none, w);
    find_all = λ q w. (ok [], w);
    insert_one = λ a w. (ok tt, w);
    delete_one = λ q w. (ok 0, w);
  };
  search = record {
    find_page = λ filter skip n w. (ok [], w);
    find_matching = λ filter w. (ok [], w);
    groups = λ w. ([], w);
  };
  cache = cache;
  cache_duration_secs = 5;
  send = λ base_url request w. (throw external_error, w);
}

abbrev numbers : Oracle
numbers = record {
  id = "oracle1";
  name = "numbers";
  oracle_type = OracleType.builtin;
  party_type = "MSISDN";
  currency = str "EUR";
  endpoint = null;
}

-- Services with one oracle and participants that are all in order.
abbrev env : Services Entry
env = record {
  finder = record {
    init = succeed;
    destroy = succeed;
    add_oracle = λ o. succeed;
    remove_oracle = λ id. succeed;
    get_all_oracles = λ w. (ok (numbers ∷ []), w);
    get_oracle_by_id = λ id w. (ok (some numbers), w);
    get_oracle_by_name = λ name w. (ok (some numbers), w);
    get_oracle = λ party_type currency w. (ok (some numbers), w);
  };
  create = create backends;
  get_participant_info =
      λ id w. (ok (some (record { id = id; approved = true; is_active = true })), w);
  random_uuid = λ w. (throw external_error, w);
}

abbrev ready : Aggregate Entry
ready = record { adapters = mongo_provider backends numbers ∷ []; world = ("", "") }

abbrev request : Payload
request = record no_payload {
  party_id = str "123";
  party_type = str "MSISDN";
  party_sub_type = null;
  currency = str "EUR";
  owner_fsp_id = str "dfsp2";
}

lookup_after_association_example :
    (get_account_lookup env (lookup_of request) (handle_association_request env request ready).1).0
    ≡ ok "dfsp2"
unfolding handle_association_request validate_requester get_oracle_adapter associate_participant
    get_key_with_prefix
lookup_after_association_example =
    lookup_after_association env request ready backends numbers "dfsp2"
      (record { oracle = numbers; named = refl; held = refl }) refl
      (λ e. ground (arith, eq_iff "dfsp2" "")) cache-CacheLaws (λ key w. refl) refl refl
