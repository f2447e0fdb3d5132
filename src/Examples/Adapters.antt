-- ===== src/Examples/Adapters.antt =====
-- The theorems about the adapters: the HTTP provider in front of a remote oracle, and the services
-- put together.
use account_lookup_bc.Common.{
  truthy, ◌⊎◌, String, Nullable, undefined, null, str, ◌≡◌, refl, inr, Bool, true, none, some, List,
  [], if◌then◌else◌, ◌==◌, arith, eq_iff, ok, throw, external_error, unable_to_get_participant,
}
use account_lookup_bc.Domain.Entities.{Oracle, OracleType}
use account_lookup_bc.Aggregate.Admin.Registry.{ServiceLaws}
use account_lookup_bc.Participants.{ParticipantsClient}
use account_lookup_bc.RemoteOracle.{File, RemoteOracle}
use account_lookup_bc.RemoteOracle.Routes
use account_lookup_bc.Adapters.Http.{
  HttpClient, get, post, delete, party_url, associate_participant, provider,
}
use account_lookup_bc.Adapters.Http.Wire.{Reaches, request_of, deliver}
use account_lookup_bc.Adapters.Http.Missing.{own_answer, provider_agrees}
use account_lookup_bc.Adapters.Http.RoundTrip.{lookup_follows_association}
use account_lookup_bc.Adapters.Factory.{Backends}
use account_lookup_bc.Adapters.Factory.Stack.{services, StackLaws, stack-ServiceLaws}
use account_lookup_bc.Examples.World.{
  Shelf, shelf, client, new_id, shelf-CollectionLaws, services-ServiceLaws,
}

abbrev remote : Oracle
remote = record {
  id = "oracle2";
  name = "remote numbers";
  oracle_type = OracleType.remote_http;
  party_type = "MSISDN";
  currency = null;
  endpoint = str "http://oracle";
}

-- A network on which nobody answers.
abbrev silence : HttpClient Shelf
silence base_url request w = (throw external_error, w)

-- Backends that hold no association.
abbrev backends : Backends Shelf
backends = record {
  client = client;
  ping = λ w. (ok tt, w);
  parties = record {
    find_one = λ q w. (ok none, w);
    find_all = λ q w. (ok [], w);
    insert_one = λ a w. (ok tt, w);
    delete_one = λ q w. (ok 0, w);
  };
  search = record {
    find_page = λ filter skip n w. (ok [], w);
    find_matching = λ filter w. (ok [], w);
    groups = λ w. ([], w);
  };
  cache = record {
    connect = λ w. (ok tt, w);
    get = λ key w. (ok null, w);
    setex = λ key secs text w. (ok tt, w);
    del = λ key w. (ok tt, w);
    stringify = λ a. "entry";
    parse = λ text. none;
  };
  cache_duration_secs = 5;
  send = silence;
}

abbrev participants : ParticipantsClient Shelf
participants = record {
  get_participant_by_id = λ id w. (ok none, w);
  get_participants_by_ids = λ ids w. (ok none, w);
}

backends-StackLaws : StackLaws shelf backends new_id (λ w. w)
backends-StackLaws = record {
  stores = shelf-CollectionLaws;
  connect_keeps = λ w. refl;
  cache_keeps = λ w. refl;
  fresh = (services-ServiceLaws (ok tt)).fresh;
  uuid_keeps = (services-ServiceLaws (ok tt)).uuid_keeps;
}

stack-ServiceLaws_example :
    ServiceLaws (services client shelf backends participants new_id) (λ w. w)
stack-ServiceLaws_example =
    stack-ServiceLaws client shelf backends participants new_id (λ w. w) backends-StackLaws

-- A file that takes every text, and a client that reaches the service for one party.
abbrev file : File String
file = record {
  exists = λ w. (ok true, w);
  read = λ w. (ok w, w);
  write = λ text w. (ok tt, text);
  decode = λ text. ok none;
  encode = λ _. "";
}

abbrev accepts : List Routes.Check → Routes.Request → Bool
accepts checks request = true

-- The currency of a URL of the party.
abbrev currency_of : String → Nullable
currency_of url =
    if url == party_url (str "MSISDN") (str "123") (str "PERSONAL") (str "EUR")
    then str "EUR"
    else str "USD"

-- A client that reaches the service for one party in two currencies.
abbrev wire : HttpClient (RemoteOracle String)
wire base_url (get url) s = deliver (
    Routes.get_participant_fsp_id file accepts
      (request_of "MSISDN" "123" (str "PERSONAL") (currency_of url) undefined) s)
wire base_url (post url fsp_id) s = deliver (
    Routes.associate_participant file accepts
      (request_of "MSISDN" "123" (str "PERSONAL") (currency_of url) fsp_id) s)
wire base_url (delete url fsp_id) s = (throw external_error, s)

wire-Reaches_eur :
    Reaches file accepts wire "http://oracle" "MSISDN" "123" (str "PERSONAL") (str "EUR")
unfolding party_url
wire-Reaches_eur = record {
  gets = λ s. refl;
  posts = λ fsp_id s. refl;
  passes_unchecked = λ request. refl;
}

wire-Reaches_usd :
    Reaches file accepts wire "http://oracle" "MSISDN" "123" (str "PERSONAL") (str "USD")
unfolding party_url
wire-Reaches_usd = record {
  gets = λ s. refl;
  posts = λ fsp_id s. refl;
  passes_unchecked = λ request. refl;
}

lookup_follows_association_example :
    let http = provider wire remote in
    let run =
      http.associate_participant
        (str "dfsp2")
        (str "MSISDN")
        (str "123")
        (str "PERSONAL")
        (str "EUR")
        (record { associations = []; world = "" }) in
    (http.get_participant_fsp_id (str "MSISDN") (str "123") (str "PERSONAL") (str "USD") run.1).0
    ≡ ok (str "dfsp2")
unfolding associate_participant Routes.associate_participant
    account_lookup_bc.RemoteOracle.associate_participant party_url
    account_lookup_bc.RemoteOracle.Table.lookup
lookup_follows_association_example =
    lookup_follows_association file accepts wire "http://oracle" "MSISDN" "123" "dfsp2"
      (str "PERSONAL") (str "EUR") (str "PERSONAL") (str "USD") wire-Reaches_eur wire-Reaches_usd
      remote (record { associations = []; world = "" }) refl
      (λ e. ground (arith, eq_iff "dfsp2" "")) (inr ("PERSONAL", "PERSONAL", refl, refl)) refl

-- The same client, at an oracle that knows nobody.
provider_agrees_example :
    let s : RemoteOracle String = record { associations = []; world = "" } in
    let own =
      own_answer file accepts wire "http://oracle" "MSISDN" "123"
        (str "PERSONAL")
        (str "EUR")
        wire-Reaches_eur
        s in
    let found =
      (provider wire remote).get_participant_fsp_id
        (str "MSISDN")
        (str "123")
        (str "PERSONAL")
        (str "EUR")
        s in
    (a : Nullable) × (own ≡ (ok a, s))
    × (((f : String) × (truthy a ≡ some f) × (found ≡ (ok (str f), s)))
        ⊎ ((truthy a ≡ none) × (found ≡ (throw unable_to_get_participant, s))))
provider_agrees_example =
    provider_agrees file accepts wire "http://oracle" "MSISDN" "123" (str "PERSONAL") (str "EUR")
      wire-Reaches_eur (record { associations = []; world = "" }) remote refl
