-- ===== src/Adapters/Http/Wire.antt =====
-- HttpOracleProvider in front of the remote oracle's service: the adapter and the service that it
-- asks, with the network and the two web libraries between them.
use account_lookup_bc.Common.{
  Nullable, String, undefined, str, truthy, ◌≡◌, Bool, true, Option, none, some, List, [], Result,
  ok, throw, external_error, if◌then◌else◌, leb,
}
use Prim.Native.String.{◌++◌}
use account_lookup_bc.RemoteOracle.{File, RemoteOracle}
use account_lookup_bc.RemoteOracle.Routes
use account_lookup_bc.RemoteOracle.Routes.{Check, Content, Reply, found}
use account_lookup_bc.Adapters.Http.{HttpClient, Response, party_url, get, post}

-- What the service reads of the query of a URL of `party_url`: the query begins at the first
-- question mark, so that a second one and what follows it belong to the value before it.
abbrev pub received : (party_sub_type currency : Option String) → Nullable × Nullable
received none none = (undefined, undefined)
received (some sub) none = (str ("/" ++ sub), undefined)
received none (some currency) = (undefined, str currency)
received (some sub) (some currency) = (str ("/" ++ (sub ++ ("?currency=" ++ currency))), undefined)

-- The request as the service reads it.
abbrev pub request_of :
    (party_type party_id : String) → (party_sub_type currency fsp_id : Nullable) → Routes.Request
request_of party_type party_id party_sub_type currency fsp_id =
    let (query_sub_type, query_currency) = received (truthy party_sub_type) (truthy currency) in
    record {
      party_type = party_type;
      party_id = party_id;
      query_sub_type = query_sub_type;
      query_currency = query_currency;
      body_fsp_id = fsp_id;
    }

-- What the client reads of an answer: `fspId`, if the body has one.
abbrev pub read_content : Content → Nullable
read_content (found fsp_id) = fsp_id
read_content _ = undefined

-- The client rejects an answer whose status is not below 300.
abbrev pub delivered : Reply → Result Response
delivered reply =
    if leb reply.status 299
    then ok
        (record { status = reply.status; fsp_id = read_content reply.content; associations = [] })
    else throw external_error

abbrev pub deliver : {S : Type 0} → Result Reply × S → Result Response × S
deliver (r, s) = (elim r [ ok reply ↦ delivered reply | throw e ↦ throw e ], s)

-- A client that reaches the service at `base_url`, for a party whose type, id, sub type and
-- currency stand in a URL as they are: the service's handlers get the request, and the client their
-- answers. The validators find no error where nothing is checked.
pub record Reaches {V : Type 0} (file : File V) (passes : List Check → Routes.Request → Bool)
    (send : HttpClient (RemoteOracle V)) (base_url party_type party_id : String)
    (party_sub_type currency : Nullable) : Type 0 where
  pub gets :
      (s : RemoteOracle V)
      → send base_url (get (party_url (str party_type) (str party_id) party_sub_type currency)) s
        ≡ deliver (
            Routes.get_participant_fsp_id file passes
              (request_of party_type party_id party_sub_type currency undefined)
              s)
  pub posts :
      (fsp_id : String) (s : RemoteOracle V)
      → send base_url
          (post (party_url (str party_type) (str party_id) party_sub_type currency) (str fsp_id))
          s
        ≡ deliver (
            Routes.associate_participant file passes
              (request_of party_type party_id party_sub_type currency (str fsp_id))
              s)
  pub passes_unchecked : (request : Routes.Request) → passes [] request ≡ true
