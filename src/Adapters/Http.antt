-- ===== src/Adapters/Http.antt =====
-- packages/implementations-lib/src/oracles/adapters/remote/http_oracleprovider.ts, class
-- HttpOracleProvider: an adapter that asks an oracle over HTTP.
pub mod Laws
pub mod Wire
pub mod RoundTrip
pub mod Missing
use Prim.Native.String.{◌++◌}
use account_lookup_bc.Common.{
  ℕ, nat_beq, String, Nullable, shown, or_null, truthy, Bool, false, Option, none, some, List,
  Action, Result, external_error, base_error, unable_to_get_participant,
  unable_to_associate_participant, unable_to_disassociate_participant, unable_to_get_association,
  unable_to_init_remote_oracle_provider, ok, throw, pure, raise, rethrow, attempt, ◌>>=◌, ◌>>◌,
}
use account_lookup_bc.Domain.Entities.{
  Oracle, OracleType, Association, AssociationsSearchResults, SearchKeywords,
}
use account_lookup_bc.Domain.Ports.{OracleProviderAdapter}

-- A request of the HTTP client, with its URL and the `fspId` of its body.
pub data Request : Type 0 where
  get : String → Request
  post delete : String → (fsp_id : Nullable) → Request

-- What is read of a response: its status, and its data by the field `fspId` or as a list.
pub record Response : Type 0 where
  pub status : ℕ
  pub fsp_id : Nullable
  pub associations : List Association

-- `axios`: a client is its base URL; a call may reject.
abbrev pub HttpClient : Type 0 → Type 0
HttpClient W = (base_url : String) → Request → Action W Response

-- The field `httpClient`, which is unset until `init`, beside the world.
pub record HttpOracleProvider (W : Type 0) : Type 0 where
  pub http_client : Option String
  pub world : W

abbrev query_part : (prefix : String) → Nullable → String
query_part prefix value = elim (truthy value) [ none ↦ "" | some s ↦ prefix ++ s ]

-- The URL that three methods build.
unfoldable pub party_url : (party_type party_id party_sub_type currency : Nullable) → String
party_url party_type party_id party_sub_type currency =
    (("/participants/" ++ (shown party_type ++ ("/" ++ shown party_id)))
      ++ query_part "?partySubType=/" party_sub_type)
    ++ query_part "?currency=" currency

abbrev pub associations_url : String
associations_url = "/participants/associations"

-- what `init` checks and gives to `axios.create`
unfoldable pub init : {W : Type 0} → Oracle → Action (HttpOracleProvider W) Unit
init oracle s = elim (truthy oracle.endpoint) [
  | none ↦ (throw unable_to_init_remote_oracle_provider, s)
  | some base_url ↦ (ok tt, record s { http_client = some base_url })
]

-- The handlers of the promises: `then` and `catch` of each call.
abbrev pub on_health : Result Response → Result Bool
on_health (ok response) = ok (nat_beq response.status 200)
on_health (throw _) = ok false

abbrev pub on_found : Result Response → Result Nullable
on_found (ok response) = ok (or_null response.fsp_id)
on_found (throw _) = throw unable_to_get_participant

abbrev pub on_associated : Result Response → Result Unit
on_associated (ok _) = ok tt
on_associated (throw _) = throw unable_to_associate_participant

abbrev pub on_disassociated : Result Response → Result Unit
on_disassociated (ok _) = ok tt
on_disassociated (throw _) = throw unable_to_disassociate_participant

abbrev pub on_listed : Result Response → Result (List Association)
on_listed (ok response) = ok response.associations
on_listed (throw _) = throw unable_to_get_association

-- An action of the provider as one on the world, from a given client.
abbrev pub run_with : {W A : Type 0} → Option String → Action (HttpOracleProvider W) A → Action W A
run_with http_client m w =
    let (r, s) = m (record { http_client = http_client; world = w }) in (r, s.world)

module _ {W : Type 0} (send : HttpClient W) where
  -- `this.httpClient.…(…)`: with no client the access throws a TypeError. The handlers of the
  -- promise, `then`, get the outcome.
  unfoldable pub call :
      {A : Type 0} → Request → (Result Response → Result A) → Action (HttpOracleProvider W) A
  call request next s = elim s.http_client [
    | none ↦ (throw external_error, s)
    | some base_url ↦ let (r, w) = send base_url request s.world in (next r, record s { world = w })
  ]

  unfoldable pub health_check : Action (HttpOracleProvider W) Bool
  unfolding call
  health_check = call (get "/health") on_health

  unfoldable pub get_participant_fsp_id :
      (party_type party_id party_sub_type currency : Nullable)
      → Action (HttpOracleProvider W) Nullable
  unfolding call
  get_participant_fsp_id party_type party_id party_sub_type currency =
      call (get (party_url party_type party_id party_sub_type currency)) on_found

  unfoldable pub associate_participant :
      (fsp_id party_type party_id party_sub_type currency : Nullable)
      → Action (HttpOracleProvider W) Unit
  unfolding call
  associate_participant fsp_id party_type party_id party_sub_type currency =
      call (post (party_url party_type party_id party_sub_type currency) fsp_id) on_associated

  unfoldable pub disassociate_participant :
      (fsp_id party_type party_id party_sub_type currency : Nullable)
      → Action (HttpOracleProvider W) Unit
  unfolding call
  disassociate_participant fsp_id party_type party_id party_sub_type currency =
      call (delete (party_url party_type party_id party_sub_type currency) fsp_id) on_disassociated

  unfoldable pub get_all_associations : Action (HttpOracleProvider W) (List Association)
  unfolding call
  get_all_associations = call (get associations_url) on_listed

  -- The provider of an oracle, as those see it who call `init` first and no method if it throws.
  abbrev pub provider : Oracle → OracleProviderAdapter W
  provider oracle = record {
    oracle_id = oracle.id;
    oracle_type = OracleType.remote_http;
    init = run_with none (init oracle);
    destroy = pure tt;
    health_check = run_with (truthy oracle.endpoint) health_check;
    get_participant_fsp_id = λ party_type party_id party_sub_type currency.
        run_with (truthy oracle.endpoint)
          (get_participant_fsp_id party_type party_id party_sub_type currency);
    associate_participant = λ fsp_id party_type party_id party_sub_type currency.
        run_with (truthy oracle.endpoint)
          (associate_participant fsp_id party_type party_id party_sub_type currency);
    disassociate_participant = λ fsp_id party_type party_id party_sub_type currency.
        run_with (truthy oracle.endpoint)
          (disassociate_participant fsp_id party_type party_id party_sub_type currency);
    get_all_associations = run_with (truthy oracle.endpoint) get_all_associations;
    search_associations = λ _ _ _ _ _ _ _. throw base_error;
    get_search_keywords = throw base_error;
  }
