-- ===== src/Adapters/Factory.antt =====
-- packages/implementations-lib/src/oracles/oracleadapter_factory.ts, class OracleAdapterFactory,
-- and MongoOracleProviderRepo as the adapter that it makes.
pub mod Stack
pub mod Recall
use account_lookup_bc.Common.{ℕ, Result, Action, ok, throw, oracle_type_not_supported}
use account_lookup_bc.Domain.Entities.{Oracle, OracleType, Association}
use account_lookup_bc.Domain.Ports.{OracleProviderAdapter}
use account_lookup_bc.Mongo.Collection.{Collection}
use account_lookup_bc.Mongo.Finder.{Client}
use account_lookup_bc.Mongo.Provider
use account_lookup_bc.Mongo.Provider.{Cache, PartyQuery}
use account_lookup_bc.Mongo.Search
use account_lookup_bc.Mongo.Search.{SearchCollection}
use account_lookup_bc.Adapters.Http.{HttpClient}
use account_lookup_bc.Adapters.Http

-- What the adapters reach: one collection of parties for all builtin oracles, one cache, and HTTP.
pub record Backends (W : Type 0) : Type 0 where
  pub client : Client W
  pub ping : Action W Unit
  pub parties : Collection W Association PartyQuery
  pub search : SearchCollection W
  pub cache : Cache W
  pub cache_duration_secs : ℕ
  pub send : HttpClient W

module _ {W : Type 0} (b : Backends W) where
  abbrev pub mongo_provider : Oracle → OracleProviderAdapter W
  mongo_provider oracle = record {
    oracle_id = oracle.id;
    oracle_type = OracleType.builtin;
    init = Provider.init b.client b.ping b.cache;
    destroy = Provider.destroy b.client b.ping b.cache;
    health_check = Provider.health_check b.client b.ping b.cache;
    get_participant_fsp_id =
        Provider.get_participant_fsp_id b.parties b.cache b.cache_duration_secs;
    associate_participant = Provider.associate_participant b.parties b.cache b.cache_duration_secs;
    disassociate_participant =
        Provider.disassociate_participant b.parties b.cache b.cache_duration_secs;
    get_all_associations = Provider.get_all_associations b.parties b.cache b.cache_duration_secs;
    search_associations = λ fsp_id party_id party_type party_sub_type currency page_index page_size.
        ok (
          Search.search_associations b.search fsp_id party_id party_type party_sub_type currency
            page_index page_size);
    get_search_keywords = ok (Search.get_search_keywords b.search);
  }

  unfoldable pub create : Oracle → Result (OracleProviderAdapter W)
  create oracle = elim oracle.oracle_type [
    | OracleType.builtin ↦ ok (mongo_provider oracle)
    | OracleType.remote_http ↦ ok (Http.provider b.send oracle)
    | OracleType.unsupported _ ↦ throw oracle_type_not_supported
  ]
