-- ===== src/Domain/Ports.antt =====
-- packages/domain-lib/src/interfaces/infrastructure.ts: what the aggregate asks of the oracle
-- finder, of the oracle adapters and their factory, and of the participant service. `W` is the
-- state that lies behind them all (databases, caches, remote services).
use account_lookup_bc.Common.{Number, String, Nullable, Option, Bool, List, Action, Result}
use account_lookup_bc.Domain.Entities.{
  Oracle, OracleType, Association, Participant, AssociationsSearchResults, SearchKeywords,
}

pub record OracleFinder (W : Type 0) : Type 0 where
  pub init : Action W Unit
  pub destroy : Action W Unit
  pub add_oracle : Oracle → Action W Unit
  pub remove_oracle : String → Action W Unit
  pub get_all_oracles : Action W (List Oracle)
  pub get_oracle_by_id : String → Action W (Option Oracle)
  pub get_oracle_by_name : String → Action W (Option Oracle)
  pub get_oracle : Nullable → Nullable → Action W (Option Oracle)

-- The arguments of the three methods on parties stand in the source's order: party type, party id,
-- party sub type, currency; the FSP id first where there is one.
pub record OracleProviderAdapter (W : Type 0) : Type 0 where
  pub oracle_id : String
  pub oracle_type : OracleType
  pub init : Action W Unit
  pub destroy : Action W Unit
  pub health_check : Action W Bool
  pub get_participant_fsp_id : Nullable → Nullable → Nullable → Nullable → Action W Nullable
  pub associate_participant : Nullable → Nullable → Nullable → Nullable → Nullable → Action W Unit
  pub disassociate_participant :
      Nullable → Nullable → Nullable → Nullable → Nullable → Action W Unit
  pub get_all_associations : Action W (List Association)
  -- These two calls may throw at once, and not only reject.
  pub search_associations :
      (fsp_id party_id party_type party_sub_type currency : Nullable)
      → (page_index page_size : Option Number) → Result (Action W AssociationsSearchResults)
  pub get_search_keywords : Result (Action W (List SearchKeywords))

-- The parts that the aggregate is constructed with. `create` is the factory's, `random_uuid` is
-- the platform's.
pub record Services (W : Type 0) : Type 0 where
  pub finder : OracleFinder W
  pub create : Oracle → Result (OracleProviderAdapter W)
  pub get_participant_info : String → Action W (Option Participant)
  pub random_uuid : Action W String
