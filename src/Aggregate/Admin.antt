-- ===== src/Aggregate/Admin.antt =====
-- The regions "Initialization" and "Oracle Admin Routes" of AccountLookupAggregate.
pub mod Registry
pub mod Embedding
pub mod Covered
pub mod History
pub mod Start
pub mod Progress
pub mod Outcome
pub mod Registration
pub mod Removal
pub mod Reports
use account_lookup_bc.Common.{
  Number, ok, throw, Result, String, Nullable, null, str, truthy, Bool, Option, none, some, List,
  [], ◌∷◌, not, ◌==◌, if◌then◌else◌, select, Action, duplicate_oracle, oracle_not_found,
  unable_to_remove_oracle, unable_to_get_oracle_associations, pure, rethrow, ◌>>=◌, ◌>>◌,
}
use account_lookup_bc.Domain.Entities.{
  Oracle, AddOracleDto, Association, AssociationsSearchResults, SearchKeywords, is_builtin,
}
use account_lookup_bc.Domain.Ports.{Services, OracleProviderAdapter}
use account_lookup_bc.Aggregate.State.{
  Aggregate, lift, gets, of_result, raise_if, update_adapters, push_adapter, is_some,
}
use account_lookup_bc.Aggregate.Oracles.{adapter_of, require, get_oracle_adapter}

-- `oracle as Oracle`, where a builtin oracle has no endpoint
abbrev pub new_oracle : AddOracleDto → String → Oracle
new_oracle dto id = record {
  id = id;
  name = dto.name;
  oracle_type = dto.oracle_type;
  party_type = dto.party_type;
  currency = dto.currency;
  endpoint = if is_builtin dto.oracle_type then null else dto.endpoint;
}

-- `this._oracleProvidersAdapters.filter((o) => o.oracleId !== id)`
abbrev pub without :
    {W : Type 0} → String → List (OracleProviderAdapter W) → List (OracleProviderAdapter W)
without id adapters = select (λ adapter. not (adapter.oracle_id == id)) adapters

module _ {W : Type 0} (env : Services W) where
  create_all : List Oracle → Action (Aggregate W) Unit
  create_all [] = pure tt
  create_all (oracle ∷ oracles) = do
    adapter ← of_result (env.create oracle)
    lift adapter.init
    push_adapter adapter
    create_all oracles

  unfoldable pub init : Action (Aggregate W) Unit
  unfolding create_all
  init = do lift env.finder.init; oracles ← lift env.finder.get_all_oracles; create_all oracles

  destroy_all : List (OracleProviderAdapter W) → Action (Aggregate W) Unit
  destroy_all [] = pure tt
  destroy_all (adapter ∷ adapters) = do lift adapter.destroy; destroy_all adapters

  unfoldable pub destroy : Action (Aggregate W) Unit
  unfolding destroy_all
  destroy = do lift env.finder.destroy; adapters ← gets (λ s. s.adapters); destroy_all adapters

  -- The first two tests of `addOracle`: the id to use.
  unfoldable pub claim_id : Nullable → Action (Aggregate W) String
  claim_id id = elim (truthy id) [
    | some given ↦ do
      known ← lift (env.finder.get_oracle_by_id given)
      raise_if (is_some known) duplicate_oracle
      pure given
    | none ↦ lift env.random_uuid
  ]

  -- `addOracle` once the id is settled.
  unfoldable pub register : AddOracleDto → String → Action (Aggregate W) String
  register dto id = do
    named ← lift (env.finder.get_oracle_by_name dto.name)
    raise_if (is_some named) duplicate_oracle
    adapter ← of_result (env.create (new_oracle dto id))
    lift (env.finder.add_oracle (new_oracle dto id))
    lift adapter.init
    push_adapter adapter
    pure id

  unfoldable pub add_oracle : AddOracleDto → Action (Aggregate W) String
  unfolding claim_id register
  add_oracle dto = do id ← claim_id dto.id; register dto id

  unfoldable pub remove_oracle : String → Action (Aggregate W) Unit
  remove_oracle id = do
    found ← lift (env.finder.get_oracle_by_id id)
    oracle ← require oracle_not_found found
    rethrow (λ _. unable_to_remove_oracle) (lift (env.finder.remove_oracle id))
    update_adapters (without id)

  -- The loop that three of the admin methods share: each oracle's adapter is asked in turn, and
  -- its answer is assigned to the variable that is returned.
  unfoldable pub ask_each :
      {A : Type 0}
      → (OracleProviderAdapter W → Result (Action W A))
      → List Oracle
      → A
      → Action (Aggregate W) A
  ask_each ask [] answer = pure answer
  ask_each ask (oracle ∷ oracles) answer = do
    adapter ←
        rethrow (λ _. oracle_not_found)
          (get_oracle_adapter env (str oracle.party_type) oracle.currency)
    call ← of_result (ask adapter)
    next ← rethrow (λ _. unable_to_get_oracle_associations) (lift call)
    ask_each ask oracles next

  unfoldable pub get_built_in_oracle_associations : Action (Aggregate W) (List Association)
  get_built_in_oracle_associations = do
    oracles ← lift env.finder.get_all_oracles
    ask_each (λ adapter. ok adapter.get_all_associations)
        (select (λ (o : Oracle). is_builtin o.oracle_type) oracles) []

  unfoldable pub get_all_oracles : Action (Aggregate W) (List Oracle)
  get_all_oracles = lift env.finder.get_all_oracles

  unfoldable pub get_oracle_by_id : String → Action (Aggregate W) (Option Oracle)
  get_oracle_by_id id = lift (env.finder.get_oracle_by_id id)

  unfoldable pub health_check : String → Action (Aggregate W) Bool
  health_check id = do
    found ← gets (adapter_of id)
    adapter ← require oracle_not_found found
    lift adapter.health_check

  -- What a search answers, as the value of a variable that starts as an empty array.
  abbrev results_of :
      Result (Action W AssociationsSearchResults)
      → Result (Action W (Option AssociationsSearchResults))
  results_of (throw e) = throw e
  results_of (ok call) = ok (do found ← call; pure (some found))

  -- The result is `none` where the source returns its initial value, an empty array.
  unfoldable pub get_all_oracle_associations :
      (fsp_id party_id party_type party_sub_type currency : Nullable)
      → (page_index page_size : Option Number)
      → Action (Aggregate W) (Option AssociationsSearchResults)
  get_all_oracle_associations fsp_id party_id party_type party_sub_type currency page_index
        page_size =
      do
        oracles ← lift env.finder.get_all_oracles
        ask_each
            (λ adapter. results_of (
              adapter.search_associations fsp_id party_id party_type party_sub_type currency
                page_index page_size))
            oracles none

  unfoldable pub get_search_keywords : Action (Aggregate W) (List SearchKeywords)
  get_search_keywords = do
    oracles ← lift env.finder.get_all_oracles
    ask_each (λ adapter. adapter.get_search_keywords) oracles []
