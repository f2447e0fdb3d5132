-- ===== src/Aggregate/Oracles.antt =====
-- The region "Oracles" of AccountLookupAggregate, and `getAccountLookUp`.
pub mod Laws
use account_lookup_bc.Common.{
  String, Nullable, truthy, Option, none, some, find, ◌==◌, Action, Error, participant_not_found,
  unable_to_get_participant_fsp_id, unable_to_get_oracle_from_oracle_finder, no_such_oracle_adapter,
  oracle_not_found, pure, raise, rethrow, ◌>>=◌,
}
use account_lookup_bc.Domain.Entities.{ParticipantLookup}
use account_lookup_bc.Domain.Ports.{Services, OracleProviderAdapter}
use account_lookup_bc.Aggregate.State.{Aggregate, lift, gets}

-- `this._oracleProvidersAdapters.find((adapter) => adapter.oracleId === id)`
abbrev pub adapter_of : {W : Type 0} → String → Aggregate W → Option (OracleProviderAdapter W)
adapter_of id s = find (λ adapter. adapter.oracle_id == id) s.adapters

-- `if (!value) { throw … }` on a reference
abbrev pub require : {S A : Type 0} → Error → Option A → Action S A
require e none = raise e
require e (some a) = pure a

-- what `getAccountLookUp` makes of an error
abbrev lookup_error : Error → Error
lookup_error participant_not_found = participant_not_found
lookup_error _ = unable_to_get_participant_fsp_id

module _ {W : Type 0} (env : Services W) where
  -- `_getOracleAdapter`
  unfoldable pub get_oracle_adapter :
      (party_type currency : Nullable) → Action (Aggregate W) (OracleProviderAdapter W)
  get_oracle_adapter party_type currency = do
    found ←
        rethrow (λ _. unable_to_get_oracle_from_oracle_finder)
          (lift (env.finder.get_oracle party_type currency))
    oracle ← require oracle_not_found found
    adapter ← gets (adapter_of oracle.id)
    require no_such_oracle_adapter adapter

  -- `_getParticipantIdFromOracle`
  unfoldable pub get_participant_id_from_oracle :
      (party_id party_type party_sub_type currency : Nullable) → Action (Aggregate W) String
  get_participant_id_from_oracle party_id party_type party_sub_type currency = do
    adapter ← get_oracle_adapter party_type currency
    fsp_id ←
        rethrow (λ _. unable_to_get_participant_fsp_id)
          (lift (adapter.get_participant_fsp_id party_type party_id party_sub_type currency))
    require participant_not_found (truthy fsp_id)

  -- `getAccountLookUp`
  unfoldable pub get_account_lookup : ParticipantLookup → Action (Aggregate W) String
  get_account_lookup l =
      rethrow lookup_error
        (get_participant_id_from_oracle l.party_id l.party_type l.party_sub_type l.currency)
