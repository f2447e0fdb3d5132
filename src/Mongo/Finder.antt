-- ===== src/Mongo/Finder.antt =====
-- packages/implementations-lib/src/oracles/mongo_oraclefinder.ts, class MongoOracleFinderRepo.
pub mod Laws
pub mod Contract
use Prim.Native.Nat.{compare, Ordering}
use account_lookup_bc.Common.{
  ℕ, String, Nullable, str, strict_eq, Bool, true, false, Option, none, some, List, not, first,
  select, Action, no_such_oracle, oracle_already_registered, unable_to_delete_oracle,
  unable_to_get_oracle, unable_to_register_oracle, unable_to_init_oracle_finder,
  unable_to_close_database_connection, pure, raise, rethrow, map, ◌>>=◌,
}
use account_lookup_bc.Domain.Entities.{Oracle, OracleType}
use account_lookup_bc.Domain.Ports.{OracleFinder}
use account_lookup_bc.Mongo.Collection.{Collection}

-- The conditions that the queries put on an oracle's document; `none` is a condition left out.
pub record OracleQuery : Type 0 where
  pub id : Option Nullable
  pub name : Option Nullable
  pub party_type : Option Nullable
  pub oracle_type : Option OracleType
  pub endpoint : Option Nullable

abbrev pub any_oracle : OracleQuery
any_oracle = record {
  id = none;
  name = none;
  party_type = none;
  oracle_type = none;
  endpoint = none;
}

abbrev pub by_id : String → OracleQuery
by_id id = record any_oracle { id = some (str id) }

abbrev pub by_name : String → OracleQuery
by_name name = record any_oracle { name = some (str name) }

abbrev pub by_party_type : Nullable → OracleQuery
by_party_type party_type = record any_oracle { party_type = some party_type }

-- the query of `addOracle`
abbrev pub same_oracle : Oracle → OracleQuery
same_oracle o = record {
  id = some (str o.id);
  name = some (str o.name);
  party_type = some (str o.party_type);
  oracle_type = some o.oracle_type;
  endpoint = some o.endpoint;
}

-- `mapToOracle`: the document's own `_id` is dropped
abbrev pub map_to_oracle : Oracle → Oracle
map_to_oracle o = record {
  id = o.id;
  name = o.name;
  party_type = o.party_type;
  endpoint = o.endpoint;
  oracle_type = o.oracle_type;
  currency = o.currency;
}

abbrev pub is_one : ℕ → Bool
is_one n = elim (compare n 1) [ Ordering.eq ↦ true | _ ↦ false ]

-- `a.shift() ?? b.shift() ?? null`
abbrev pub or_else : Option Oracle → Option Oracle → Option Oracle
or_else none o = o
or_else (some o) _ = some o

-- The driver's client: connecting and closing.
pub record Client (W : Type 0) : Type 0 where
  pub connect : Action W Unit
  pub close : Action W Unit

module _ {W : Type 0} (client : Client W) where
  unfoldable pub init : Action W Unit
  init = rethrow (λ _. unable_to_init_oracle_finder) client.connect

  unfoldable pub destroy : Action W Unit
  destroy = rethrow (λ _. unable_to_close_database_connection) client.close

module _ {W : Type 0} (providers : Collection W Oracle OracleQuery) where
  unfoldable pub add_oracle : Oracle → Action W Unit
  add_oracle oracle = do
    present ← rethrow (λ _. unable_to_get_oracle) (providers.find_one (same_oracle oracle))
    elim present [
      | some _ ↦ raise oracle_already_registered
      | none ↦ rethrow (λ _. unable_to_register_oracle) (providers.insert_one oracle)
    ]

  unfoldable pub remove_oracle : String → Action W Unit
  remove_oracle id = do
    deleted ← rethrow (λ _. unable_to_delete_oracle) (providers.delete_one (by_id id))
    elim (is_one deleted) [ true ↦ pure tt | false ↦ raise no_such_oracle ]

  unfoldable pub get_all_oracles : Action W (List Oracle)
  get_all_oracles = do
    oracles ← rethrow (λ _. unable_to_get_oracle) (providers.find_all any_oracle)
    pure (map map_to_oracle oracles)

  unfoldable pub get_oracle_by_id : String → Action W (Option Oracle)
  get_oracle_by_id id = do
    oracle ← rethrow (λ _. unable_to_get_oracle) (providers.find_one (by_id id))
    elim oracle [ none ↦ pure none | some o ↦ pure (some (map_to_oracle o)) ]

  unfoldable pub get_oracle_by_name : String → Action W (Option Oracle)
  get_oracle_by_name name = do
    oracle ← rethrow (λ _. unable_to_get_oracle) (providers.find_one (by_name name))
    elim oracle [ none ↦ pure none | some o ↦ pure (some (map_to_oracle o)) ]

  -- `getOracle`: the oracles of the currency come first, and all others after them.
  unfoldable pub get_oracle : Nullable → Nullable → Action W (Option Oracle)
  get_oracle party_type currency = do
    oracles ← rethrow (λ _. unable_to_get_oracle) (providers.find_all (by_party_type party_type))
    let with_currency = select (λ (o : Oracle). strict_eq o.currency currency) oracles
    let without_currency = select (λ (o : Oracle). not (strict_eq o.currency currency)) oracles
    elim (or_else (first with_currency) (first without_currency)) [
      | none ↦ raise no_such_oracle
      | some o ↦ pure (some (map_to_oracle o))
    ]

-- The class as the aggregate sees it.
abbrev pub finder : {W : Type 0} → Client W → Collection W Oracle OracleQuery → OracleFinder W
finder client providers = record {
  init = init client;
  destroy = destroy client;
  add_oracle = add_oracle providers;
  remove_oracle = remove_oracle providers;
  get_all_oracles = get_all_oracles providers;
  get_oracle_by_id = get_oracle_by_id providers;
  get_oracle_by_name = get_oracle_by_name providers;
  get_oracle = get_oracle providers;
}
