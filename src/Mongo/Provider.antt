-- ===== src/Mongo/Provider.antt =====
-- packages/implementations-lib/src/oracles/adapters/builtin/mongo_oracleprovider.ts, class
-- MongoOracleProviderRepo: the methods on single associations, with the cache.
pub mod Laws
pub mod Storage
pub mod Entries
pub mod Coherence
pub mod History
pub mod Stale
use Prim.Native.String.{◌++◌}
use account_lookup_bc.Common.{
  ℕ, String, Nullable, undefined, null, str, or_null, shown, truthy, Bool, true, Option, none, some,
  List, map, Action, participant_association_already_exists, unable_to_get_participant,
  unable_to_associate_participant, unable_to_disassociate_participant, unable_to_get_association,
  unable_to_init_oracle_provider, unable_to_close_database_connection, pure, raise, rethrow,
  attempt, ◌>>=◌, ◌>>◌,
}
use account_lookup_bc.Domain.Entities.{Association}
use account_lookup_bc.Mongo.Collection.{Collection}
use account_lookup_bc.Mongo.Finder.{Client}

-- What the class asks of Redis, of `JSON` for the values that it stores there, and of the ping.
pub record Cache (W : Type 0) : Type 0 where
  pub connect : Action W Unit
  pub get : String → Action W Nullable
  pub setex : String → ℕ → String → Action W Unit
  pub del : String → Action W Unit
  pub stringify : Association → String
  pub parse : String → Option Association

-- The conditions of a query on associations; `none` is a condition left out.
pub record PartyQuery : Type 0 where
  pub fsp_id : Option Nullable
  pub party_type : Option Nullable
  pub party_id : Option Nullable
  pub party_sub_type : Option Nullable
  pub currency : Option Nullable

abbrev pub any_party : PartyQuery
any_party = record {
  fsp_id = none;
  party_type = none;
  party_id = none;
  party_sub_type = none;
  currency = none;
}

-- `if (!value) { delete query.field; }`
abbrev pub if_given : Nullable → Option Nullable
if_given value = elim (truthy value) [ none ↦ none | some _ ↦ some value ]

-- the query of `getParticipantFspId`
abbrev pub party_query : (party_type party_id party_sub_type currency : Nullable) → PartyQuery
party_query party_type party_id party_sub_type currency = record {
  fsp_id = none;
  party_type = some party_type;
  party_id = some party_id;
  party_sub_type = if_given party_sub_type;
  currency = if_given currency;
}

-- `_buildLookupQuery`
abbrev pub lookup_query :
    (party_id fsp_id party_type party_sub_type currency : Nullable) → PartyQuery
lookup_query party_id fsp_id party_type party_sub_type currency = record {
  fsp_id = some fsp_id;
  party_type = some party_type;
  party_id = some party_id;
  party_sub_type = if_given party_sub_type;
  currency = if_given currency;
}

-- A query object that is stored as a document: what was deleted from it is missing.
abbrev pub field_of : Option Nullable → Nullable
field_of none = undefined
field_of (some value) = value

abbrev pub document_of : PartyQuery → Association
document_of q = record {
  fsp_id = field_of q.fsp_id;
  party_type = field_of q.party_type;
  party_id = field_of q.party_id;
  party_sub_type = field_of q.party_sub_type;
  currency = field_of q.currency;
}

abbrev pub association :
    (fsp_id party_type party_id party_sub_type currency : Nullable) → Association
association fsp_id party_type party_id party_sub_type currency = record {
  fsp_id = fsp_id;
  party_type = party_type;
  party_id = party_id;
  party_sub_type = party_sub_type;
  currency = currency;
}

-- `_getKeyWithPrefix`
unfoldable pub get_key_with_prefix :
    (party_type party_id party_sub_type currency : Nullable) → String
get_key_with_prefix party_type party_id party_sub_type currency =
    "mongoOracleProviderRepo_"
    ++ (shown party_type
        ++ ("_" ++ (shown party_id ++ ("_" ++ (shown party_sub_type ++ ("_" ++ shown currency))))))

abbrev pub key_of : Association → String
key_of a = get_key_with_prefix a.party_type a.party_id a.party_sub_type a.currency

-- The entries of `getAllAssociations`: the party sub type is not copied.
abbrev pub listed : Association → Association
listed a = record {
  fsp_id = or_null a.fsp_id;
  party_type = or_null a.party_type;
  party_id = or_null a.party_id;
  party_sub_type = undefined;
  currency = or_null a.currency;
}

module _ {W : Type 0} (client : Client W) (ping : Action W Unit) (cache : Cache W) where
  unfoldable pub init : Action W Unit
  init = do rethrow (λ _. unable_to_init_oracle_provider) client.connect; cache.connect

  unfoldable pub destroy : Action W Unit
  destroy = rethrow (λ _. unable_to_close_database_connection) client.close

  -- The `catch` of the ping returns a value that nothing reads.
  unfoldable pub health_check : Action W Bool
  health_check = do outcome ← attempt ping; pure true

module _ {W : Type 0} (parties : Collection W Association PartyQuery) (cache : Cache W)
    (cache_duration_secs : ℕ) where
  -- `_getFromCache`
  unfoldable pub get_from_cache :
      (party_type party_id party_sub_type currency : Nullable) → Action W (Option Association)
  get_from_cache party_type party_id party_sub_type currency = do
    text ← cache.get (get_key_with_prefix party_type party_id party_sub_type currency)
    elim (truthy text) [ none ↦ pure none | some s ↦ pure (cache.parse s) ]

  -- `_setToCache`
  unfoldable pub set_to_cache : Association → Action W Unit
  set_to_cache a = cache.setex (key_of a) cache_duration_secs (cache.stringify a)

  -- `_delFromCache`
  unfoldable pub del_from_cache : Association → Action W Unit
  del_from_cache a = cache.del (key_of a)

  -- `getParticipantFspId` where the cache has no entry
  unfoldable pub fetch_fsp_id :
      (party_type party_id party_sub_type currency : Nullable) → Action W Nullable
  unfolding set_to_cache
  fetch_fsp_id party_type party_id party_sub_type currency = do
    found ←
        rethrow (λ _. unable_to_get_participant)
          (parties.find_one (party_query party_type party_id party_sub_type currency))
    elim found [
      | none ↦ pure null
      | some a ↦ do
        set_to_cache (association a.fsp_id party_type party_id party_sub_type currency)
        pure a.fsp_id
    ]

  unfoldable pub get_participant_fsp_id :
      (party_type party_id party_sub_type currency : Nullable) → Action W Nullable
  unfolding get_from_cache fetch_fsp_id
  get_participant_fsp_id party_type party_id party_sub_type currency = do
    cached ← get_from_cache party_type party_id party_sub_type currency
    elim cached [
      | some a ↦ pure a.fsp_id
      | none ↦ fetch_fsp_id party_type party_id party_sub_type currency
    ]

  unfoldable pub associate_participant :
      (fsp_id party_type party_id party_sub_type currency : Nullable) → Action W Unit
  unfolding set_to_cache
  associate_participant fsp_id party_type party_id party_sub_type currency = do
    let query = lookup_query party_id fsp_id party_type party_sub_type currency
    found ← parties.find_one query
    elim found [
      | some _ ↦ raise participant_association_already_exists
      | none ↦ do
        rethrow (λ _. unable_to_associate_participant) (parties.insert_one (document_of query))
        set_to_cache (association fsp_id party_type party_id party_sub_type currency)
    ]

  unfoldable pub disassociate_participant :
      (fsp_id party_type party_id party_sub_type currency : Nullable) → Action W Unit
  unfolding del_from_cache
  disassociate_participant fsp_id party_type party_id party_sub_type currency = do
    rethrow (λ _. unable_to_disassociate_participant)
        (parties.delete_one (lookup_query party_id fsp_id party_type party_sub_type currency))
    del_from_cache (association fsp_id party_type party_id party_sub_type currency)

  unfoldable pub get_all_associations : Action W (List Association)
  get_all_associations = do
    found ← rethrow (λ _. unable_to_get_association) (parties.find_all any_party)
    pure (map listed found)
