-- ===== src/Adapters/Factory/Stack.antt =====
-- The services of the aggregate put together as packages/account-lookup-svc/src/service.ts does:
-- the MongoDB finder, the factory's adapters and the participant adapter.
use account_lookup_bc.Common.{
  String, ap, ◌≡◌, refl, none, find, ◌==◌, List, arith, Action, ok, inl, inr, ◌⊎◌,
}
use account_lookup_bc.Domain.Entities.{Oracle, OracleType, OracleType-cases}
use account_lookup_bc.Domain.Ports.{Services, OracleProviderAdapter}
use account_lookup_bc.Aggregate.Admin.Registry.{ServiceLaws}
use account_lookup_bc.Mongo.Collection.{Collection, CollectionLaws}
use account_lookup_bc.Mongo.Finder.{Client, OracleQuery, finder}
use account_lookup_bc.Mongo.Finder.Laws.{matches}
use account_lookup_bc.Mongo.Finder.Contract.{finder-FinderLaws}
use account_lookup_bc.Mongo.Provider
use account_lookup_bc.Participants.{ParticipantsClient, get_participant_info}
use account_lookup_bc.Adapters.Http
use account_lookup_bc.Adapters.Factory.{Backends, mongo_provider, create}

-- The services that `start` makes.
abbrev pub services :
    {W : Type 0}
    → Client W
    → Collection W Oracle OracleQuery
    → Backends W
    → ParticipantsClient W
    → (random_uuid : Action W String) → Services W
services client providers b participants random_uuid = record {
  finder = finder client providers;
  create = create b;
  get_participant_info = get_participant_info participants;
  random_uuid = random_uuid;
}

-- The collection of oracles behaves as documented, connecting to the database or to the cache does
-- not change it, and a random id is new.
pub record StackLaws {W : Type 0} (providers : Collection W Oracle OracleQuery) (b : Backends W)
    (random_uuid : Action W String) (oracles : W → List Oracle) : Type 0 where
  pub stores : CollectionLaws providers oracles matches
  pub connect_keeps : (w : W) → oracles (b.client.connect w).1 ≡ oracles w
  pub cache_keeps : (w : W) → oracles (b.cache.connect w).1 ≡ oracles w
  pub fresh :
      (id : String) (w : W) → (random_uuid w).0 ≡ ok id → find (λ o. o.id == id) (oracles w) ≡ none
  pub uuid_keeps : (w : W) → oracles (random_uuid w).1 ≡ oracles w

module _ {W : Type 0} (client : Client W) (providers : Collection W Oracle OracleQuery)
    (b : Backends W) (participants : ParticipantsClient W) (random_uuid : Action W String)
    (oracles : W → List Oracle) (laws : StackLaws providers b random_uuid oracles) where
  builtin_keeps : (w : W) → oracles (Provider.init b.client b.ping b.cache w).1 ≡ oracles w
  unfolding Provider.init
  builtin_keeps w = ground (arith, laws.connect_keeps w, laws.cache_keeps (b.client.connect w).1)

  remote_keeps : (o : Oracle) (w : W) → ((Http.provider b.send o).init w).1 ≡ w
  unfolding Http.init
  remote_keeps o w = ground arith

  created_builtin :
      (o : Oracle) (a : OracleProviderAdapter W)
      → o.oracle_type ≡ OracleType.builtin
      → create b o ≡ ok a
      → a ≡ mongo_provider b o
  unfolding create
  created_builtin o a is e = cc (rw is at e)

  created_remote :
      (o : Oracle) (a : OracleProviderAdapter W)
      → o.oracle_type ≡ OracleType.remote_http
      → create b o ≡ ok a
      → a ≡ Http.provider b.send o
  unfolding create
  created_remote o a is e = ground (arith, is)

  created :
      (o : Oracle) (a : OracleProviderAdapter W)
      → create b o ≡ ok a
      → (a ≡ mongo_provider b o) ⊎ (a ≡ Http.provider b.send o)
  unfolding create
  created o a e = elim (OracleType-cases o.oracle_type) [
    | inl is ↦ inl (created_builtin o a is e)
    | inr (inl is) ↦ inr (created_remote o a is e)
    | inr (inr (text, is)) ↦ absurd (ground (arith, is))
  ]

  created_id :
      (o : Oracle) (a : OracleProviderAdapter W)
      → (a ≡ mongo_provider b o) ⊎ (a ≡ Http.provider b.send o)
      → a.oracle_id ≡ o.id
  created_id o a (inl e) = rw e refl
  created_id o a (inr e) = rw e refl

  created_keeps :
      (o : Oracle) (a : OracleProviderAdapter W) (w : W)
      → (a ≡ mongo_provider b o) ⊎ (a ≡ Http.provider b.send o)
      → oracles (a.init w).1 ≡ oracles w
  created_keeps o a w (inl e) = rw e (builtin_keeps w)
  created_keeps o a w (inr e) = rw e (ap oracles (remote_keeps o w))

  -- Over a collection of oracles that behaves as documented and that connecting leaves alone, with
  -- random ids that are new: the finder, the adapters of both kinds and the participant adapter
  -- make up services of the kind that the aggregate relies on.
  pub stack-ServiceLaws : ServiceLaws (services client providers b participants random_uuid) oracles
  stack-ServiceLaws = record {
    finds = finder-FinderLaws providers oracles laws.stores client;
    created = λ o a e. created_id o a (created o a e);
    init_keeps = λ o a w e. created_keeps o a w (created o a e);
    fresh = laws.fresh;
    uuid_keeps = laws.uuid_keeps;
  }
