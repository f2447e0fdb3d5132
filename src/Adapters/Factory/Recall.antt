-- ===== src/Adapters/Factory/Recall.antt =====
-- From an association to a lookup: through the aggregate, an oracle in MongoDB and its cache.
use account_lookup_bc.Common.{
  String, str, ◌≡◌, ◌≢◌, refl, some, arith, ok, Result, truthy-eq-some_iff,
}
use account_lookup_bc.Domain.Entities.{Oracle, ParticipantLookup}
use account_lookup_bc.Domain.Messages.{Payload}
use account_lookup_bc.Domain.Ports.{Services, OracleProviderAdapter}
use account_lookup_bc.Aggregate.State.{Aggregate}
use account_lookup_bc.Aggregate.Validate.Laws.{asked, Accepts}
use account_lookup_bc.Aggregate.Validate.Accept.{requester_passes}
use account_lookup_bc.Aggregate.Oracles.{get_account_lookup}
use account_lookup_bc.Aggregate.Oracles.Laws.{
  Serves, after_finder, get_oracle_adapter_of_Serves, get_account_lookup_outcomes,
}
use account_lookup_bc.Aggregate.Associations.{
  association_created, with_adapter, handle_association_request,
}
use account_lookup_bc.Aggregate.Associations.Laws.{handle_association_request-creates_iff}
use account_lookup_bc.Mongo.Provider
use account_lookup_bc.Mongo.Provider.{
  association, get_from_cache, set_to_cache, get_key_with_prefix,
}
use account_lookup_bc.Mongo.Provider.Laws.{CacheLaws, associated_run, cached_after_set}
use account_lookup_bc.Adapters.Factory.{Backends, mongo_provider}

-- The lookup of the party that a message names.
abbrev pub lookup_of : Payload → ParticipantLookup
lookup_of p = record {
  party_id = p.party_id;
  party_type = p.party_type;
  party_sub_type = p.party_sub_type;
  currency = p.currency;
}

module _ {W : Type 0} (env : Services W) (p : Payload) (s : Aggregate W) where
  abbrev finder_asked : Aggregate W
  finder_asked = after_finder env p.party_type p.currency (asked env p.owner_fsp_id s)

  abbrev associated : OracleProviderAdapter W → Result Unit × W
  associated a =
      a.associate_participant p.owner_fsp_id p.party_type p.party_id p.party_sub_type p.currency
        finder_asked.world

  created_run :
      (a : OracleProviderAdapter W)
      → Accepts env p.owner_fsp_id s
      → Serves env p.party_type p.currency (asked env p.owner_fsp_id s) a
      → (associated a).0 ≡ ok tt
      → (handle_association_request env p s).1 ≡ record finder_asked { world = (associated a).1 }
  unfolding handle_association_request with_adapter
  created_run a accepted served done =
      let check =
        requester_passes env p.party_id p.party_type p.party_sub_type p.owner_fsp_id s accepted in
      let found =
        get_oracle_adapter_of_Serves env p.party_type p.currency (asked env p.owner_fsp_id s) a
          served in
      ground (arith, check, found, done)

  module _ (b : Backends W) (o : Oracle)
      (served : Serves env p.party_type p.currency
        (asked env p.owner_fsp_id s)
        (mongo_provider b o)) where
    stored_by :
        (handle_association_request env p s).0 ≡ ok (association_created p)
        → Accepts env p.owner_fsp_id s × ((associated (mongo_provider b o)).0 ≡ ok tt)
    stored_by created =
        let (accepted, h) = (handle_association_request-creates_iff env p s).0 created in
        let one =
          get_oracle_adapter_of_Serves env p.party_type p.currency (asked env p.owner_fsp_id s)
            (mongo_provider b o) served in
        let other =
          get_oracle_adapter_of_Serves env p.party_type p.currency (asked env p.owner_fsp_id s)
            h.adapter h.serves in
        let same : h.adapter ≡ mongo_provider b o = cc in (accepted, rw same at h.done)

    recalled :
        (fsp_id : String)
        → p.owner_fsp_id ≡ str fsp_id
        → CacheLaws b.cache
            (association p.owner_fsp_id p.party_type p.party_id p.party_sub_type p.currency)
        → ((key : String) (w : W)
            → (b.cache.get key (env.finder.get_oracle p.party_type p.currency w).1).0
              ≡ (b.cache.get key w).0)
        → (associated (mongo_provider b o)).0 ≡ ok tt
        → let w = (associated (mongo_provider b o)).1 in
          (Provider.get_participant_fsp_id b.parties b.cache b.cache_duration_secs p.party_type
            p.party_id p.party_sub_type p.currency
            (env.finder.get_oracle p.party_type p.currency w).1).0
          ≡ ok (str fsp_id)
    unfolding Provider.get_participant_fsp_id get_from_cache
    recalled fsp_id owner laws steady done =
        let (v, set, at) =
          associated_run b.parties b.cache b.cache_duration_secs p.owner_fsp_id p.party_type
            p.party_id p.party_sub_type p.currency laws finder_asked.world done in
        let hit =
          cached_after_set b.parties b.cache b.cache_duration_secs p.owner_fsp_id p.party_type
            p.party_id p.party_sub_type p.currency laws finder_asked.world v set in
        let w = (associated (mongo_provider b o)).1 in
        let key = get_key_with_prefix p.party_type p.party_id p.party_sub_type p.currency in
        ground (arith, hit, at, owner, steady key w)

  -- A party is associated with an FSP, and its oracle's adapter is the MongoDB provider, whose cache
  -- gives back what was just stored in it and is not touched when the finder is asked. If the
  -- finder names the same oracle again, a lookup of the same party, sub type and currency that
  -- follows the event "association created" answers with that FSP.
  pub lookup_after_association :
      (b : Backends W) (o : Oracle) (fsp_id : String)
      (served : Serves env p.party_type p.currency
        (asked env p.owner_fsp_id s)
        (mongo_provider b o))
      → p.owner_fsp_id ≡ str fsp_id
      → fsp_id ≢ ""
      → CacheLaws b.cache
          (association p.owner_fsp_id p.party_type p.party_id p.party_sub_type p.currency)
      → ((key : String) (w : W)
          → (b.cache.get key (env.finder.get_oracle p.party_type p.currency w).1).0
            ≡ (b.cache.get key w).0)
      → let (r, t) = handle_association_request env p s in
        r ≡ ok (association_created p)
        → (env.finder.get_oracle p.party_type p.currency t.world).0 ≡ ok (some served.oracle)
        → (get_account_lookup env (lookup_of p) t).0 ≡ ok fsp_id
  lookup_after_association b o fsp_id served owner named laws steady created again =
      let (accepted, done) = stored_by b o served created in
      let run = created_run (mongo_provider b o) accepted served done in
      let given = recalled b o served fsp_id owner laws steady done in
      let text = (truthy-eq-some_iff (str fsp_id) fsp_id).1 (refl, named) in
      rw run (
        ((get_account_lookup_outcomes env (lookup_of p)
              (record finder_asked { world = (associated (mongo_provider b o)).1 })).0
            fsp_id).1
          (
            str fsp_id,
            record {
              adapter = mongo_provider b o;
              serves = record {
                oracle = served.oracle;
                named = rw run at again;
                held = served.held;
              };
              given = given;
            },
            text,
          ))
