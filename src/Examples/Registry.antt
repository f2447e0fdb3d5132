-- ===== src/Examples/Registry.antt =====
-- The theorems about the registration of oracles, at a registry with one oracle.
use account_lookup_bc.Common.{
  remove_first, oracle_not_found, String, null, str, ◌≡◌, ◌⊎◌, refl, none, [], ◌∷◌, ◌++◌, ◌==◌,
  find, ok, throw, external_error, Result,
}
use account_lookup_bc.Domain.Entities.{OracleType, AddOracleDto}
use account_lookup_bc.Aggregate.State.{Aggregate}
use account_lookup_bc.Aggregate.Admin.{init, without, remove_oracle, new_oracle, add_oracle}
use account_lookup_bc.Aggregate.Admin.Registry.{InSync}
use account_lookup_bc.Aggregate.Admin.Registration.{add_oracle_registers, add_oracle_failure}
use account_lookup_bc.Aggregate.Admin.Start.{init-InSync}
use account_lookup_bc.Aggregate.Admin.Removal.{remove_oracle_removes, remove_oracle_failure}
use account_lookup_bc.Aggregate.Admin.Covered.{IsCovered}
use account_lookup_bc.Aggregate.Admin.History.{
  here, next, registration, removal, Reach-IsCovered, restart-InSync,
}
use account_lookup_bc.Examples.World.{
  Shelf, first_oracle, services, services-ServiceLaws, running, start,
}

abbrev candidate : AddOracleDto
candidate = record {
  id = null;
  name = "addresses";
  oracle_type = OracleType.builtin;
  party_type = "EMAIL";
  currency = str "USD";
  endpoint = null;
}

start-InSync : InSync (λ w. w) start
start-InSync = record { matched = refl; distinct = (tt, tt) }

add_oracle_registers_example :
    let s' = (add_oracle running candidate start).1 in
    (find (λ o. o.id == "new") start.world ≡ none)
    × (find (λ o. o.name == "addresses") start.world ≡ none)
    × (s'.world ≡ start.world ++ new_oracle candidate "new" ∷ [])
    × InSync (λ w. w) s'
unfolding add_oracle account_lookup_bc.Mongo.Finder.get_oracle_by_name
    account_lookup_bc.Mongo.Finder.add_oracle
add_oracle_registers_example =
    add_oracle_registers running (λ w. w) (services-ServiceLaws (ok tt)) candidate "new" start
      start-InSync refl

-- The same world, in which no adapter starts.
abbrev broken : Result Unit
broken = throw external_error

add_oracle_failure_example :
    let s' = (add_oracle (services broken) candidate start).1 in
    (s'.adapters ≡ start.adapters)
    × ((s'.world ≡ start.world)
        ⊎ ((id : String) × (s'.world ≡ start.world ++ new_oracle candidate id ∷ [])
            × ¬ InSync (λ w. w) s'))
unfolding add_oracle account_lookup_bc.Mongo.Finder.get_oracle_by_name
    account_lookup_bc.Mongo.Finder.add_oracle
add_oracle_failure_example =
    add_oracle_failure (services broken) (λ w. w) (services-ServiceLaws broken) candidate start
      external_error start-InSync refl

remove_oracle_removes_example :
    let s' = (remove_oracle running "oracle1" start).1 in
    (s'.adapters ≡ without "oracle1" start.adapters)
    × (s'.world ≡ remove_first (λ o. o.id == "oracle1") start.world)
    × InSync (λ w. w) s'
unfolding remove_oracle account_lookup_bc.Mongo.Finder.get_oracle_by_id
    account_lookup_bc.Mongo.Finder.remove_oracle
remove_oracle_removes_example =
    remove_oracle_removes running (λ w. w) (services-ServiceLaws (ok tt)) "oracle1" start
      start-InSync refl

remove_oracle_failure_example :
    let s' = (remove_oracle running "oracle2" start).1 in
    (s'.adapters ≡ start.adapters) × (s'.world ≡ start.world)
unfolding remove_oracle account_lookup_bc.Mongo.Finder.get_oracle_by_id
    account_lookup_bc.Mongo.Finder.remove_oracle
remove_oracle_failure_example =
    remove_oracle_failure running (λ w. w) (services-ServiceLaws (ok tt)) "oracle2" start
      oracle_not_found refl

abbrev stopped : Aggregate Shelf
stopped = record { adapters = []; world = first_oracle ∷ [] }

init-InSync_example :
    ((init running stopped).1.world ≡ first_oracle ∷ []) × InSync (λ w. w) (init running stopped).1
unfolding init account_lookup_bc.Mongo.Finder.init account_lookup_bc.Mongo.Finder.get_all_oracles
init-InSync_example =
    init-InSync running (λ w. w) (services-ServiceLaws (ok tt)) stopped refl (tt, tt) refl refl

-- An oracle whose adapter does not start, and its removal.
Reach-IsCovered_example :
    IsCovered
      (λ w. w)
      (remove_oracle (services broken) "oracle1" (add_oracle (services broken) candidate start).1).1
Reach-IsCovered_example =
    Reach-IsCovered (services broken) (λ w. w) (services-ServiceLaws broken) start-InSync
      (next (next here (registration candidate start)) (removal "oracle1" _))

restart-InSync_example :
    let t = (remove_oracle running "oracle1" start).1 in
    let fresh : Aggregate Shelf = record { adapters = []; world = t.world } in
    ((init running fresh).1.world ≡ t.world) × InSync (λ w. w) (init running fresh).1
unfolding init remove_oracle account_lookup_bc.Mongo.Finder.get_oracle_by_id
    account_lookup_bc.Mongo.Finder.remove_oracle account_lookup_bc.Mongo.Finder.init
    account_lookup_bc.Mongo.Finder.get_all_oracles
restart-InSync_example =
    restart-InSync running (λ w. w) (services-ServiceLaws (ok tt)) start
      (remove_oracle running "oracle1" start).1 start-InSync (next here (removal "oracle1" start))
      refl refl
