-- ===== src/Examples/Doubles.antt =====
-- The doubles as services of the aggregate.
use account_lookup_bc.Common.{◌≡◌, ok, refl, true, map, [], ◌∷◌}
use account_lookup_bc.Aggregate.Admin.{init}
use account_lookup_bc.Aggregate.Admin.Registry.{ServiceLaws}
use account_lookup_bc.Doubles.{
  doubles, first_bench, mocked_oracle_adapters, memory_adapter, create, remove_oracle,
}
use account_lookup_bc.Doubles.Contract.{doubles-ServiceLaws}
use account_lookup_bc.Examples.World.{new_id, services-ServiceLaws, first_oracle}

doubles-ServiceLaws_example : ServiceLaws (doubles new_id) (λ os. os)
doubles-ServiceLaws_example =
    doubles-ServiceLaws new_id (services-ServiceLaws (ok tt)).fresh
      (services-ServiceLaws (ok tt)).uuid_keeps

removes_another : (remove_oracle "unknown" (first_oracle ∷ [])).1 ≡ []
unfolding remove_oracle
removes_another = refl

-- The aggregate starts over the predefined oracles, with an adapter for each.
starts_predefined :
    let (r, s) = init (doubles new_id) (record { adapters = []; world = first_bench true }) in
    (r ≡ ok tt) × (s.adapters ≡ map memory_adapter mocked_oracle_adapters)
unfolding init create
starts_predefined = (refl, refl)
