-- ===== src/Aggregate/Admin/Progress.antt =====
-- An initialisation succeeds where all that it calls does.
use account_lookup_bc.Common.{◌≡◌, ◌++◌, refl, List, [], ◌∷◌, All, arith, ok}
use account_lookup_bc.Domain.Entities.{Oracle}
use account_lookup_bc.Domain.Ports.{Services, OracleProviderAdapter}
use account_lookup_bc.Aggregate.State.{Aggregate}
use account_lookup_bc.Aggregate.Admin.{init, create_all}

module _ {W : Type 0} (env : Services W) where
  -- The factory makes an adapter for the oracle, and the adapter starts.
  pub record Starts (o : Oracle) : Type 0 where
    pub adapter : OracleProviderAdapter W
    pub created : env.create o ≡ ok adapter
    pub starts : (w : W) → (adapter.init w).0 ≡ ok tt

  -- The finder connects, lists its oracles, and each of them starts.
  pub record AllStart : Type 0 where
    pub connects : (w : W) → (env.finder.init w).0 ≡ ok tt
    pub lists :
        (w : W) → (os : List Oracle) × ((env.finder.get_all_oracles w).0 ≡ ok os) × All Starts os

  create_all_succeeds :
      (os : List Oracle) (s : Aggregate W) → All Starts os → (create_all env os s).0 ≡ ok tt
  unfolding create_all
  create_all_succeeds [] s h = refl
  create_all_succeeds (o ∷ os) s (first, rest) =
      let a = first.adapter in
      let t : Aggregate W = record {
        adapters = s.adapters ++ a ∷ [];
        world = (a.init s.world).1;
      } in
      ground (arith, first.created, first.starts s.world, create_all_succeeds os t rest)

  pub init_succeeds : AllStart → (s : Aggregate W) → (init env s).0 ≡ ok tt
  unfolding init
  init_succeeds h s =
      let w1 = (env.finder.init s.world).1 in
      let (os, listed, all) = h.lists w1 in
      let made =
        create_all_succeeds os (record s { world = (env.finder.get_all_oracles w1).1 }) all in
      ground (arith, h.connects s.world, listed, made)
