-- ===== src/Aggregate/Admin/Reports.antt =====
-- The reports that ask every oracle: what becomes of the answers.
use account_lookup_bc.Common.{
  ◌≡◌, refl, arith, inl, inr, List, [], ◌∷◌, ◌++◌, Action, Result, str, ◌>>=◌, Result-cases,
}
use account_lookup_bc.Domain.Entities.{Oracle}
use account_lookup_bc.Domain.Ports.{Services, OracleProviderAdapter}
use account_lookup_bc.Aggregate.State.{Aggregate}
use account_lookup_bc.Aggregate.Oracles.{get_oracle_adapter}
use account_lookup_bc.Aggregate.Admin.{ask_each}

module _ {W A : Type 0} (env : Services W)
    (ask : OracleProviderAdapter W → Result (Action W A)) where
  -- Asking oracles one after the other and a last one answers what the last one answers: whatever
  -- the result started as and whatever the oracles before answered is forgotten, and only a failure
  -- of theirs is reported.
  ask_each_forgets :
      (oracles : List Oracle) (oracle : Oracle) (start other : A) (s : Aggregate W)
      → ask_each env ask (oracles ++ oracle ∷ []) start s
        ≡ (ask_each env ask oracles start >>= λ _. ask_each env ask (oracle ∷ []) other) s
  unfolding ask_each
  ask_each_forgets [] oracle start other s = refl
  ask_each_forgets (first ∷ oracles) oracle start other s =
      elim (Result-cases (get_oracle_adapter env (str first.party_type) first.currency s).0) [
        | inr (x, thrown) ↦ ground arith
        | inl (adapter, ready) ↦
            let t = (get_oracle_adapter env (str first.party_type) first.currency s).1 in
            elim (Result-cases (ask adapter)) [
              | inr (x, thrown) ↦ ground arith
              | inl (call, called) ↦ elim (Result-cases (call t.world).0) [
                | inr (x, thrown) ↦ ground arith
                | inl (answer, given) ↦ ground (
                  arith,
                  ask_each_forgets oracles oracle answer other
                      (record t { world = (call t.world).1 }),
                )
              ]
            ]
      ]
