-- ===== src/Aggregate/State.antt =====
-- The mutable field of AccountLookupAggregate (`_oracleProvidersAdapters`), beside the world behind
-- its services, and the calls that reach them.
use account_lookup_bc.Common.{
  Bool, List, [], ◌∷◌, ◌++◌, Option, none, some, true, false, Action, Result, Error, ok, throw,
}
use account_lookup_bc.Domain.Ports.{OracleProviderAdapter}

pub record Aggregate (W : Type 0) : Type 0 where
  pub adapters : List (OracleProviderAdapter W)
  pub world : W

module _ {W A : Type 0} where
  -- a call of a service
  abbrev pub lift : Action W A → Action (Aggregate W) A
  lift m s = let (r, w) = m s.world in (r, record s { world = w })

  abbrev pub gets : (Aggregate W → A) → Action (Aggregate W) A
  gets f s = (ok (f s), s)

  -- a call that may throw and has no effect
  abbrev pub of_result : Result A → Action (Aggregate W) A
  of_result r s = (r, s)

module _ {W : Type 0} where
  -- `if (test) { throw new … }`
  abbrev pub raise_if : Bool → Error → Action (Aggregate W) Unit
  raise_if true e s = (throw e, s)
  raise_if false e s = (ok tt, s)

  abbrev pub update_adapters :
      (List (OracleProviderAdapter W) → List (OracleProviderAdapter W)) → Action (Aggregate W) Unit
  update_adapters f s = (ok tt, record s { adapters = f s.adapters })

  -- `this._oracleProvidersAdapters.push(adapter)`
  abbrev pub push_adapter : OracleProviderAdapter W → Action (Aggregate W) Unit
  push_adapter a = update_adapters (λ adapters. adapters ++ a ∷ [])

-- A reference that is not null.
abbrev pub is_some {ℓ} : {A : Type ℓ} → Option A → Bool
is_some none = false
is_some (some _) = true
