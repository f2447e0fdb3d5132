-- ===== src/RemoteOracle/Service.antt =====
-- packages/http-oracle-svc/src/service.ts, class Service: starting and stopping the remote oracle.
use account_lookup_bc.Common.{
  Bool, true, Option, none, some, [], if◌then◌else◌, Action, ok, throw, external_error, pure, raise,
  ◌>>=◌, ◌>>◌,
}
use account_lookup_bc.Domain.Entities.{Association}
use account_lookup_bc.RemoteOracle.Table.{Dict}
use account_lookup_bc.RemoteOracle.{File, init}

-- The express server: `listen` and `close`.
pub record Server (W : Type 0) : Type 0 where
  pub listen : Action W Unit
  pub close : Action W Unit

-- The static fields: whether the server is set, and the map of the oracle, if that is set.
pub record Service (W : Type 0) : Type 0 where
  pub remote_oracle : Option (Dict Association)
  pub express_server : Bool
  pub world : W

module _ {W : Type 0} where
  abbrev lift : {A : Type 0} → Action W A → Action (Service W) A
  lift m s = let (r, w) = m s.world in (r, record s { world = w })

  abbrev gets : {A : Type 0} → (Service W → A) → Action (Service W) A
  gets f s = (ok (f s), s)

  abbrev update : (Service W → Service W) → Action (Service W) Unit
  update f s = (ok tt, f s)

module _ {W : Type 0} (file : File W) (server : Server W) where
  -- `new RemoteOracle(…)` and its `init`
  unfoldable pub open_oracle : Action W (Dict Association)
  open_oracle w =
      let (r, o) = init file (record { associations = []; world = w }) in
      elim r [ throw e ↦ (throw e, o.world) | ok _ ↦ (ok o.associations, o.world) ]

  -- `passed` is the oracle that the caller brings, if any.
  unfoldable pub start : (passed : Option (Dict Association)) → Action (Service W) Unit
  unfolding open_oracle
  start passed = do
    oracle ← elim passed [ some d ↦ pure d | none ↦ lift open_oracle ]
    update (λ s. record s { remote_oracle = some oracle; express_server = true })
    lift server.listen

  -- A field that is not set makes the access throw a TypeError; the oracle's `destroy` does nothing.
  unfoldable pub stop : Action (Service W) Unit
  stop = do
    listening ← gets (λ s. s.express_server)
    if listening then lift server.close else raise external_error
    oracle ← gets (λ s. s.remote_oracle)
    elim oracle [ none ↦ raise external_error | some _ ↦ pure tt ]
