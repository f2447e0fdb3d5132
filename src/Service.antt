-- ===== src/Service.antt =====
-- packages/account-lookup-svc/src/service.ts, class Service: starting the service and stopping it.
pub mod Startup
pub mod Progress
pub mod Configuration
use account_lookup_bc.Common.{
  Bool, true, false, List, [], Action, ok, throw, pure, if◌then◌else◌, ◌>>=◌, ◌>>◌,
}
use account_lookup_bc.Domain.Ports.{Services}
use account_lookup_bc.Aggregate.State.{Aggregate}
use account_lookup_bc.EventHandler
use account_lookup_bc.EventHandler.{Broker}

-- The calls of the platform's libraries that have an effect.
pub record Platform (W : Type 0) : Type 0 where
  pub logger_init : Action W Unit
  pub bootstrap : Action W Unit
  pub fetch : Action W Unit
  pub authorization_init : Action W Unit
  pub token_helper_init : Action W Unit
  pub listen : Action W Unit
  pub consumer_destroy : Action W Unit
  pub producer_destroy : Action W Unit
  pub token_helper_destroy : Action W Unit
  pub server_close : Action W Unit

-- The static fields that are read when the service stops, by whether they are set; the timer of the
-- start; and the aggregate with the world.
pub record Service (W : Type 0) : Type 0 where
  pub message_consumer : Bool
  pub message_producer : Bool
  pub token_helper : Bool
  pub event_handler : Bool
  pub express_server : Bool
  pub startup_timer : Bool
  pub aggregate : Aggregate W

module _ {W : Type 0} where
  abbrev pub update : (Service W → Service W) → Action (Service W) Unit
  update f s = (ok tt, f s)

  -- a call of the platform
  abbrev pub lift : Action W Unit → Action (Service W) Unit
  lift m s =
      let (r, w) = m s.aggregate.world in
      (r, record s { aggregate = record s.aggregate { world = w } })

  -- a call of the event handler
  abbrev pub on_aggregate : Action (Aggregate W) Unit → Action (Service W) Unit
  on_aggregate m s = let (r, a) = m s.aggregate in (r, record s { aggregate = a })

  -- `if (test) { … }`
  abbrev pub when : Bool → Action (Service W) Unit → Action (Service W) Unit
  when test m = if test then m else pure tt

module _ {W : Type 0} (env : Services W) (broker : Broker W) (platform : Platform W) where
  -- `start` up to the aggregate: `has_logger` and `has_authorization` tell whether a logger and an
  -- authorization client were passed in; the other parts are made without a call that waits.
  unfoldable pub prepare : (has_logger has_authorization : Bool) → Action (Service W) Unit
  prepare has_logger has_authorization = do
    update (λ s. record s { startup_timer = true })
    when (if has_logger then false else true) (lift platform.logger_init)
    update (λ s. record s { message_producer = true; message_consumer = true })
    when (if has_authorization then false else true)
        (do lift platform.bootstrap; lift platform.fetch; lift platform.authorization_init)
    update (λ s. record s { token_helper = true })
    lift platform.token_helper_init

  -- The rest of `start`, from the construction of the aggregate on.
  unfoldable pub serve : Action (Service W) Unit
  serve = do
    update (λ s. record s {
      aggregate = record { adapters = []; world = s.aggregate.world };
      event_handler = true;
    })
    on_aggregate (EventHandler.start env broker)
    update (λ s. record s { express_server = true })
    lift platform.listen
    update (λ s. record s { startup_timer = false })

  unfoldable pub start : (has_logger has_authorization : Bool) → Action (Service W) Unit
  start has_logger has_authorization = do prepare has_logger has_authorization; serve

  unfoldable pub stop : Action (Service W) Unit
  stop s =
      (do
        when s.event_handler (on_aggregate (EventHandler.stop env broker))
        when s.message_consumer (lift platform.consumer_destroy)
        when s.message_producer (lift platform.producer_destroy)
        when s.token_helper (lift platform.token_helper_destroy)
        when s.express_server (lift platform.server_close))
        s
