-- ===== src/Service/Progress.antt =====
-- A start gets through where every call it makes does.
use account_lookup_bc.Common.{
  ◌≡◌, refl, List, [], Bool, true, false, Action, ok, if◌then◌else◌, ◌>>◌, inl, inr, arith,
}
use account_lookup_bc.Domain.Entities.{Oracle}
use account_lookup_bc.Domain.Ports.{Services}
use account_lookup_bc.Aggregate.Admin.{init}
use account_lookup_bc.Aggregate.Admin.Progress.{AllStart, init_succeeds}
use account_lookup_bc.Aggregate.Admin.Registry.{ServiceLaws, InSync, AreDistinct, oracle_ids}
use account_lookup_bc.EventHandler
use account_lookup_bc.EventHandler.{Broker}
use account_lookup_bc.Service.{Platform, Service, update, lift, when, prepare, serve, start}
use account_lookup_bc.Service.Startup.{QuietStart, start_brings_in_step}

-- A call that throws in no state.
abbrev Succeeds : {S : Type 0} → Action S Unit → Type 0
Succeeds {S} m = (s : S) → (m s).0 ≡ ok tt

then-Succeeds : {S : Type 0} (m k : Action S Unit) → Succeeds m → Succeeds k → Succeeds (m >> k)
then-Succeeds m k first rest s = ground (arith, first s, rest (m s).1)

when-Succeeds :
    {W : Type 0} (test : Bool) (m : Action (Service W) Unit) → Succeeds m → Succeeds (when test m)
when-Succeeds true m h s = h s
when-Succeeds false m h s = refl

lift-Succeeds : {W : Type 0} (m : Action W Unit) → Succeeds m → Succeeds (lift m)
lift-Succeeds m h s = h s.aggregate.world

-- The calls of the start that leave this process.
pub record AllAnswer {W : Type 0} (env : Services W) (broker : Broker W) (platform : Platform W)
    : Type 0 where
  pub starts : AllStart env
  pub producer : Succeeds broker.connect_producer
  pub consumer : Succeeds broker.connect_consumer
  pub rebalance : Succeeds broker.start_and_wait_for_rebalance
  pub logger : Succeeds platform.logger_init
  pub bootstrapped : Succeeds platform.bootstrap
  pub fetched : Succeeds platform.fetch
  pub authorization : Succeeds platform.authorization_init
  pub token_helper : Succeeds platform.token_helper_init
  pub listening : Succeeds platform.listen

module _ {W : Type 0} (env : Services W) (broker : Broker W) (platform : Platform W)
    (all : AllAnswer env broker platform) where
  handler-Succeeds : Succeeds (EventHandler.start env broker)
  unfolding EventHandler.start
  handler-Succeeds s =
      let a = (init env s).1 in
      let w1 = (broker.connect_producer a.world).1 in
      let w2 = (broker.connect_consumer w1).1 in
      ground (
        arith,
        init_succeeds env all.starts s,
        all.producer a.world,
        all.consumer w1,
        all.rebalance w2,
      )

  access-Succeeds :
      Succeeds (do lift platform.bootstrap; lift platform.fetch; lift platform.authorization_init)
  access-Succeeds =
      then-Succeeds (lift platform.bootstrap)
        (do lift platform.fetch; lift platform.authorization_init)
        (lift-Succeeds platform.bootstrap all.bootstrapped)
        (then-Succeeds (lift platform.fetch) (lift platform.authorization_init)
          (lift-Succeeds platform.fetch all.fetched)
          (lift-Succeeds platform.authorization_init all.authorization))

  prepare-Succeeds :
      (has_logger has_authorization : Bool)
      → Succeeds (prepare env broker platform has_logger has_authorization)
  unfolding prepare
  prepare-Succeeds has_logger has_authorization s =
      let needs_logger = if has_logger then false else true in
      let needs_access = if has_authorization then false else true in
      let access = (do
        lift platform.bootstrap
        lift platform.fetch
        lift platform.authorization_init) in
      let last = (do
        update (λ t. record t { token_helper = true })
        lift platform.token_helper_init) in
      then-Succeeds (when needs_logger (lift platform.logger_init))
        (do
          update (λ t. record t { message_producer = true; message_consumer = true })
          when needs_access access
          last)
        (when-Succeeds needs_logger (lift platform.logger_init)
          (lift-Succeeds platform.logger_init all.logger))
        (λ t.
          then-Succeeds (when needs_access access) last
            (when-Succeeds needs_access access access-Succeeds)
            (λ u. all.token_helper u.aggregate.world)
            (record t { message_producer = true; message_consumer = true }))
        (record s { startup_timer = true })

  serve-Succeeds : Succeeds (serve env broker platform)
  unfolding serve
  serve-Succeeds s =
      let fresh = record s {
        aggregate = record { adapters = []; world = s.aggregate.world };
        event_handler = true;
      } in
      let t = (EventHandler.start env broker fresh.aggregate).1 in
      ground (arith, handler-Succeeds fresh.aggregate, all.listening t.world)

  run-Succeeds :
      (has_logger has_authorization : Bool)
      → Succeeds (start env broker platform has_logger has_authorization)
  unfolding start
  run-Succeeds has_logger has_authorization =
      then-Succeeds (prepare env broker platform has_logger has_authorization)
        (serve env broker platform) (prepare-Succeeds has_logger has_authorization) serve-Succeeds

  -- Of services that keep ServiceLaws, over oracles whose ids differ and that the calls of a start
  -- leave alone: where the finder connects and lists its oracles, the factory makes an adapter for
  -- each of them and the adapter starts, and every call of the broker and of the platform succeeds,
  -- the service starts, from whatever it was, with its timer cleared, the oracles as they were and
  -- a registry in step.
  pub start_succeeds :
      (oracles : W → List Oracle)
      → ServiceLaws env oracles
      → QuietStart env broker platform oracles
      → (has_logger has_authorization : Bool) (s : Service W)
      → AreDistinct (oracle_ids (oracles s.aggregate.world))
      → let (r, t) = start env broker platform has_logger has_authorization s in
        (r ≡ ok tt)
        × (t.startup_timer ≡ false)
        × (oracles t.aggregate.world ≡ oracles s.aggregate.world)
        × InSync oracles t.aggregate
  start_succeeds oracles laws quiet has_logger has_authorization s distinct =
      elim (start_brings_in_step env broker platform oracles laws quiet has_logger has_authorization
        s distinct) [
          | inl started ↦ started
          | inr (e, thrown, _) ↦
              absurd (ground (arith, run-Succeeds has_logger has_authorization s, thrown))
        ]
