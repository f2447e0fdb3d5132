-- ===== src/Examples/Startup.antt =====
-- The start of the service, in the small world.
use account_lookup_bc.Common.{List, All, map, select, [], ◌∷◌, ◌≡◌, refl, false, Action, ok}
use account_lookup_bc.Domain.Entities.{Oracle}
use account_lookup_bc.Aggregate.Admin.Progress.{Starts}
use account_lookup_bc.Aggregate.Admin.Registry.{InSync}
use account_lookup_bc.EventHandler.{Broker}
use account_lookup_bc.Mongo.Finder.{any_oracle, map_to_oracle}
use account_lookup_bc.Mongo.Finder.Laws.{matches}
use account_lookup_bc.Service.{Platform, Service, start}
use account_lookup_bc.Service.Startup.{QuietStart}
use account_lookup_bc.Service.Progress.{AllAnswer, start_succeeds}
use account_lookup_bc.Examples.World.{Shelf, desk, running, first_oracle, services-ServiceLaws}

abbrev succeed : Action Shelf Unit
succeed w = (ok tt, w)

abbrev broker : Broker Shelf
broker = record {
  connect_producer = succeed;
  connect_consumer = succeed;
  start_and_wait_for_rebalance = succeed;
  stop_consumer = succeed;
  send = λ outputs. succeed;
}

abbrev platform : Platform Shelf
platform = record {
  logger_init = succeed;
  bootstrap = succeed;
  fetch = succeed;
  authorization_init = succeed;
  token_helper_init = succeed;
  listen = succeed;
  consumer_destroy = succeed;
  producer_destroy = succeed;
  token_helper_destroy = succeed;
  server_close = succeed;
}

platform-QuietStart : QuietStart running broker platform (λ w. w)
unfolding account_lookup_bc.Mongo.Finder.init
platform-QuietStart = record {
  finder_keeps = λ w. refl;
  producer_keeps = λ w. refl;
  consumer_keeps = λ w. refl;
  rebalance_keeps = λ w. refl;
  logger_keeps = λ w. refl;
  bootstrap_keeps = λ w. refl;
  fetch_keeps = λ w. refl;
  authorization_keeps = λ w. refl;
  token_helper_keeps = λ w. refl;
  listen_keeps = λ w. refl;
}

abbrev stopped : Service Shelf
stopped = record {
  message_consumer = false;
  message_producer = false;
  token_helper = false;
  event_handler = false;
  express_server = false;
  startup_timer = false;
  aggregate = record { adapters = []; world = first_oracle ∷ [] };
}

desks_start : (os : List Oracle) → All (Starts running) os
desks_start [] = tt
desks_start (o ∷ os) =
    (record { adapter = desk (ok tt) o; created = refl; starts = λ w. refl }, desks_start os)

running-AllAnswer : AllAnswer running broker platform
unfolding account_lookup_bc.Mongo.Finder.init account_lookup_bc.Mongo.Finder.get_all_oracles
running-AllAnswer = record {
  starts = record {
    connects = λ w. refl;
    lists = λ w.
        let os = map map_to_oracle (select (matches any_oracle) w) in (os, refl, desks_start os);
  };
  producer = λ w. refl;
  consumer = λ w. refl;
  rebalance = λ w. refl;
  logger = λ w. refl;
  bootstrapped = λ w. refl;
  fetched = λ w. refl;
  authorization = λ w. refl;
  token_helper = λ w. refl;
  listening = λ w. refl;
}

start_succeeds_example :
    let (r, t) = start running broker platform false false stopped in
    (r ≡ ok tt)
    × (t.startup_timer ≡ false)
    × (t.aggregate.world ≡ stopped.aggregate.world)
    × InSync (λ w. w) t.aggregate
start_succeeds_example =
    start_succeeds running broker platform running-AllAnswer (λ w. w) (services-ServiceLaws (ok tt))
      platform-QuietStart false false stopped (tt, tt)
