-- ===== src/EventHandler.antt =====
-- packages/account-lookup-svc/src/handler.ts, class AccountLookupEventHandler: starting, stopping,
-- and the handler of a batch of messages. Spans, gauges and histograms are left out.
pub mod Laws
use account_lookup_bc.Common.{List, [], ◌∷◌, Action, ok, throw, pure, ◌>>=◌, ◌>>◌}
use account_lookup_bc.Domain.Messages.{Event, Message, Inbound}
use account_lookup_bc.Domain.Ports.{Services}
use account_lookup_bc.Aggregate.State.{Aggregate, lift}
use account_lookup_bc.Aggregate.Admin.{init, destroy}
use account_lookup_bc.Aggregate.Dispatch.{handle_event}

-- An event as it is sent: the protocol state is the message's.
pub record Outgoing : Type 0 where
  pub event : Event
  pub inbound : Inbound

-- What the handler asks of the consumer and of the producer of messages.
pub record Broker (W : Type 0) : Type 0 where
  pub connect_producer : Action W Unit
  pub connect_consumer : Action W Unit
  pub start_and_wait_for_rebalance : Action W Unit
  pub stop_consumer : Action W Unit
  pub send : List Outgoing → Action W Unit

module _ {W : Type 0} (env : Services W) (broker : Broker W) where
  unfoldable pub start : Action (Aggregate W) Unit
  start = do
    init env
    lift broker.connect_producer
    lift broker.connect_consumer
    lift broker.start_and_wait_for_rebalance

  unfoldable pub stop : Action (Aggregate W) Unit
  stop = do lift broker.stop_consumer; destroy env

  -- The loop of `_batchMsgHandler`: `outputEvents` and the state after it.
  unfoldable pub handle_all : List Message → Aggregate W → List Outgoing × Aggregate W
  handle_all [] s = ([], s)
  handle_all (m ∷ messages) s =
      let (reply, s') = handle_event env m s in
      let (outputs, t) = handle_all messages s' in
      (record { event = reply.event; inbound = m.inbound } ∷ outputs, t)

  -- `if (outputEvents.length > 0)` of the `finally` block
  unfoldable pub send_all : List Outgoing → Action (Aggregate W) Unit
  send_all [] = pure tt
  send_all (first ∷ outputs) = lift (broker.send (first ∷ outputs))

  -- `_batchMsgHandler`
  unfoldable pub batch_msg_handler : List Message → Action (Aggregate W) Unit
  unfolding handle_all send_all
  batch_msg_handler messages s = let (outputs, t) = handle_all messages s in send_all outputs t
