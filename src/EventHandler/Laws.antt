-- ===== src/EventHandler/Laws.antt =====
-- What a batch of messages is answered with.
use account_lookup_bc.Common.{
  ◌≡◌, ◌≢◌, ok, refl, ◌∙◌, ◌⊎◌, inl, inr, some, List, [], ◌∷◌, Option-cases,
}
use account_lookup_bc.Domain.Messages.{
  Event, Payload, Message, MessageType, domain_event, other_type,
}
use account_lookup_bc.Domain.Ports.{Services}
use account_lookup_bc.Aggregate.State.{Aggregate, lift}
use account_lookup_bc.Aggregate.Kinds.{kind, about_message, CanAnswer}
use account_lookup_bc.Aggregate.Dispatch.{handle_event}
use account_lookup_bc.Aggregate.Dispatch.Laws.{handle_event_answers, handle_event_invalid}
use account_lookup_bc.EventHandler.{Outgoing, Broker, handle_all, send_all, batch_msg_handler}

-- The message has a payload and is a domain event.
abbrev pub IsValid : Message → Type 0
IsValid m = ((p : Payload) × (m.payload ≡ some p)) × (m.msg_type ≡ domain_event)

-- An event that can answer a message: of a kind that its name admits if the message is valid, and
-- about the message itself if it is not.
abbrev pub Suits : Message → Event → Type 0
Suits m e = (IsValid m × CanAnswer m.msg_name e) ⊎ (¬ IsValid m × (kind e ≡ about_message))

module _ {W : Type 0} (env : Services W) where
  reply-Suits :
      (m : Message) (s : Aggregate W)
      → Suits m (handle_event env m s).0.event × ((handle_event env m s).1.adapters ≡ s.adapters)
  reply-Suits m s = of_type m.msg_type refl
    where
      of_type :
          (t : MessageType)
          → m.msg_type ≡ t
          → Suits m (handle_event env m s).0.event
            × ((handle_event env m s).1.adapters ≡ s.adapters)
      of_type (other_type x) e =
          let (about, _, same) = handle_event_invalid env m s (inr (λ typed. cc)) in
          (inr (λ (_, typed). cc, about), rw same refl)
      of_type domain_event e = elim (Option-cases m.payload) [
        | inl missing ↦
            let (about, _, same) = handle_event_invalid env m s (inl missing) in
            (inr (λ ((p, present), _). cc, about), rw same refl)
        | inr (p, present) ↦
            let (can, _, _, kept) = handle_event_answers env m p s present e in
            (inl (((p, present), e), can), kept)
      ]

  -- How messages are handled one after the other, from the state `s` to the state `t`: each one in
  -- the state that the one before left, and answered by one output, whose event is the one that
  -- `handleEvent` returned there and suits the message, and whose protocol state is the message's.
  abbrev pub Handled : List Message → Aggregate W → List Outgoing → Aggregate W → Type 0
  Handled [] s [] t = t ≡ s
  Handled (m ∷ messages) s (o ∷ outputs) t =
      (o.event ≡ (handle_event env m s).0.event)
      × Suits m o.event
      × (o.inbound ≡ m.inbound)
      × Handled messages (handle_event env m s).1 outputs t
  Handled _ _ _ _ = ⊥

  handle_all-Handled :
      (broker : Broker W) (messages : List Message) (s : Aggregate W)
      → let (outputs, t) = handle_all env broker messages s in
        Handled messages s outputs t × (t.adapters ≡ s.adapters)
  unfolding handle_all
  handle_all-Handled broker [] s = (refl, refl)
  handle_all-Handled broker (m ∷ messages) s =
      let (suits, kept) = reply-Suits m s in
      let (rest, kept') = handle_all-Handled broker messages (handle_event env m s).1 in
      ((refl, suits, refl, rest), kept' ∙ kept)

  -- A batch of messages is answered by one call of the producer with all its events, in the state
  -- that is left once every message was handled in the state that the one before it left: one event
  -- for each message, in order, the one that `handleEvent` returned for it, which suits the message
  -- and carries its protocol state. An empty batch sends nothing and changes nothing, and the list
  -- of adapters is as it was when the events are sent.
  pub batch_msg_handler_answers :
      (broker : Broker W) (messages : List Message) (s : Aggregate W)
      → (outputs : List Outgoing) × (t : Aggregate W) × Handled messages s outputs t
        × (t.adapters ≡ s.adapters)
        × (((messages ≡ []) × (batch_msg_handler env broker messages s ≡ (ok tt, s)))
            ⊎ ((messages ≢ [])
                × (batch_msg_handler env broker messages s ≡ lift (broker.send outputs) t)))
  unfolding batch_msg_handler handle_all send_all
  batch_msg_handler_answers broker [] s = ([], s, refl, refl, inl (refl, refl))
  batch_msg_handler_answers broker (m ∷ messages) s =
      let (handled, kept) = handle_all-Handled broker (m ∷ messages) s in
      let (outputs, t) = handle_all env broker (m ∷ messages) s in
      (outputs, t, handled, kept, inr (λ e. cc, refl))
