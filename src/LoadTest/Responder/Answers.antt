-- ===== src/LoadTest/Responder/Answers.antt =====
-- What the responder answers to a batch, where the script is not in its single mode.
use account_lookup_bc.Common.{
  ℕ, ◌≡◌, refl, ap, ◌∙◌, inl, inr, ◌⊎◌, Bool, true, false, ◌&&◌, Option, none, some, List, [], ◌∷◌,
  ◌++◌, ◌>>◌, Action, base_error, ok, throw, arith, Bool-cases, Option-cases,
}
use account_lookup_bc.Domain.Messages.{Payload}
use account_lookup_bc.LoadTest.Responder.{
  Bus, Responder, Received, ReceivedName, OpaqueState, PartyInfoAvailable, answer,
  participant_query_response, party_info_requested, party_query_response, other_name, sent_at,
  record_response, answer_request, handle, handle_each, batch_handler, send, update, publish,
  open_batch, close_batch,
}

abbrev pub is_request : ReceivedName → Bool
is_request participant_query_response = false
is_request party_info_requested = true
is_request party_query_response = false
is_request (other_name _) = false

-- A request has a payload and a state.
abbrev pub is_readable : Received → Bool
is_readable m = elim (is_request m.msg_name) [
  | false ↦ true
  | true ↦ elim m.payload [
    | none ↦ false
    | some _ ↦ elim m.opaque_state [ none ↦ false | some _ ↦ true ]
  ]
]

abbrev pub are_readable : List Received → Bool
are_readable [] = true
are_readable (m ∷ ms) = is_readable m && are_readable ms

-- What is due for a message: for a request, one answer, which is made at some time.
pub data Answers (m : Received) : List PartyInfoAvailable → Type 0 where
  nothing_due : is_request m.msg_name ≡ false → Answers m []
  answer_due :
      (p : Payload) (state : OpaqueState) (born now : ℕ)
      → is_request m.msg_name ≡ true
      → m.payload ≡ some p
      → m.opaque_state ≡ some state
      → Answers m (answer p state born now ∷ [])

abbrev pub AnswersAll : List Received → List PartyInfoAvailable → Type 0
AnswersAll [] out = out ≡ []
AnswersAll (m ∷ ms) out =
    (first : List PartyInfoAvailable) × (rest : List PartyInfoAvailable) × Answers m first
    × AnswersAll ms rest
    × (out ≡ first ++ rest)

then_runs : {S : Type 0} (m k : Action S Unit) (s : S) → (m s).0 ≡ ok tt → (m >> k) s ≡ k (m s).1
then_runs m k s e = ground (arith, e)

and_both : (a b : Bool) → (a && b) ≡ true → (a ≡ true) × (b ≡ true)
and_both a b e = ground arith

then_agrees :
    {S : Type 0} (m m' k k' : Action S Unit) (s : S)
    → m' s ≡ m s
    → ((t : S) → k' t ≡ k t)
    → (m' >> k') s ≡ (m >> k) s
then_agrees m m' k k' s e h = ground (arith, e, h (m s).1)

module _ {W : Type 0} (bus : Bus W) where
  record_response_lem :
      (now : ℕ) (o : Option OpaqueState) (s : Responder W)
      → ((record_response bus false now o s).0 ≡ ok tt)
        × ((record_response bus false now o s).1.events_to_publish ≡ s.events_to_publish)
  unfolding record_response
  record_response_lem now o s = elim (Option-cases (sent_at o)) [
    | inl e ↦ rw (e, record_response) (refl, refl)
    | inr (t, e) ↦ rw (e, record_response) (refl, refl)
  ]

  append-none : (out : List PartyInfoAvailable) → out ≡ out ++ []
  append-none [] = refl
  append-none (e ∷ out) = ap (λ l. e ∷ l) (append-none out)

  append_assoc : (a b c : List PartyInfoAvailable) → (a ++ b) ++ c ≡ a ++ (b ++ c)
  append_assoc [] b c = refl
  append_assoc (e ∷ a) b c = ap (λ l. e ∷ l) (append_assoc a b c)

  handle_readable :
      (name : ReceivedName) (payload : Option Payload) (o : Option OpaqueState) (s : Responder W)
      → let m : Received = record { msg_name = name; payload = payload; opaque_state = o } in
        is_readable m ≡ true
        → (out : List PartyInfoAvailable) × Answers m out
          × ((handle bus false m s).0 ≡ ok tt)
          × ((handle bus false m s).1.events_to_publish ≡ s.events_to_publish ++ out)
  unfolding handle answer_request
  handle_readable participant_query_response payload o s readable =
      let (r, events) =
        record_response_lem (bus.now s.world).0 o (record s { world = (bus.now s.world).1 }) in
      ([], nothing_due refl, r, events ∙ append-none s.events_to_publish)
  handle_readable party_query_response payload o s readable =
      let (r, events) =
        record_response_lem (bus.now s.world).0 o (record s { world = (bus.now s.world).1 }) in
      ([], nothing_due refl, r, events ∙ append-none s.events_to_publish)
  handle_readable (other_name _) payload o s readable =
      ([], nothing_due refl, refl, append-none s.events_to_publish)
  handle_readable party_info_requested none o s readable = absurd (ground arith)
  handle_readable party_info_requested (some p) none s readable = absurd (ground arith)
  handle_readable party_info_requested (some p) (some state) s readable =
      (_, answer_due p state _ _ refl refl refl, refl, refl)

  -- A request that cannot be read makes the handler throw.
  handle_unreadable :
      (name : ReceivedName) (payload : Option Payload) (o : Option OpaqueState) (s : Responder W)
      → let m : Received = record { msg_name = name; payload = payload; opaque_state = o } in
        is_readable m ≡ false → (handle bus false m s).0 ≡ throw base_error
  unfolding handle answer_request
  handle_unreadable participant_query_response payload o s e = absurd (ground arith)
  handle_unreadable party_query_response payload o s e = absurd (ground arith)
  handle_unreadable (other_name _) payload o s e = absurd (ground arith)
  handle_unreadable party_info_requested none o s e = refl
  handle_unreadable party_info_requested (some p) none s e = refl
  handle_unreadable party_info_requested (some p) (some state) s e = absurd (ground arith)

  handle_each_readable :
      (ms : List Received) (s : Responder W)
      → are_readable ms ≡ true
      → (out : List PartyInfoAvailable) × AnswersAll ms out
        × ((handle_each bus false ms s).0 ≡ ok tt)
        × ((handle_each bus false ms s).1.events_to_publish ≡ s.events_to_publish ++ out)
  unfolding handle_each
  handle_each_readable [] s e = ([], refl, refl, append-none s.events_to_publish)
  handle_each_readable (m ∷ ms) s e =
      let (good, all_good) = and_both (is_readable m) (are_readable ms) e in
      let (first, due, r, events) = handle_readable m.msg_name m.payload m.opaque_state s good in
      let (rest, dues, r', events') = handle_each_readable ms (handle bus false m s).1 all_good in
      let runs = then_runs (handle bus false m) (handle_each bus false ms) s r in
      (
        first ++ rest,
        (first, rest, due, dues, refl),
        ap (λ x. x.0) runs ∙ r',
        ap (λ x. x.1.events_to_publish) runs
            ∙ (events'
                ∙ (ap (λ l. l ++ rest) events ∙ append_assoc s.events_to_publish first rest)),
      )

  handle_each_unreadable :
      (ms : List Received) (s : Responder W)
      → are_readable ms ≡ false
      → (handle_each bus false ms s).0 ≡ throw base_error
  unfolding handle_each
  handle_each_unreadable [] s e = absurd (ground arith)
  handle_each_unreadable (m ∷ ms) s e = elim (Bool-cases (is_readable m)) [
    | inl good ↦
        let (_, _, r, _) = handle_readable m.msg_name m.payload m.opaque_state s good in
        ground (arith, r, handle_each_unreadable ms (handle bus false m s).1 (ground arith))
    | inr bad ↦ ground (arith, handle_unreadable m.msg_name m.payload m.opaque_state s bad)
  ]

  module _ (other : List PartyInfoAvailable → Action W Unit) where
    abbrev silent : Bus W
    silent = record bus { send = other }

    handle_sends_nothing :
        (name : ReceivedName) (payload : Option Payload) (o : Option OpaqueState) (s : Responder W)
        → let m : Received = record { msg_name = name; payload = payload; opaque_state = o } in
          handle silent false m s ≡ handle bus false m s
    unfolding handle answer_request record_response
    handle_sends_nothing participant_query_response payload o s = refl
    handle_sends_nothing party_query_response payload o s = refl
    handle_sends_nothing (other_name _) payload o s = refl
    handle_sends_nothing party_info_requested none o s = refl
    handle_sends_nothing party_info_requested (some p) none s = refl
    handle_sends_nothing party_info_requested (some p) (some state) s = refl

    handle_each_sends_nothing :
        (ms : List Received) (s : Responder W)
        → handle_each silent false ms s ≡ handle_each bus false ms s
    unfolding handle_each
    handle_each_sends_nothing [] s = refl
    handle_each_sends_nothing (m ∷ ms) s =
        then_agrees (handle bus false m) (handle silent false m) (handle_each bus false ms)
          (handle_each silent false ms) s
          (handle_sends_nothing m.msg_name m.payload m.opaque_state s)
          (handle_each_sends_nothing ms)

  -- A batch is answered as a whole or not at all. Either each request of the batch has a payload and
  -- a state, and what is published is the list of the answers, in the order of their requests; or
  -- some request lacks one of them, the handler throws, and nothing is published: the batch runs in
  -- the same way over another producer.
  pub batch_handler_all_or_none :
      (ms : List Received) (s : Responder W) (other : List PartyInfoAvailable → Action W Unit)
      → ((are_readable ms ≡ true)
          × ((out : List PartyInfoAvailable) × (t : Responder W) × AnswersAll ms out
              × (batch_handler bus false ms s ≡ send bus false out t)))
        ⊎ ((are_readable ms ≡ false)
            × ((batch_handler bus false ms s).0 ≡ throw base_error)
            × (batch_handler (record bus { send = other }) false ms s
                ≡ batch_handler bus false ms s))
  unfolding batch_handler
  batch_handler_all_or_none ms s other =
      let reset = open_batch bus false s in
      let end = close_batch bus false (handle_each bus false ms reset).1 in
      elim (Bool-cases (are_readable ms)) [
        | inl good ↦
            let (out, dues, r, events) = handle_each_readable ms reset good in
            let runs =
              then_runs (handle_each bus false ms)
                (update bus false (close_batch bus false) >> publish bus false) reset r in
            inl (good, (out, end, dues, runs ∙ ap (λ l. send bus false l end) events))
        | inr bad ↦
            let r = handle_each_unreadable ms reset bad in
            let same = handle_each_sends_nothing other ms reset in
            inr (bad, ground (arith, r), ground (arith, r, same))
      ]
