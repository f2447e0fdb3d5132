-- ===== src/LoadTest/Sender.antt =====
-- scripts/sender.js: the queries of a batch, and the rounds in which batches are sent. What it
-- prints is left out, and so is sendParticipantQueryReceivedEvt, whose call is commented out.
pub mod Count
use account_lookup_bc.Common.{
  ℕ, zero, suc, ◌+◌, String, Nullable, null, str, Bool, true, false, ◌||◌, List, [], ◌∷◌, leb,
  nat_beq, if◌then◌else◌, Action, ok, throw, pure, ◌>>=◌, ◌>>◌,
}

-- A PartyQueryReceivedEvt. Its state repeats the two FSPs, and its key is the party's id.
pub record PartyQueryReceived : Type 0 where
  pub requester_fsp_id : Nullable
  pub destination_fsp_id : Nullable
  pub party_type : Nullable
  pub party_id : ℕ
  pub party_sub_type : Nullable
  pub currency : Nullable
  pub req_send_timestamp : ℕ

-- The producer, the clock, and `Math.floor(Math.random() * 1000)`.
pub record Bus (W : Type 0) : Type 0 where
  pub now : W → ℕ × W
  pub random_id : W → ℕ × W
  pub send : List PartyQueryReceived → Action W Unit

-- `sent`, and the world.
pub record Sender (W : Type 0) : Type 0 where
  pub sent : ℕ
  pub world : W

abbrev pub message_count : ℕ
message_count = 0

abbrev pub batch_size : ℕ
batch_size = 20

module _ {W : Type 0} (bus : Bus W) where
  abbrev pub query : W → PartyQueryReceived × W
  query w =
      let (id, w') = bus.random_id w in
      let (t, w'') = bus.now w' in
      (
        record {
          requester_fsp_id = str "bluebank";
          destination_fsp_id = str "greenbank";
          party_type = str "MSISDN";
          party_id = id;
          party_sub_type = null;
          currency = str "EUR";
          req_send_timestamp = t;
        },
        w'',
      )

  -- The loop that fills `toSend`.
  unfoldable pub queries : (size : ℕ) → W → List PartyQueryReceived × W
  queries zero w = ([], w)
  queries (suc n) w = let (q, w') = query w in let (rest, w'') = queries n w' in (q ∷ rest, w'')

  unfoldable pub send_party_query_received_evt : (size : ℕ) → Action W Unit
  unfolding queries
  send_party_query_received_evt size w = let (to_send, w') = queries size w in bus.send to_send w'

  -- `send`, and whether it is to run again.
  unfoldable pub send : (count size : ℕ) → Action (Sender W) Bool
  unfolding send_party_query_received_evt
  send count size s =
      let (r, w) = send_party_query_received_evt size s.world in
      elim r [
        | throw e ↦ (throw e, record s { world = w })
        | ok _ ↦
            let sent : ℕ = s.sent + size in
            (ok (nat_beq count 0 || leb sent count), record { sent = sent; world = w })
      ]

  -- At most `rounds` calls of `send`, each from the timer of the one before: whether the script
  -- has come to its end.
  unfoldable pub run : (count size rounds : ℕ) → Action (Sender W) Bool
  unfolding send
  run count size zero = pure false
  run count size (suc rounds) =
      let rest = run count size rounds in
      (do again ← send count size; if again then rest else pure true)
