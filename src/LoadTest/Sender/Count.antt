-- ===== src/LoadTest/Sender/Count.antt =====
-- How many queries the sender sends.
use account_lookup_bc.Common.{
  ℕ, zero, suc, ◌+◌, ◌*◌, ◌≤◌, ◌<◌, ◌≡◌, refl, ap, ◌∙◌, leb, nat_beq, ◌||◌, true, false, List, ok,
  arith,
}
use account_lookup_bc.LoadTest.Sender.{
  Bus, Sender, PartyQueryReceived, queries, send, send_party_query_received_evt, run,
}

module _ {W : Type 0} (bus : Bus W)
    (sends : (batch : List PartyQueryReceived) (w : W) → (bus.send batch w).0 ≡ ok tt) where
  sent_by :
      (count size : ℕ) (s : Sender W)
      → (t : Sender W) × (t.sent ≡ s.sent + size)
        × (send bus count size s ≡ (ok (nat_beq count 0 || leb (s.sent + size) count), t))
  unfolding send send_party_query_received_evt
  sent_by count size s =
      let (batch, w) = queries bus size s.world in
      let t : Sender W = record { sent = s.sent + size; world = (bus.send batch w).1 } in
      (t, refl, ground (arith, sends batch w))

  module _ (count size n : ℕ) (s t : Sender W) where
    run_again :
        (send bus count size s ≡ (ok true, t))
        → run bus count size (suc n) s ≡ run bus count size n t
    unfolding run
    run_again e = ground (arith, e)

    run_over : (send bus count size s ≡ (ok false, t)) → run bus count size (suc n) s ≡ (ok true, t)
    unfolding run
    run_over e = ground (arith, e)

  -- A script that is to send `count` messages, in batches of `size`, comes to its end after the
  -- first round that takes it over `count`.
  pub run_ends :
      (count size k : ℕ) (s : Sender W)
      → 0 < count
      → s.sent + k * size ≤ count
      → count < s.sent + suc k * size
      → ((run bus count size (suc k) s).0 ≡ ok true)
        × ((run bus count size (suc k) s).1.sent ≡ s.sent + suc k * size)
  unfolding run
  run_ends count size zero s positive reached over =
      let (t, sent, e) = sent_by count size s in
      let over' : (nat_beq count 0 || leb (s.sent + size) count) ≡ false = ground arith in
      let runs = run_over count size 0 s t (e ∙ ap (λ b. (ok b, t)) over') in
      (ap (λ x. x.0) runs, ap (λ x. x.1.sent) runs ∙ (sent ∙ omega arith))
  run_ends count size (suc k) s positive reached over =
      let (t, sent, e) = sent_by count size s in
      let again : (nat_beq count 0 || leb (s.sent + size) count) ≡ true = ground arith in
      let runs = run_again count size (suc k) s t (e ∙ ap (λ b. (ok b, t)) again) in
      let (r, total) = run_ends count size k t positive (omega arith) (omega arith) in
      (ap (λ x. x.0) runs ∙ r, ap (λ x. x.1.sent) runs ∙ (total ∙ omega arith))

  -- Without a count, as the script stands, it goes on.
  run_goes_on :
      (size n : ℕ) (s : Sender W)
      → ((run bus 0 size n s).0 ≡ ok false) × ((run bus 0 size n s).1.sent ≡ s.sent + n * size)
  unfolding run
  run_goes_on size zero s = (refl, omega arith)
  run_goes_on size (suc n) s =
      let (t, sent, e) = sent_by 0 size s in
      let runs = run_again 0 size n s t e in
      let (r, total) = run_goes_on size n t in
      (ap (λ x. x.0) runs ∙ r, ap (λ x. x.1.sent) runs ∙ (total ∙ omega arith))
