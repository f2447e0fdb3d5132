-- ===== src/Service/Startup.antt =====
-- What a start that succeeds has brought about, and what one that fails leaves running.
use account_lookup_bc.Common.{
  Result, if◌then◌else◌, subst, ◌>>◌, sym, ◌≡◌, refl, ◌⊎◌, inl, inr, Bool, true, false, List, [],
  arith, Error, ok, throw, Result-cases, ◌∙◌, ap, Action,
}
use account_lookup_bc.Domain.Entities.{Oracle}
use account_lookup_bc.Domain.Ports.{Services}
use account_lookup_bc.Aggregate.State.{Aggregate}
use account_lookup_bc.Aggregate.Admin
use account_lookup_bc.Aggregate.Admin.Registry.{ServiceLaws, InSync, AreDistinct, oracle_ids}
use account_lookup_bc.Aggregate.Admin.Start.{init-InSync}
use account_lookup_bc.EventHandler
use account_lookup_bc.EventHandler.{Broker}
use account_lookup_bc.Service.{Platform, Service, update, lift, when, prepare, serve, start}

-- What is called while the service starts leaves the oracles alone.
pub record QuietStart {W : Type 0} (env : Services W) (broker : Broker W) (platform : Platform W)
    (oracles : W → List Oracle) : Type 0 where
  pub finder_keeps : (w : W) → oracles (env.finder.init w).1 ≡ oracles w
  pub producer_keeps : (w : W) → oracles (broker.connect_producer w).1 ≡ oracles w
  pub consumer_keeps : (w : W) → oracles (broker.connect_consumer w).1 ≡ oracles w
  pub rebalance_keeps : (w : W) → oracles (broker.start_and_wait_for_rebalance w).1 ≡ oracles w
  pub logger_keeps : (w : W) → oracles (platform.logger_init w).1 ≡ oracles w
  pub bootstrap_keeps : (w : W) → oracles (platform.bootstrap w).1 ≡ oracles w
  pub fetch_keeps : (w : W) → oracles (platform.fetch w).1 ≡ oracles w
  pub authorization_keeps : (w : W) → oracles (platform.authorization_init w).1 ≡ oracles w
  pub token_helper_keeps : (w : W) → oracles (platform.token_helper_init w).1 ≡ oracles w
  pub listen_keeps : (w : W) → oracles (platform.listen w).1 ≡ oracles w

InSync-kept :
    {W : Type 0} (oracles : W → List Oracle) (a : Aggregate W) (w : W)
    → InSync oracles a
    → oracles w ≡ oracles a.world
    → InSync oracles (record a { world = w })
InSync-kept oracles a w h same = record {
  matched = h.matched ∙ ap oracle_ids (sym same);
  distinct = rw same h.distinct;
}

module _ {W : Type 0} (env : Services W) (broker : Broker W) (platform : Platform W)
    (oracles : W → List Oracle) (laws : ServiceLaws env oracles)
    (quiet : QuietStart env broker platform oracles) where
  started_run :
      (s : Aggregate W)
      → (EventHandler.start env broker s).0 ≡ ok tt
      → let a = (Admin.init env s).1 in
        let w1 = (broker.connect_producer a.world).1 in
        let w2 = (broker.connect_consumer w1).1 in
        (EventHandler.start env broker s).1
        ≡ record a { world = (broker.start_and_wait_for_rebalance w2).1 }
  unfolding EventHandler.start
  started_run s e =
      let a = (Admin.init env s).1 in
      let w1 = (broker.connect_producer a.world).1 in
      elim (Result-cases (Admin.init env s).0) [
        | inr (x, thrown) ↦ absurd (ground arith)
        | inl (_, ready) ↦ elim (Result-cases (broker.connect_producer a.world).0) [
          | inr (x, thrown) ↦ absurd (ground arith)
          | inl (_, produced) ↦ elim (Result-cases (broker.connect_consumer w1).0) [
            | inr (x, thrown) ↦ absurd (ground arith)
            | inl (_, consumed) ↦ ground arith
          ]
        ]
      ]

  handler_started :
      (s : Aggregate W)
      → s.adapters ≡ []
      → AreDistinct (oracle_ids (oracles s.world))
      → (EventHandler.start env broker s).0 ≡ ok tt
      → (oracles (EventHandler.start env broker s).1.world ≡ oracles s.world)
        × InSync oracles (EventHandler.start env broker s).1
  unfolding EventHandler.start
  handler_started s empty distinct e =
      let a = (Admin.init env s).1 in
      let w1 = (broker.connect_producer a.world).1 in
      let w2 = (broker.connect_consumer w1).1 in
      let w3 = (broker.start_and_wait_for_rebalance w2).1 in
      elim (Result-cases (Admin.init env s).0) [
        | inr (x, thrown) ↦ absurd (ground arith)
        | inl (_, ready) ↦
            let (same, synced) =
              init-InSync env oracles laws s empty distinct (quiet.finder_keeps s.world) ready in
            let kept : oracles w3 ≡ oracles a.world =
              quiet.rebalance_keeps w2 ∙ quiet.consumer_keeps w1 ∙ quiet.producer_keeps a.world in
            let run : (EventHandler.start env broker s).1 ≡ record a { world = w3 } =
              started_run s e in
            rw run (kept ∙ same, InSync-kept oracles a w3 synced kept)
      ]

  -- What holds of the service once it is prepared, whether that succeeds or not.
  record Prepared (s t : Service W) : Type 0 where
    same : oracles t.aggregate.world ≡ oracles s.aggregate.world
    timer : t.startup_timer ≡ true

  -- An action after which the service is still prepared.
  record Keeps (m : Action (Service W) Unit) : Type 0 where
    keeps : (s t : Service W) → Prepared s t → Prepared s (m t).1

  lift-Keeps : (m : Action W Unit) → ((w : W) → oracles (m w).1 ≡ oracles w) → Keeps (lift m)
  lift-Keeps m same = record {
    keeps = λ s t h. record { same = same t.aggregate.world ∙ h.same; timer = h.timer };
  }

  seq-Keeps : {m n : Action (Service W) Unit} → Keeps m → Keeps n → Keeps (do m; n)
  seq-Keeps {m} {n} first second = record {
    keeps = λ s t h. elim (Result-cases (m t).0) [
      | inr (x, thrown) ↦ subst (Prepared s) (ground (arith, thrown)) (first.keeps s t h)
      | inl (_, done) ↦
          subst (Prepared s) (ground (arith, done)) (second.keeps s (m t).1 (first.keeps s t h))
    ];
  }

  when-Keeps : {m : Action (Service W) Unit} (test : Bool) → Keeps m → Keeps (when test m)
  when-Keeps true h = h
  when-Keeps false h = record { keeps = λ s t k. k }

  authorize-Keeps :
      Keeps (do lift platform.bootstrap; lift platform.fetch; lift platform.authorization_init)
  authorize-Keeps = seq-Keeps (lift-Keeps platform.bootstrap quiet.bootstrap_keeps) (
      seq-Keeps (lift-Keeps platform.fetch quiet.fetch_keeps)
        (lift-Keeps platform.authorization_init quiet.authorization_keeps))

  -- An assignment to fields other than the timer and the aggregate.
  set-Keeps :
      (f : Service W → Service W)
      → ((t : Service W) → (f t).aggregate ≡ t.aggregate)
      → ((t : Service W) → (f t).startup_timer ≡ t.startup_timer)
      → Keeps (update f)
  set-Keeps f aggregate timer = record {
    keeps = λ s t h. record {
      same = ap (λ (a : Aggregate W). oracles a.world) (aggregate t) ∙ h.same;
      timer = timer t ∙ h.timer;
    };
  }

  prepare-Prepared :
      (has_logger has_authorization : Bool) (s : Service W)
      → Prepared s (prepare env broker platform has_logger has_authorization s).1
  unfolding prepare
  prepare-Prepared has_logger has_authorization s =
      let rest =
        seq-Keeps
          (when-Keeps (if has_logger then false else true)
            (lift-Keeps platform.logger_init quiet.logger_keeps))
          (seq-Keeps
            (set-Keeps (λ t. record t { message_producer = true; message_consumer = true })
              (λ t. refl) (λ t. refl))
            (seq-Keeps (when-Keeps (if has_authorization then false else true) authorize-Keeps) (
              seq-Keeps (set-Keeps (λ t. record t { token_helper = true }) (λ t. refl) (λ t. refl))
                (lift-Keeps platform.token_helper_init quiet.token_helper_keeps)))) in
      rest.keeps s (record s { startup_timer = true }) (record { same = refl; timer = refl })

  -- The service runs with a registry in step, or the timer of the start is still running.
  abbrev Started : (before : List Oracle) → Result Unit × Service W → Type 0
  Started before (r, t) =
      ((r ≡ ok tt)
        × (t.startup_timer ≡ false)
        × (oracles t.aggregate.world ≡ before)
        × InSync oracles t.aggregate)
      ⊎ ((e : Error) × (r ≡ throw e) × (t.startup_timer ≡ true))

  serve-Started :
      (before : List Oracle) (t : Service W)
      → t.startup_timer ≡ true
      → oracles t.aggregate.world ≡ before
      → AreDistinct (oracle_ids before)
      → Started before (serve env broker platform t)
  unfolding serve
  serve-Started before t timer same distinct =
      let fresh : Aggregate W = record { adapters = []; world = t.aggregate.world } in
      let a = (EventHandler.start env broker fresh).1 in
      let w = (platform.listen a.world).1 in
      elim (Result-cases (EventHandler.start env broker fresh).0) [
        | inr (e, thrown) ↦ inr (e, ground (arith, thrown), ground (arith, thrown, timer))
        | inl (_, ready) ↦
            let (kept, synced) = handler_started fresh refl (rw same distinct) ready in
            let quiet_listen = quiet.listen_keeps a.world in
            elim (Result-cases (platform.listen a.world).0) [
              | inr (e, thrown) ↦
                  inr (e, ground (arith, ready, thrown), ground (arith, ready, thrown, timer))
              | inl (_, listening) ↦
                  let run : (serve env broker platform t).1.aggregate ≡ record a { world = w } =
                    ground (arith, ready, listening) in
                  inl (
                    ground (arith, ready, listening),
                    ground (arith, ready, listening),
                    rw run (quiet_listen ∙ kept ∙ same),
                    rw run (InSync-kept oracles a w synced quiet_listen),
                  )
            ]
      ]

  -- Of services that keep ServiceLaws, over oracles whose ids differ and that the calls of a start
  -- leave alone: a start of the service that succeeds has the oracles as they were and a registry
  -- in step, and its timer is cleared; a start that fails leaves the timer running.
  pub start_brings_in_step :
      (has_logger has_authorization : Bool) (s : Service W)
      → AreDistinct (oracle_ids (oracles s.aggregate.world))
      → let (r, t) = start env broker platform has_logger has_authorization s in
        ((r ≡ ok tt)
          × (t.startup_timer ≡ false)
          × (oracles t.aggregate.world ≡ oracles s.aggregate.world)
          × InSync oracles t.aggregate)
        ⊎ ((e : Error) × (r ≡ throw e) × (t.startup_timer ≡ true))
  unfolding start
  start_brings_in_step has_logger has_authorization s distinct =
      let before = oracles s.aggregate.world in
      let h = prepare-Prepared has_logger has_authorization s in
      let t = (prepare env broker platform has_logger has_authorization s).1 in
      elim (Result-cases (prepare env broker platform has_logger has_authorization s).0) [
        | inr (e, thrown) ↦ inr (e, ground (arith, thrown), ground (arith, thrown, h.timer))
        | inl (_, ready) ↦
            let run : start env broker platform has_logger has_authorization s
                ≡ serve env broker platform t =
              ground (arith, ready) in
            subst (Started before) (sym run) (serve-Started before t h.timer h.same distinct)
      ]
