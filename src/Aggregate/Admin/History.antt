-- ===== src/Aggregate/Admin/History.antt =====
-- What holds of the registry after any sequence of registrations and removals, those that fail and
-- those of other administrators included.
use account_lookup_bc.Common.{
  refl, Result, String, ◌≡◌, ap, subst, sym, ◌∙◌, inl, inr, none, List, [], ◌==◌, arith,
  remove_first, find, ok, Result-cases,
}
use account_lookup_bc.Domain.Entities.{Oracle, AddOracleDto}
use account_lookup_bc.Domain.Ports.{Services}
use account_lookup_bc.Aggregate.State.{Aggregate}
use account_lookup_bc.Aggregate.Admin.{
  init, new_oracle, claim_id, register, add_oracle, remove_oracle,
}
use account_lookup_bc.Aggregate.Admin.Registry.{ServiceLaws, InSync}
use account_lookup_bc.Aggregate.Admin.Outcome.{
  claim_id-Same, claim_id-is_new, Registered-of, failed_of,
}
use account_lookup_bc.Aggregate.Admin.Registration.{run_claimed}
use account_lookup_bc.Aggregate.Admin.Removal.{remove_oracle_failure, removed_run}
use account_lookup_bc.Aggregate.Admin.Start.{init-InSync}
use account_lookup_bc.Aggregate.Admin.Covered.{
  IsCovered, InSync-IsCovered, same-IsCovered, added-IsCovered, dropped-IsCovered,
  removed-IsCovered,
}

module _ {W : Type 0} (env : Services W) (oracles : W → List Oracle)
    (laws : ServiceLaws env oracles) where
  register-IsCovered :
      (dto : AddOracleDto) (id : String) (s : Aggregate W)
      → IsCovered oracles s
      → find (λ o. o.id == id) (oracles s.world) ≡ none
      → IsCovered oracles (register env dto id s).1
  register-IsCovered dto id s h unknown =
      let s' = (register env dto id s).1 in
      elim (Result-cases (register env dto id s).0) [
        | inl (got, done) ↦
            let (same, r) = Registered-of env oracles laws dto id got s done in
            added-IsCovered oracles s s' (new_oracle dto id) h unknown r.registered r.adapter
              (laws.created _ _ r.created) r.adapters
        | inr (e, thrown) ↦ elim (failed_of env oracles laws dto id e s thrown) [
          | inl same ↦ same-IsCovered oracles s s' h same.adapters same.registered
          | inr lost ↦
              dropped-IsCovered oracles s s' (new_oracle dto id) h unknown lost.registered
                lost.adapters
        ]
      ]

  add_oracle-IsCovered :
      (dto : AddOracleDto) (s : Aggregate W)
      → IsCovered oracles s
      → IsCovered oracles (add_oracle env dto s).1
  unfolding add_oracle
  add_oracle-IsCovered dto s h =
      let s1 = (claim_id env dto.id s).1 in
      let kept = claim_id-Same env oracles laws dto.id s in
      let h1 = same-IsCovered oracles s s1 h kept.adapters kept.registered in
      elim (Result-cases (claim_id env dto.id s).0) [
        | inr (e, thrown) ↦
            let run : (add_oracle env dto s).1 ≡ s1 = ground arith in
            subst (IsCovered oracles) (sym run) h1
        | inl (id, claimed) ↦
            let unknown = claim_id-is_new env oracles laws dto.id s id claimed in
            let unknown1 : find (λ o. o.id == id) (oracles s1.world) ≡ none =
              rw kept.registered unknown in
            let run = run_claimed env oracles laws dto id s claimed in
            subst (λ (r : Result String × Aggregate W). IsCovered oracles r.1) (sym run)
              (register-IsCovered dto id s1 h1 unknown1)
      ]

  remove_oracle-IsCovered :
      (id : String) (s : Aggregate W)
      → IsCovered oracles s
      → IsCovered oracles (remove_oracle env id s).1
  remove_oracle-IsCovered id s h =
      let s' = (remove_oracle env id s).1 in
      let w1 = (env.finder.get_oracle_by_id id s.world).1 in
      elim (Result-cases (remove_oracle env id s).0) [
        | inr (e, thrown) ↦
            let (adapters, registered) = remove_oracle_failure env oracles laws id s e thrown in
            same-IsCovered oracles s s' h adapters registered
        | inl (_, done) ↦
            let (run, taken, (o, present)) = removed_run env oracles laws id s done in
            let removed =
              laws.finds.remove_removes id w1 o present taken
              ∙ ap (remove_first (λ o. o.id == id)) (laws.finds.by_id_keeps id s.world) in
            subst (λ (r : Result Unit × Aggregate W). IsCovered oracles r.1) (sym run)
              (removed-IsCovered oracles s _ id h refl removed)
      ]

  -- What may happen to the registry: a registration, a removal, or something that leaves both the
  -- adapters and the finder's oracles alone.
  pub data Step : Aggregate W → Aggregate W → Type 0 where
    registration : (dto : AddOracleDto) (s : Aggregate W) → Step s (add_oracle env dto s).1
    removal : (id : String) (s : Aggregate W) → Step s (remove_oracle env id s).1
    other :
        (s s' : Aggregate W)
        → s'.adapters ≡ s.adapters
        → oracles s'.world ≡ oracles s.world
        → Step s s'

  pub data Reach (s : Aggregate W) : Aggregate W → Type 0 where
    here : Reach s s
    next : {t u : Aggregate W} → Reach s t → Step t u → Reach s u

  Step-IsCovered : {s t : Aggregate W} → Step s t → IsCovered oracles s → IsCovered oracles t
  Step-IsCovered (registration dto s) h = add_oracle-IsCovered dto s h
  Step-IsCovered (removal id s) h = remove_oracle-IsCovered id s h
  Step-IsCovered (other s s' adapters registered) h =
      same-IsCovered oracles s s' h adapters registered

  -- Of services that keep ServiceLaws: from a registry in step, whatever registrations and removals
  -- follow, in any order and failed ones included, no two oracles have one id, and the adapters
  -- are those of some of the oracles, in the same order.
  pub Reach-IsCovered : {s t : Aggregate W} → InSync oracles s → Reach s t → IsCovered oracles t
  Reach-IsCovered {s} h here = InSync-IsCovered oracles s s h
  Reach-IsCovered h (next r step) = Step-IsCovered step (Reach-IsCovered h r)

  -- Of services that keep ServiceLaws: whatever happened to a registry that was in step, a new
  -- aggregate with no adapters over the same world, whose initialisation succeeds while connecting
  -- leaves the oracles as they are, is in step again and has lost no oracle.
  pub restart-InSync :
      (s t : Aggregate W)
      → InSync oracles s
      → Reach s t
      → let fresh : Aggregate W = record { adapters = []; world = t.world } in
        oracles (env.finder.init t.world).1 ≡ oracles t.world
        → (init env fresh).0 ≡ ok tt
        → (oracles (init env fresh).1.world ≡ oracles t.world) × InSync oracles (init env fresh).1
  restart-InSync s t h r connected e =
      init-InSync env oracles laws (record { adapters = []; world = t.world }) refl
        (Reach-IsCovered h r).distinct connected e
