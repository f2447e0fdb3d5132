-- ===== src/Aggregate/Admin/Removal.antt =====
-- `removeOracle`: what a success and a failure leave behind.
use account_lookup_bc.Common.{
  String, ◌≡◌, ◌≢◌, refl, ap, sym, ◌∙◌, inl, inr, Bool, not, none, some, List, [], ◌∷◌, ◌==◌,
  eq_iff, All, arith, find, select, remove_first, Error, ok, throw, Bool-cases, Result-cases,
}
use account_lookup_bc.Domain.Entities.{Oracle}
use account_lookup_bc.Domain.Ports.{Services, OracleProviderAdapter}
use account_lookup_bc.Aggregate.State.{Aggregate}
use account_lookup_bc.Aggregate.Admin.{without, remove_oracle}
use account_lookup_bc.Aggregate.Admin.Registry.{
  ServiceLaws, oracle_ids, adapter_ids, AreDistinct, InSync,
}

pub ids-without :
    {W : Type 0} (id : String) (adapters : List (OracleProviderAdapter W))
    → adapter_ids (without id adapters) ≡ select (λ j. not (j == id)) (adapter_ids adapters)
ids-without id [] = refl
ids-without id (a ∷ adapters) = ground (arith, ids-without id adapters)

pub ids-remove_first :
    (id : String) (os : List Oracle)
    → oracle_ids (remove_first (λ o. o.id == id) os) ≡ remove_first (λ j. j == id) (oracle_ids os)
ids-remove_first id [] = refl
ids-remove_first id (o ∷ os) = ground (arith, ids-remove_first id os)

select-All :
    (P : String → Type 0) (p : String → Bool) (ids : List String) → All P ids → All P (select p ids)
select-All P p [] h = tt
select-All P p (j ∷ ids) h = ground (arith, select-All P p ids h.1)

pub select-AreDistinct :
    (p : String → Bool) (ids : List String) → AreDistinct ids → AreDistinct (select p ids)
select-AreDistinct p [] h = tt
select-AreDistinct p (j ∷ ids) h =
    ground (arith, select-AreDistinct p ids h.1, select-All (λ i. i ≢ j) p ids h.0)

select_same :
    (id : String) (ids : List String)
    → All (λ j. j ≢ id) ids
    → select (λ j. not (j == id)) ids ≡ ids
select_same id [] h = refl
select_same id (j ∷ ids) h = ground (arith, eq_iff j id, select_same id ids h.1)

pub remove_first-eq-select :
    (id : String) (ids : List String)
    → AreDistinct ids
    → remove_first (λ j. j == id) ids ≡ select (λ j. not (j == id)) ids
remove_first-eq-select id [] h = refl
remove_first-eq-select id (j ∷ ids) h = elim (Bool-cases (j == id)) [
  | inl same ↦
      let at : j ≡ id = (eq_iff j id).0 same in ground (arith, select_same id ids (rw (← at) h.0))
  | inr other ↦ ground (arith, remove_first-eq-select id ids h.1)
]

-- The registry stays in step when the oracle of an id and the adapters of that id are taken out.
InSync-without :
    {W : Type 0} (oracles : W → List Oracle) (id : String) (s s' : Aggregate W)
    → InSync oracles s
    → s'.adapters ≡ without id s.adapters
    → oracles s'.world ≡ remove_first (λ o. o.id == id) (oracles s.world)
    → InSync oracles s'
InSync-without oracles id s s' h adapters removed =
    let left : oracle_ids (oracles s'.world)
        ≡ select (λ j. not (j == id)) (oracle_ids (oracles s.world)) =
      ap oracle_ids removed
      ∙ ids-remove_first id (oracles s.world)
      ∙ remove_first-eq-select id (oracle_ids (oracles s.world)) h.distinct in
    record {
      matched =
          ap adapter_ids adapters
          ∙ ids-without id s.adapters
          ∙ ap (select (λ j. not (j == id))) h.matched
          ∙ sym left;
      distinct = rw left (select-AreDistinct _ (oracle_ids (oracles s.world)) h.distinct);
    }

module _ {W : Type 0} (env : Services W) (oracles : W → List Oracle)
    (laws : ServiceLaws env oracles) where
  pub removed_run :
      (id : String) (s : Aggregate W)
      → (remove_oracle env id s).0 ≡ ok tt
      → let w1 = (env.finder.get_oracle_by_id id s.world).1 in
        (remove_oracle env id s ≡ (
          ok tt,
          record { adapters = without id s.adapters; world = (env.finder.remove_oracle id w1).1 },
        ))
        × ((env.finder.remove_oracle id w1).0 ≡ ok tt)
        × ((o : Oracle) × (find (λ p. p.id == id) (oracles w1) ≡ some o))
  unfolding remove_oracle
  removed_run id s e =
      let w1 = (env.finder.get_oracle_by_id id s.world).1 in
      elim (Result-cases (env.finder.get_oracle_by_id id s.world).0) [
        | inr (x, thrown) ↦ absurd (ground arith)
        | inl (none, answered) ↦ absurd (ground arith)
        | inl (some o, answered) ↦ elim (Result-cases (env.finder.remove_oracle id w1).0) [
          | inr (x, thrown) ↦ absurd (ground arith)
          | inl (_, done) ↦
              let known = sym (laws.finds.by_id_reads id s.world (some o) answered) in
              (ground arith, done, (o, rw (laws.finds.by_id_keeps id s.world) known))
        ]
      ]

  -- Of services that keep ServiceLaws and a registry in step: a removal that succeeds takes the
  -- first oracle of the id out of the finder and the adapters of the id out of the aggregate, and
  -- the registry stays in step.
  pub remove_oracle_removes :
      (id : String) (s : Aggregate W)
      → InSync oracles s
      → (remove_oracle env id s).0 ≡ ok tt
      → let s' = (remove_oracle env id s).1 in
        (s'.adapters ≡ without id s.adapters)
        × (oracles s'.world ≡ remove_first (λ o. o.id == id) (oracles s.world))
        × InSync oracles s'
  remove_oracle_removes id s h e =
      let w1 = (env.finder.get_oracle_by_id id s.world).1 in
      let (run, done, (o, present)) = removed_run id s e in
      let removed =
        laws.finds.remove_removes id w1 o present done
        ∙ ap (remove_first (λ o. o.id == id)) (laws.finds.by_id_keeps id s.world) in
      rw run (refl, removed, InSync-without oracles id s _ h refl removed)

  -- Of services that keep ServiceLaws: a removal that fails leaves the finder's oracles and the
  -- adapters as they were.
  pub remove_oracle_failure :
      (id : String) (s : Aggregate W) (e : Error)
      → (remove_oracle env id s).0 ≡ throw e
      → let s' = (remove_oracle env id s).1 in
        (s'.adapters ≡ s.adapters) × (oracles s'.world ≡ oracles s.world)
  unfolding remove_oracle
  remove_oracle_failure id s e failed =
      let w1 = (env.finder.get_oracle_by_id id s.world).1 in
      let kept = laws.finds.by_id_keeps id s.world in
      elim (Result-cases (env.finder.get_oracle_by_id id s.world).0) [
        | inr (x, thrown) ↦ ground (arith, kept)
        | inl (none, answered) ↦ ground (arith, kept)
        | inl (some o, answered) ↦ elim (Result-cases (env.finder.remove_oracle id w1).0) [
          | inr (x, thrown) ↦ ground (arith, kept, laws.finds.remove_fails id w1 x thrown)
          | inl (_, done) ↦ absurd (ground arith)
        ]
      ]
