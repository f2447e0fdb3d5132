-- ===== src/Aggregate/Admin/Covered.antt =====
-- A registry whose adapters are those of some of its oracles, and how it stays so.
use account_lookup_bc.Common.{
  String, ◌≡◌, ap, subst, sym, ◌∙◌, none, not, List, [], ◌∷◌, ◌++◌, ◌==◌, select, remove_first,
  find,
}
use account_lookup_bc.Domain.Entities.{Oracle}
use account_lookup_bc.Domain.Ports.{OracleProviderAdapter}
use account_lookup_bc.Aggregate.State.{Aggregate}
use account_lookup_bc.Aggregate.Admin.{without}
use account_lookup_bc.Aggregate.Admin.Registry.{
  InSync, oracle_ids, adapter_ids, AreDistinct, AreDistinct-append, ids-append, adapter_ids-append,
}
use account_lookup_bc.Aggregate.Admin.Embedding.{
  Within, Within-refl, Within-append, Within-extra, Within-without,
}
use account_lookup_bc.Aggregate.Admin.Removal.{
  ids-without, ids-remove_first, select-AreDistinct, remove_first-eq-select,
}

-- No two oracles have one id, and the adapters are those of some of the oracles, in their order.
pub record IsCovered {W : Type 0} (oracles : W → List Oracle) (s : Aggregate W) : Type 0 where
  pub distinct : AreDistinct (oracle_ids (oracles s.world))
  pub within : Within (adapter_ids s.adapters) (oracle_ids (oracles s.world))

module _ {W : Type 0} (oracles : W → List Oracle) (s s' : Aggregate W) where
  pub InSync-IsCovered : InSync oracles s → IsCovered oracles s
  InSync-IsCovered h = record {
    distinct = h.distinct;
    within =
        subst (λ ids. Within ids (oracle_ids (oracles s.world))) (sym h.matched) (Within-refl _);
  }

  pub same-IsCovered :
      IsCovered oracles s
      → s'.adapters ≡ s.adapters
      → oracles s'.world ≡ oracles s.world
      → IsCovered oracles s'
  same-IsCovered h adapters registered = record {
    distinct = rw registered h.distinct;
    within = rw adapters (rw registered h.within);
  }

  module _ (o : Oracle) (h : IsCovered oracles s)
      (unknown : find (λ p. p.id == o.id) (oracles s.world) ≡ none)
      (registered : oracles s'.world ≡ oracles s.world ++ o ∷ []) where
    more_ids : oracle_ids (oracles s'.world) ≡ oracle_ids (oracles s.world) ++ o.id ∷ []
    more_ids = ap oracle_ids registered ∙ ids-append (oracles s.world) o

    more_distinct : AreDistinct (oracle_ids (oracles s'.world))
    more_distinct = rw registered (AreDistinct-append (oracles s.world) o h.distinct unknown)

    pub added-IsCovered :
        (a : OracleProviderAdapter W)
        → a.oracle_id ≡ o.id
        → s'.adapters ≡ s.adapters ++ a ∷ []
        → IsCovered oracles s'
    added-IsCovered a same adapters =
        let ids : adapter_ids s'.adapters ≡ adapter_ids s.adapters ++ o.id ∷ [] =
          ap adapter_ids adapters
          ∙ adapter_ids-append s.adapters a
          ∙ ap (λ id. adapter_ids s.adapters ++ id ∷ []) same in
        record {
          distinct = more_distinct;
          within = rw ids (rw more_ids (Within-append o.id h.within));
        }

    pub dropped-IsCovered : s'.adapters ≡ s.adapters → IsCovered oracles s'
    dropped-IsCovered adapters = record {
      distinct = more_distinct;
      within = rw adapters (rw more_ids (Within-extra o.id h.within));
    }

  pub removed-IsCovered :
      (id : String)
      → IsCovered oracles s
      → s'.adapters ≡ without id s.adapters
      → oracles s'.world ≡ remove_first (λ o. o.id == id) (oracles s.world)
      → IsCovered oracles s'
  removed-IsCovered id h adapters removed =
      let left : oracle_ids (oracles s'.world)
          ≡ remove_first (λ j. j == id) (oracle_ids (oracles s.world)) =
        ap oracle_ids removed ∙ ids-remove_first id (oracles s.world) in
      let ids : adapter_ids s'.adapters ≡ select (λ j. not (j == id)) (adapter_ids s.adapters) =
        ap adapter_ids adapters ∙ ids-without id s.adapters in
      let all = oracle_ids (oracles s.world) in
      record {
        distinct = rw left (
            rw (remove_first-eq-select id all h.distinct)
              (select-AreDistinct (λ j. not (j == id)) all h.distinct));
        within = rw ids (rw left (Within-without id h.within));
      }
