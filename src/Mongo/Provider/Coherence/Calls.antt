-- ===== src/Mongo/Provider/Coherence/Calls.antt =====
-- The calls of MongoOracleProviderRepo keep its cache in agreement with the collection.
use account_lookup_bc.Common.{
  ℕ, String, Nullable, ◌≡◌, sym, subst, ◌∙◌, inl, inr, none, some, List, [], ◌∷◌, find-last, arith,
  ok, Result-cases,
}
use account_lookup_bc.Domain.Entities.{Association}
use account_lookup_bc.Mongo.Collection.{Collection}
use account_lookup_bc.Mongo.Provider.{
  Cache, PartyQuery, association, key_of, document_of, fetch_fsp_id, get_from_cache,
  get_participant_fsp_id, associate_participant, disassociate_participant,
}
use account_lookup_bc.Mongo.Provider.Storage.{matches}
use account_lookup_bc.Mongo.Provider.Entries.{
  Party, cache_key, asked_for, owned_by, AreApart, EntryLaws, found-Holds, matches_document,
}
use account_lookup_bc.Mongo.Provider.Coherence
use account_lookup_bc.Mongo.Provider.Coherence.{IsCoherent}

module _ {W : Type 0} (parties : Collection W Association PartyQuery) (cache : Cache W)
    (cache_duration_secs : ℕ) (docs : W → List Association) (entries : W → String → Nullable)
    (laws : EntryLaws parties cache docs entries) (Known : Party → Type 0)
    (apart : AreApart Known) where
  abbrev Coherent : W → Type 0
  Coherent = IsCoherent parties cache cache_duration_secs docs entries laws Known apart

  fetch-IsCoherent :
      (p : Party) (w : W)
      → Known p
      → Coherent w
      → Coherent
          (fetch_fsp_id parties cache cache_duration_secs p.party_type p.party_id p.party_sub_type
            p.currency w).1
  unfolding fetch_fsp_id
  fetch-IsCoherent p w known h =
      let q = asked_for p in
      let w1 = (parties.find_one q w).1 in
      let keeps = laws.stores.stores.find_one_keeps q w in
      let h1 =
        Coherence.same-IsCoherent parties cache cache_duration_secs docs entries laws Known apart w
          w1 keeps (laws.find_keeps q w) h in
      let run =
        (fetch_fsp_id parties cache cache_duration_secs p.party_type p.party_id p.party_sub_type
          p.currency w).1 in
      elim (Result-cases (parties.find_one q w).0) [
        | inr (x, thrown) ↦ let same : run ≡ w1 = ground arith in subst Coherent (sym same) h1
        | inl (none, read) ↦ let same : run ≡ w1 = ground arith in subst Coherent (sym same) h1
        | inl (some a, read) ↦
            let found = sym (laws.stores.stores.find_one_reads q w (some a) read) in
            let held = found-Holds p a (docs w) found in
            let entry = association a.fsp_id p.party_type p.party_id p.party_sub_type p.currency in
            let same : run
                ≡ (cache.setex (key_of entry) cache_duration_secs (cache.stringify entry) w1).1 =
              ground arith in
            subst Coherent (sym same) (
              Coherence.set-IsCoherent parties cache cache_duration_secs docs entries laws Known
                apart p a.fsp_id w1 known (rw keeps held) h1)
      ]

  pub get_from_cache_world :
      (p : Party) (w : W)
      → (get_from_cache parties cache cache_duration_secs p.party_type p.party_id p.party_sub_type
          p.currency w).1
        ≡ (cache.get (cache_key p) w).1
  unfolding get_from_cache
  get_from_cache_world p w = ground arith

  pub lookup-IsCoherent :
      (p : Party) (w : W)
      → Known p
      → Coherent w
      → Coherent
          (get_participant_fsp_id parties cache cache_duration_secs p.party_type p.party_id
            p.party_sub_type p.currency w).1
  unfolding get_participant_fsp_id
  lookup-IsCoherent p w known h =
      let k = cache_key p in
      let w1 = (cache.get k w).1 in
      let h1 =
        Coherence.same-IsCoherent parties cache cache_duration_secs docs entries laws Known apart w
          w1 (laws.get_docs k w) (laws.get_keeps k w) h in
      let cached =
        get_from_cache parties cache cache_duration_secs p.party_type p.party_id p.party_sub_type
          p.currency w in
      let world : cached.1 ≡ w1 = get_from_cache_world p w in
      let run =
        (get_participant_fsp_id parties cache cache_duration_secs p.party_type p.party_id
          p.party_sub_type p.currency w).1 in
      elim (Result-cases cached.0) [
        | inr (x, thrown) ↦ let same : run ≡ w1 = ground arith in subst Coherent (sym same) h1
        | inl (some a, hit) ↦ let same : run ≡ w1 = ground arith in subst Coherent (sym same) h1
        | inl (none, miss) ↦
            let fetched =
              (fetch_fsp_id parties cache cache_duration_secs p.party_type p.party_id
                p.party_sub_type p.currency w1).1 in
            let same : run ≡ fetched = ground arith in
            subst Coherent (sym same) (fetch-IsCoherent p w1 known h1)
      ]

  pub association-IsCoherent :
      (p : Party) (fsp_id : Nullable) (w : W)
      → Known p
      → Coherent w
      → Coherent
          (associate_participant parties cache cache_duration_secs fsp_id p.party_type p.party_id
            p.party_sub_type p.currency w).1
  unfolding associate_participant
  association-IsCoherent p fsp_id w known h =
      let q = owned_by fsp_id p in
      let w1 = (parties.find_one q w).1 in
      let w2 = (parties.insert_one (document_of q) w1).1 in
      let h1 =
        Coherence.same-IsCoherent parties cache cache_duration_secs docs entries laws Known apart w
          w1 (laws.stores.stores.find_one_keeps q w) (laws.find_keeps q w) h in
      let run =
        (associate_participant parties cache cache_duration_secs fsp_id p.party_type p.party_id
          p.party_sub_type p.currency w).1 in
      elim (Result-cases (parties.find_one q w).0) [
        | inr (x, thrown) ↦ let same : run ≡ w1 = ground arith in subst Coherent (sym same) h1
        | inl (some a, read) ↦ let same : run ≡ w1 = ground arith in subst Coherent (sym same) h1
        | inl (none, read) ↦ elim (Result-cases (parties.insert_one (document_of q) w1).0) [
          | inr (x, thrown) ↦
              let same : run ≡ w2 = ground arith in
              let kept = laws.stores.stores.insert_one_fails (document_of q) w1 x thrown in
              subst Coherent (sym same) (
                Coherence.same-IsCoherent parties cache cache_duration_secs docs entries laws Known
                  apart w1 w2 kept (laws.insert_keeps (document_of q) w1) h1)
          | inl (_, stored) ↦
              let entry = association fsp_id p.party_type p.party_id p.party_sub_type p.currency in
              let same : run
                  ≡ (cache.setex (key_of entry) cache_duration_secs (cache.stringify entry) w2).1 =
                ground arith in
              let added = laws.stores.stores.insert_one_adds (document_of q) w1 stored in
              let (d, found) =
                find-last (matches q) (document_of q) (docs w1) (matches_document fsp_id p) in
              let h2 =
                Coherence.added-IsCoherent parties cache cache_duration_secs docs entries laws Known
                  apart w1 w2 (document_of q ∷ []) added (laws.insert_keeps (document_of q) w1)
                  h1 in
              subst Coherent (sym same) (
                Coherence.set-IsCoherent parties cache cache_duration_secs docs entries laws Known
                  apart p fsp_id w2 known (d, rw added found) h2)
        ]
      ]

  pub disassociation-IsCoherent :
      (p : Party) (fsp_id : Nullable) (w : W)
      → Known p
      → (disassociate_participant parties cache cache_duration_secs fsp_id p.party_type p.party_id
          p.party_sub_type p.currency w).0
        ≡ ok tt
      → Coherent w
      → Coherent
          (disassociate_participant parties cache cache_duration_secs fsp_id p.party_type p.party_id
            p.party_sub_type p.currency w).1
  unfolding disassociate_participant
  disassociation-IsCoherent p fsp_id w known e h =
      let q = owned_by fsp_id p in
      let k = cache_key p in
      let w1 = (parties.delete_one q w).1 in
      let w2 = (cache.del k w1).1 in
      let run =
        (disassociate_participant parties cache cache_duration_secs fsp_id p.party_type p.party_id
          p.party_sub_type p.currency w).1 in
      elim (Result-cases (parties.delete_one q w).0) [
        | inr (x, thrown) ↦ absurd (ground arith)
        | inl (n, deleted) ↦
            let same : run ≡ w2 = ground arith in
            let cleared : (cache.del k w1).0 ≡ ok tt = ground arith in
            let removed =
              laws.stores.del_keeps k w1
              ∙ (laws.stores.stores.delete_one_removes q w n deleted).0 in
            subst Coherent (sym same) (
              Coherence.removed-IsCoherent parties cache cache_duration_secs docs entries laws Known
                apart p fsp_id w w2 known removed
                (λ j. ground (arith, laws.del_clears k w1 cleared j, laws.delete_keeps q w j)) h)
      ]
