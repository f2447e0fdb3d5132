-- ===== src/Mongo/Provider/Storage.antt =====
-- What associating and disassociating do to the collection of MongoOracleProviderRepo.
use account_lookup_bc.Common.{
  ℕ, String, Nullable, ◌≡◌, ap, ◌∙◌, inl, inr, none, some, List, [], ◌∷◌, ◌++◌, Bool, ◌&&◌, find,
  remove_first, arith, ok, Result-cases,
}
use account_lookup_bc.Domain.Entities.{Association}
use account_lookup_bc.Mongo.Collection.{Collection, CollectionLaws, fits_if}
use account_lookup_bc.Mongo.Provider.{
  Cache, PartyQuery, association, key_of, lookup_query, document_of, associate_participant,
  disassociate_participant, set_to_cache, del_from_cache,
}

-- Which documents of the collection a query of the provider picks.
abbrev pub matches : PartyQuery → Association → Bool
matches q a =
    fits_if q.fsp_id a.fsp_id
    && (fits_if q.party_type a.party_type
        && (fits_if q.party_id a.party_id
            && (fits_if q.party_sub_type a.party_sub_type && fits_if q.currency a.currency)))

-- The collection keeps its documented behaviour, and writing to the cache does not touch it.
pub record StoreLaws {W : Type 0} (parties : Collection W Association PartyQuery) (cache : Cache W)
    (docs : W → List Association) : Type 0 where
  pub stores : CollectionLaws parties docs matches
  pub setex_keeps :
      (key : String) (secs : ℕ) (text : String) (w : W)
      → docs (cache.setex key secs text w).1 ≡ docs w
  pub del_keeps : (key : String) (w : W) → docs (cache.del key w).1 ≡ docs w

module _ {W : Type 0} (parties : Collection W Association PartyQuery) (cache : Cache W)
    (cache_duration_secs : ℕ) (docs : W → List Association) (laws : StoreLaws parties cache docs)
    (fsp_id party_type party_id party_sub_type currency : Nullable) (w : W) where
  -- Over a collection that behaves as documented and that the cache does not touch: an association
  -- that succeeds has found no document of the same FSP for the party, and adds one at the end of
  -- the collection, in which an empty sub type or currency is left out.
  associate_participant_stores :
      (associate_participant parties cache cache_duration_secs fsp_id party_type party_id
          party_sub_type currency w).0
        ≡ ok tt
      → let query = lookup_query party_id fsp_id party_type party_sub_type currency in
        (find (matches query) (docs w) ≡ none)
        × (docs
              (associate_participant parties cache cache_duration_secs fsp_id party_type party_id
                party_sub_type currency w).1
            ≡ docs w ++ document_of query ∷ [])
  unfolding associate_participant set_to_cache
  associate_participant_stores e =
      let query = lookup_query party_id fsp_id party_type party_sub_type currency in
      let entry = association fsp_id party_type party_id party_sub_type currency in
      let w1 = (parties.find_one query w).1 in
      let w2 = (parties.insert_one (document_of query) w1).1 in
      elim (Result-cases (parties.find_one query w).0) [
        | inr (x, thrown) ↦ absurd (ground arith)
        | inl (some a, answered) ↦ absurd (ground arith)
        | inl (none, answered) ↦ elim (Result-cases (parties.insert_one (document_of query) w1).0) [
          | inr (x, thrown) ↦ absurd (ground arith)
          | inl (_, stored) ↦
              let added : docs w2 ≡ docs w ++ document_of query ∷ [] =
                laws.stores.insert_one_adds (document_of query) w1 stored
                ∙ ap (λ ds. ds ++ document_of query ∷ []) (laws.stores.find_one_keeps query w) in
              (
                ground (arith, laws.stores.find_one_reads query w none answered),
                ground (
                  arith,
                  laws.setex_keeps (key_of entry) cache_duration_secs (cache.stringify entry) w2,
                  added,
                ),
              )
        ]
      ]

  -- Over a collection that behaves as documented and that the cache does not touch: a
  -- disassociation that succeeds takes the first document of the FSP and party out of the
  -- collection, and leaves the collection as it was if there is none.
  disassociate_participant_removes :
      (disassociate_participant parties cache cache_duration_secs fsp_id party_type party_id
          party_sub_type currency w).0
        ≡ ok tt
      → let query = lookup_query party_id fsp_id party_type party_sub_type currency in
        docs
          (disassociate_participant parties cache cache_duration_secs fsp_id party_type party_id
            party_sub_type currency w).1
        ≡ remove_first (matches query) (docs w)
  unfolding disassociate_participant del_from_cache
  disassociate_participant_removes e =
      let query = lookup_query party_id fsp_id party_type party_sub_type currency in
      let entry = association fsp_id party_type party_id party_sub_type currency in
      let w1 = (parties.delete_one query w).1 in
      elim (Result-cases (parties.delete_one query w).0) [
        | inr (x, thrown) ↦ absurd (ground arith)
        | inl (n, deleted) ↦ ground (
          arith,
          laws.del_keeps (key_of entry) w1,
          (laws.stores.delete_one_removes query w n deleted).0,
        )
      ]
