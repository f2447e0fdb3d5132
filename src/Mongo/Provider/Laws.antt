-- ===== src/Mongo/Provider/Laws.antt =====
-- What the methods of MongoOracleProviderRepo on single associations answer, and what they do to
-- the collection.
use account_lookup_bc.Common.{
  ℕ, String, Nullable, str, ◌≡◌, ◌≢◌, refl, inl, inr, none, some, arith, ok, Result-cases,
  truthy-eq-some_iff,
}
use account_lookup_bc.Domain.Entities.{Association}
use account_lookup_bc.Mongo.Collection.{Collection}
use account_lookup_bc.Mongo.Provider.{
  Cache, PartyQuery, lookup_query, document_of, get_from_cache, get_participant_fsp_id,
  associate_participant, association, key_of, set_to_cache,
}

-- The cache gives back a text that was just stored under a key, and the text of the association `a`
-- is read back as `a`.
pub record CacheLaws {W : Type 0} (c : Cache W) (a : Association) : Type 0 where
  pub get_after_setex :
      (key : String) (secs : ℕ) (text : String) (w : W)
      → (c.setex key secs text w).0 ≡ ok tt
      → (c.get key (c.setex key secs text w).1).0 ≡ ok (str text)
  pub parse_stringify : c.parse (c.stringify a) ≡ some a
  pub stringify_nonempty : c.stringify a ≢ ""

module _ {W : Type 0} (parties : Collection W Association PartyQuery) (cache : Cache W)
    (cache_duration_secs : ℕ) where
  module _ (fsp_id party_type party_id party_sub_type currency : Nullable)
      (laws : CacheLaws cache (association fsp_id party_type party_id party_sub_type currency))
      (w : W) where
    abbrev pub new_entry : Association
    new_entry = association fsp_id party_type party_id party_sub_type currency

    pub associated_run :
        (associate_participant parties cache cache_duration_secs fsp_id party_type party_id
            party_sub_type currency w).0
          ≡ ok tt
        → (v : W) × ((set_to_cache parties cache cache_duration_secs new_entry v).0 ≡ ok tt)
          × ((associate_participant parties cache cache_duration_secs fsp_id party_type party_id
                party_sub_type currency w).1
              ≡ (set_to_cache parties cache cache_duration_secs new_entry v).1)
    unfolding associate_participant
    associated_run e =
        let query = lookup_query party_id fsp_id party_type party_sub_type currency in
        let w1 = (parties.find_one query w).1 in
        elim (Result-cases (parties.find_one query w).0) [
          | inr (x, thrown) ↦ absurd (ground arith)
          | inl (some a, answered) ↦ absurd (ground arith)
          | inl (none, answered) ↦
              elim (Result-cases (parties.insert_one (document_of query) w1).0) [
                | inr (x, thrown) ↦ absurd (ground arith)
                | inl (_, stored) ↦
                    ((parties.insert_one (document_of query) w1).1, ground arith, ground arith)
              ]
        ]

    pub cached_after_set :
        (v : W)
        → (set_to_cache parties cache cache_duration_secs new_entry v).0 ≡ ok tt
        → (get_from_cache parties cache cache_duration_secs party_type party_id party_sub_type
            currency
            (set_to_cache parties cache cache_duration_secs new_entry v).1).0
          ≡ ok (some new_entry)
    unfolding set_to_cache get_from_cache
    cached_after_set v e =
        let text = cache.stringify new_entry in
        let got = laws.get_after_setex (key_of new_entry) cache_duration_secs text v e in
        let read = (truthy-eq-some_iff (str text) text).1 (refl, laws.stringify_nonempty) in
        ground (arith, got, read, laws.parse_stringify)

    -- With a cache that gives back what was just stored in it and reads the new association's text
    -- back, a lookup that follows an association
    -- that succeeded, with the same party type, id, sub type and currency, answers with the FSP that
    -- was associated.
    get_participant_fsp_id_after_associate :
        (associate_participant parties cache cache_duration_secs fsp_id party_type party_id
            party_sub_type currency w).0
          ≡ ok tt
        → (get_participant_fsp_id parties cache cache_duration_secs party_type party_id
            party_sub_type currency
            (associate_participant parties cache cache_duration_secs fsp_id party_type party_id
              party_sub_type currency w).1).0
          ≡ ok fsp_id
    unfolding get_participant_fsp_id
    get_participant_fsp_id_after_associate e =
        let (v, set, at) = associated_run e in rw at (ground (arith, cached_after_set v set))
