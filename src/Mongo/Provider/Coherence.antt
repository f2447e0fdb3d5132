-- ===== src/Mongo/Provider/Coherence.antt =====
-- Whether the cache of MongoOracleProviderRepo agrees with the collection, one write after another.
pub mod Calls
use account_lookup_bc.Common.{
  ℕ, String, Nullable, null, str, ◌≡◌, sym, ap, subst, ◌∙◌, inl, inr, true, none, some, List, [],
  ◌∷◌, ◌++◌, ◌==◌, eq_iff, if◌then◌else◌, find-passes, find-append, find-last, find-found,
  find-remove_first, remove_first, arith, ok, Result-cases,
}
use account_lookup_bc.Domain.Entities.{Association}
use account_lookup_bc.Mongo.Collection.{Collection}
use account_lookup_bc.Mongo.Provider.{
  Cache, PartyQuery, association, key_of, document_of, fetch_fsp_id, get_from_cache,
  get_participant_fsp_id, associate_participant, disassociate_participant,
}
use account_lookup_bc.Mongo.Provider.Storage.{matches}
use account_lookup_bc.Mongo.Provider.Entries.{
  Party, cache_key, asked_for, owned_by, Holds, AreApart, EntryLaws, matches_document,
  owned-disjoint,
}

module _ {W : Type 0} (parties : Collection W Association PartyQuery) (cache : Cache W)
    (cache_duration_secs : ℕ) (docs : W → List Association) (entries : W → String → Nullable)
    (laws : EntryLaws parties cache docs entries) (Known : Party → Type 0)
    (apart : AreApart Known) where
  -- Every entry of the cache under the key of a known party has an FSP that is associated with it.
  pub record IsCoherent (w : W) : Type 0 where
    pub backed :
        (p : Party) (text : String) (a : Association)
        → Known p
        → entries w (cache_key p) ≡ str text
        → cache.parse text ≡ some a
        → Holds (docs w) a.fsp_id p

  pub same-IsCoherent :
      (w w' : W)
      → docs w' ≡ docs w
      → ((j : String) → entries w' j ≡ entries w j)
      → IsCoherent w
      → IsCoherent w'
  same-IsCoherent w w' stored kept h = record {
    backed = λ p text a known e parsed.
        rw stored (h.backed p text a known (sym (kept (cache_key p)) ∙ e) parsed);
  }

  pub added-IsCoherent :
      (w w' : W) (ds : List Association)
      → docs w' ≡ docs w ++ ds
      → ((j : String) → entries w' j ≡ entries w j)
      → IsCoherent w
      → IsCoherent w'
  added-IsCoherent w w' ds stored kept h = record {
    backed = λ p text a known e parsed.
        let (d, found) = h.backed p text a known (sym (kept (cache_key p)) ∙ e) parsed in
        (d, rw stored (find-append (matches (owned_by a.fsp_id p)) d (docs w) ds found));
  }

  -- An entry is written for a party that the FSP is associated with; or the write fails.
  -- A document of a party is removed, and its entry is cleared.
  pub removed-IsCoherent :
      (p : Party) (fsp_id : Nullable) (w w' : W)
      → Known p
      → docs w' ≡ remove_first (matches (owned_by fsp_id p)) (docs w)
      → ((j : String) → entries w' j ≡ (if cache_key p == j then null else entries w j))
      → IsCoherent w
      → IsCoherent w'
  removed-IsCoherent p fsp_id w w' known_p removed cleared h = record {
    backed = λ q text a known_q e parsed.
        let clear = cleared (cache_key q) in
        elim (apart q p known_q known_p) [
          | inl same ↦
              let keys = ap cache_key same in
              absurd (ground (arith, clear, e, keys, eq_iff (cache_key p) (cache_key q)))
          | inr (other, disjoint) ↦
              let old : entries w (cache_key q) ≡ str text = ground (arith, clear, e) in
              let stays =
                find-remove_first (matches (owned_by a.fsp_id q)) (matches (owned_by fsp_id p))
                  (λ d. owned-disjoint p q fsp_id a.fsp_id d (disjoint d)) (docs w) in
              let (d, found) = h.backed q text a known_q old parsed in
              (d, rw removed (stays ∙ found))
        ];
  }

  pub set-IsCoherent :
      (p : Party) (fsp_id : Nullable) (w : W)
      → Known p
      → Holds (docs w) fsp_id p
      → IsCoherent w
      → let a = association fsp_id p.party_type p.party_id p.party_sub_type p.currency in
        IsCoherent (cache.setex (key_of a) cache_duration_secs (cache.stringify a) w).1
  set-IsCoherent p fsp_id w known_p held h =
      let a = association fsp_id p.party_type p.party_id p.party_sub_type p.currency in
      let written = cache.stringify a in
      let w' = (cache.setex (cache_key p) cache_duration_secs written w).1 in
      let kept = laws.stores.setex_keeps (cache_key p) cache_duration_secs written w in
      elim (Result-cases (cache.setex (cache_key p) cache_duration_secs written w).0) [
        | inr (x, thrown) ↦
            same-IsCoherent w w' kept
              (laws.setex_fails (cache_key p) cache_duration_secs written w x thrown) h
        | inl (_, done) ↦ record {
          backed = λ q text b known_q e parsed.
              let sets =
                laws.setex_sets (cache_key p) cache_duration_secs written w done (cache_key q) in
              elim (apart p q known_p known_q) [
                | inl same ↦
                    let keys = ap cache_key same in
                    let texts : written ≡ text =
                      ground (arith, sets, e, keys, eq_iff (cache_key p) (cache_key q)) in
                    let read = laws.reads_back a b (rw texts parsed) in
                    rw kept (subst (λ r. Holds (docs w) b.fsp_id r) same (rw read held))
                | inr (other, _) ↦
                    let old : entries w (cache_key q) ≡ str text =
                      ground (arith, sets, e, other, eq_iff (cache_key p) (cache_key q)) in
                    rw kept (h.backed q text b known_q old parsed)
              ];
        }
      ]
