-- ===== src/Mongo/Provider/Stale.antt =====
-- A lookup that leaves the currency out, and what a disassociation that names it leaves behind.
use account_lookup_bc.Common.{
  ℕ, String, Nullable, null, str, ◌≡◌, ◌≢◌, ap, ◌∙◌, true, eq_iff, eq_refl, Result, some, List, [],
  ◌∷◌, find, remove_first, arith, ok,
}
use account_lookup_bc.Domain.Entities.{Association}
use account_lookup_bc.Mongo.Collection.{Collection}
use account_lookup_bc.Mongo.Provider.{
  Cache, PartyQuery, association, document_of, get_participant_fsp_id, disassociate_participant,
}
use account_lookup_bc.Mongo.Provider.Storage.{matches}
use account_lookup_bc.Mongo.Provider.Entries.{
  Party, cache_key, asked_for, owned_by, EntryLaws, matches_document,
}

-- Every call succeeds, and no entry of the cache goes before its time.
pub record Steady {W : Type 0} (parties : Collection W Association PartyQuery) (cache : Cache W)
    (docs : W → List Association) (entries : W → String → Nullable) : Type 0 where
  pub finds : (q : PartyQuery) (w : W) → (parties.find_one q w).0 ≡ ok (find (matches q) (docs w))
  pub deletes : (q : PartyQuery) (w : W) → (n : ℕ) × ((parties.delete_one q w).0 ≡ ok n)
  pub reads : (k : String) (w : W) → (cache.get k w).0 ≡ ok (entries w k)
  pub writes :
      (k : String) (secs : ℕ) (text : String) (w : W) → (cache.setex k secs text w).0 ≡ ok tt
  pub clears : (k : String) (w : W) → (cache.del k w).0 ≡ ok tt

module _ {W : Type 0} (parties : Collection W Association PartyQuery) (cache : Cache W)
    (cache_duration_secs : ℕ) (docs : W → List Association) (entries : W → String → Nullable)
    (laws : EntryLaws parties cache docs entries) (steady : Steady parties cache docs entries) where
  abbrev pub look_up : Party → W → Result Nullable × W
  look_up p =
      get_participant_fsp_id parties cache cache_duration_secs p.party_type p.party_id
        p.party_sub_type p.currency

  abbrev pub disassociate : Nullable → Party → W → Result Unit × W
  disassociate fsp_id p =
      disassociate_participant parties cache cache_duration_secs fsp_id p.party_type p.party_id
        p.party_sub_type p.currency

  abbrev entry_for : Nullable → Party → Association
  entry_for fsp_id p = association fsp_id p.party_type p.party_id p.party_sub_type p.currency

  -- A lookup that asks the collection keeps the answer under the key it was asked with.
  lookup_caches :
      (p : Party) (d : Association) (w : W)
      → entries w (cache_key p) ≡ null
      → find (matches (asked_for p)) (docs w) ≡ some d
      → (docs (look_up p w).1 ≡ docs w)
        × (entries (look_up p w).1 (cache_key p) ≡ str (cache.stringify (entry_for d.fsp_id p)))
  unfolding get_participant_fsp_id
  lookup_caches p d w empty found =
      let k = cache_key p in
      let text = cache.stringify (entry_for d.fsp_id p) in
      let w1 = (cache.get k w).1 in
      let w2 = (parties.find_one (asked_for p) w1).1 in
      let w3 = (cache.setex k cache_duration_secs text w2).1 in
      let miss = steady.reads k w ∙ ap ok empty in
      let same = laws.get_docs k w in
      let answer =
        steady.finds (asked_for p) w1
        ∙ ap (λ ds. ok (find (matches (asked_for p)) ds)) same
        ∙ ap ok found in
      let run : (look_up p w).1 ≡ w3 = ground (arith, miss, answer) in
      let stored =
        laws.stores.setex_keeps k cache_duration_secs text w2
        ∙ laws.stores.stores.find_one_keeps (asked_for p) w1
        ∙ same in
      let sets =
        laws.setex_sets k cache_duration_secs text w2 (steady.writes k cache_duration_secs text w2)
          k in
      (rw run stored, rw run (ground (arith, sets, eq_refl k)))

  disassociation_leaves :
      (p q : Party) (fsp_id : Nullable) (w : W)
      → cache_key q ≢ cache_key p
      → (docs (disassociate fsp_id q w).1 ≡ remove_first (matches (owned_by fsp_id q)) (docs w))
        × (entries (disassociate fsp_id q w).1 (cache_key p) ≡ entries w (cache_key p))
  unfolding disassociate_participant
  disassociation_leaves p q fsp_id w other =
      let k = cache_key q in
      let query = owned_by fsp_id q in
      let w1 = (parties.delete_one query w).1 in
      let (n, deleted) = steady.deletes query w in
      let cleared = steady.clears k w1 in
      let run : (disassociate fsp_id q w).1 ≡ (cache.del k w1).1 = ground (arith, deleted) in
      let removed =
        laws.stores.del_keeps k w1 ∙ (laws.stores.stores.delete_one_removes query w n deleted).0 in
      let left = laws.del_clears k w1 cleared (cache_key p) in
      (
        rw run removed,
        rw run (
            ground (
              arith,
              left,
              other,
              eq_iff k (cache_key p),
              laws.delete_keeps query w (cache_key p),
            )),
      )

  lookup_hits :
      (p : Party) (text : String) (a : Association) (w : W)
      → entries w (cache_key p) ≡ str text
      → text ≢ ""
      → cache.parse text ≡ some a
      → (look_up p w).0 ≡ ok a.fsp_id
  unfolding get_participant_fsp_id
  lookup_hits p text a w entry full parsed =
      ground (arith, steady.reads (cache_key p) w, entry, eq_iff text "")

  -- Where every call succeeds and the cache keeps its entries: one association of a party `q` is
  -- stored, and a lookup of `p`, under another key of the cache, finds it, such as one that leaves
  -- the currency out. After that lookup the association is removed; the collection is then empty,
  -- and the same lookup still answers with the FSP.
  pub answers_after_removal :
      (p q : Party) (fsp_id : Nullable) (b : Association) (w : W)
      → docs w ≡ document_of (owned_by fsp_id q) ∷ []
      → entries w (cache_key p) ≡ null
      → cache_key q ≢ cache_key p
      → matches (asked_for p) (document_of (owned_by fsp_id q)) ≡ true
      → cache.parse (cache.stringify (entry_for fsp_id p)) ≡ some b
      → cache.stringify (entry_for fsp_id p) ≢ ""
      → let v = (disassociate fsp_id q (look_up p w).1).1 in
        (docs v ≡ []) × ((look_up p v).0 ≡ ok fsp_id)
  answers_after_removal p q fsp_id b w one empty other found parsed full =
      let d = document_of (owned_by fsp_id q) in
      let u = (look_up p w).1 in
      let v = (disassociate fsp_id q u).1 in
      let text = cache.stringify (entry_for fsp_id p) in
      let (kept, cached) = lookup_caches p d w empty (rw one (ground (arith, found))) in
      let (removed, left) = disassociation_leaves p q fsp_id u other in
      let gone : remove_first (matches (owned_by fsp_id q)) (d ∷ []) ≡ [] =
        ground (arith, matches_document fsp_id q) in
      let read = laws.reads_back (entry_for fsp_id p) b parsed in
      (
        removed ∙ ap (remove_first (matches (owned_by fsp_id q))) (kept ∙ one) ∙ gone,
        lookup_hits p text b v (left ∙ cached) full parsed ∙ ap ok read,
      )
