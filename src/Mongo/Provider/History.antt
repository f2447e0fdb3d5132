-- ===== src/Mongo/Provider/History.antt =====
-- What a lookup answers after any history of calls of MongoOracleProviderRepo.
use account_lookup_bc.Common.{
  ℕ, String, Nullable, null, str, truthy, ◌≡◌, sym, ◌∙◌, ◌⊎◌, inl, inr, none, some, List, find,
  arith, Result, ok, Result-cases, Option-cases, truthy-eq-some_iff,
}
use account_lookup_bc.Domain.Entities.{Association}
use account_lookup_bc.Mongo.Collection.{Collection}
use account_lookup_bc.Mongo.Provider.{
  Cache, PartyQuery, get_from_cache, fetch_fsp_id, get_participant_fsp_id, associate_participant,
  disassociate_participant,
}
use account_lookup_bc.Mongo.Provider.Storage.{matches}
use account_lookup_bc.Mongo.Provider.Entries.{
  Party, cache_key, asked_for, Holds, AreApart, EntryLaws, found-Holds,
}
use account_lookup_bc.Mongo.Provider.Coherence.{IsCoherent, same-IsCoherent}
use account_lookup_bc.Mongo.Provider.Coherence.Calls.{
  lookup-IsCoherent, association-IsCoherent, disassociation-IsCoherent, get_from_cache_world,
}

module _ {W : Type 0} (parties : Collection W Association PartyQuery) (cache : Cache W)
    (cache_duration_secs : ℕ) (docs : W → List Association) (entries : W → String → Nullable)
    (laws : EntryLaws parties cache docs entries) (Known : Party → Type 0)
    (apart : AreApart Known) where
  abbrev pub look_up : Party → W → Result Nullable × W
  look_up p =
      get_participant_fsp_id parties cache cache_duration_secs p.party_type p.party_id
        p.party_sub_type p.currency

  abbrev pub associate : Nullable → Party → W → Result Unit × W
  associate fsp_id p =
      associate_participant parties cache cache_duration_secs fsp_id p.party_type p.party_id
        p.party_sub_type p.currency

  abbrev pub disassociate : Nullable → Party → W → Result Unit × W
  disassociate fsp_id p =
      disassociate_participant parties cache cache_duration_secs fsp_id p.party_type p.party_id
        p.party_sub_type p.currency

  -- What may happen: a lookup or an association, which may fail, and a disassociation that
  -- succeeds, of known parties; and whatever leaves the collection and the cache alone.
  pub data Step : W → W → Type 0 where
    lookup : (p : Party) (w : W) → Known p → Step w (look_up p w).1
    association :
        (fsp_id : Nullable) (p : Party) (w : W) → Known p → Step w (associate fsp_id p w).1
    disassociation :
        (fsp_id : Nullable) (p : Party) (w : W)
        → Known p
        → (disassociate fsp_id p w).0 ≡ ok tt
        → Step w (disassociate fsp_id p w).1
    other : (w w' : W) → docs w' ≡ docs w → ((j : String) → entries w' j ≡ entries w j) → Step w w'

  pub data Reach (w : W) : W → Type 0 where
    here : Reach w w
    next : {u v : W} → Reach w u → Step u v → Reach w v

  abbrev Coherent : W → Type 0
  Coherent = IsCoherent parties cache cache_duration_secs docs entries laws Known apart

  Step-IsCoherent : {u v : W} → Step u v → Coherent u → Coherent v
  Step-IsCoherent (lookup p w known) h =
      lookup-IsCoherent parties cache cache_duration_secs docs entries laws Known apart p w known h
  Step-IsCoherent (association fsp_id p w known) h =
      association-IsCoherent parties cache cache_duration_secs docs entries laws Known apart p
        fsp_id w known h
  Step-IsCoherent (disassociation fsp_id p w known done) h =
      disassociation-IsCoherent parties cache cache_duration_secs docs entries laws Known apart p
        fsp_id w known done h
  Step-IsCoherent (other w w' stored kept) h =
      same-IsCoherent parties cache cache_duration_secs docs entries laws Known apart w w' stored
        kept h

  Reach-IsCoherent : {w v : W} → Coherent w → Reach w v → Coherent v
  Reach-IsCoherent h here = h
  Reach-IsCoherent h (next r step) = Step-IsCoherent step (Reach-IsCoherent h r)

  empty-IsCoherent : (w : W) → ((j : String) → entries w j ≡ null) → Coherent w
  empty-IsCoherent w empty = record {
    backed = λ p text a known e parsed. absurd (ground (arith, empty (cache_key p)));
  }

  get_from_cache_hit :
      (p : Party) (w : W) (a : Association)
      → (get_from_cache parties cache cache_duration_secs p.party_type p.party_id p.party_sub_type
          p.currency w).0
        ≡ ok (some a)
      → (text : String) × (entries w (cache_key p) ≡ str text) × (cache.parse text ≡ some a)
  unfolding get_from_cache
  get_from_cache_hit p w a e = elim (Result-cases (cache.get (cache_key p) w).0) [
    | inr (x, thrown) ↦ absurd (ground arith)
    | inl (t, read) ↦ elim (Option-cases (truthy t)) [
      | inl absent ↦ absurd (ground arith)
      | inr (text, present) ↦ elim (laws.get_reads (cache_key p) w t read) [
        | inl gone ↦ absurd (ground arith)
        | inr same ↦
            let whole = (truthy-eq-some_iff t text).0 present in
            (text, sym same ∙ whole.0, ground arith)
      ]
    ]
  ]

  -- What a lookup that succeeds says of a party: nobody has it, or an FSP that has it.
  abbrev pub IsCurrent : Nullable → Party → W → Type 0
  IsCurrent fsp_id p w =
      ((fsp_id ≡ null) × (find (matches (asked_for p)) (docs w) ≡ none)) ⊎ Holds (docs w) fsp_id p

  fetch-IsCurrent :
      (p : Party) (w : W) (fsp_id : Nullable)
      → (fetch_fsp_id parties cache cache_duration_secs p.party_type p.party_id p.party_sub_type
          p.currency w).0
        ≡ ok fsp_id
      → IsCurrent fsp_id p w
  unfolding fetch_fsp_id
  fetch-IsCurrent p w fsp_id e =
      let q = asked_for p in
      let reads = laws.stores.stores.find_one_reads q w in
      elim (Result-cases (parties.find_one q w).0) [
        | inr (x, thrown) ↦ absurd (ground arith)
        | inl (none, read) ↦ inl (ground arith, sym (reads none read))
        | inl (some a, read) ↦
            let same : a.fsp_id ≡ fsp_id = ground arith in
            inr (rw (← same) (found-Holds p a (docs w) (sym (reads (some a) read))))
      ]

  -- Over a collection and a cache that behave as documented (an entry of the cache may go at any
  -- time), for parties that neither share a key of the cache nor a document: after any history of
  -- lookups and associations, failed ones included, and of disassociations that succeed, from an
  -- empty cache, a lookup that succeeds answers null, while no document is the party's, or an FSP
  -- that is associated with the party.
  pub lookup-IsCurrent :
      {w v : W}
      → ((j : String) → entries w j ≡ null)
      → Reach w v
      → (p : Party) (fsp_id : Nullable) → Known p
      → (look_up p v).0 ≡ ok fsp_id
      → IsCurrent fsp_id p v
  unfolding get_participant_fsp_id
  lookup-IsCurrent {w} {v} empty r p fsp_id known e =
      let h = Reach-IsCoherent (empty-IsCoherent w empty) r in
      let v1 = (cache.get (cache_key p) v).1 in
      let cached =
        get_from_cache parties cache cache_duration_secs p.party_type p.party_id p.party_sub_type
          p.currency v in
      let world : cached.1 ≡ v1 =
        get_from_cache_world parties cache cache_duration_secs docs entries laws Known apart p v in
      elim (Result-cases cached.0) [
        | inr (x, thrown) ↦ absurd (ground arith)
        | inl (some a, hit) ↦
            let (text, entry, parsed) = get_from_cache_hit p v a hit in
            let same : a.fsp_id ≡ fsp_id = ground arith in
            inr (rw (← same) (h.backed p text a known entry parsed))
        | inl (none, miss) ↦
            let fetched = fetch-IsCurrent p v1 fsp_id (ground arith) in
            rw (← laws.get_docs (cache_key p) v) fetched
      ]
