-- ===== src/Mongo/Provider/Entries.antt =====
-- Parties, and the cache of MongoOracleProviderRepo by what it holds.
use account_lookup_bc.Common.{
  ℕ, String, Nullable, undefined, null, str, truthy, ◌≡◌, ◌≢◌, refl, ◌⊎◌, inl, inr, true, false,
  none, some, List, ◌==◌, eq_refl, if◌then◌else◌, find, find-passes, find-found, arith, Error, ok,
  throw, Option-cases,
}
use account_lookup_bc.Domain.Entities.{Association}
use account_lookup_bc.Mongo.Collection.{Collection, fits, fits_if}
use account_lookup_bc.Mongo.Provider.{
  Cache, PartyQuery, party_query, lookup_query, document_of, get_key_with_prefix, if_given,
  field_of,
}
use account_lookup_bc.Mongo.Provider.Storage.{matches, StoreLaws}

-- A party, as the methods name it.
pub record Party : Type 0 where
  pub party_type : Nullable
  pub party_id : Nullable
  pub party_sub_type : Nullable
  pub currency : Nullable

abbrev pub cache_key : Party → String
cache_key p = get_key_with_prefix p.party_type p.party_id p.party_sub_type p.currency

abbrev pub asked_for : Party → PartyQuery
asked_for p = party_query p.party_type p.party_id p.party_sub_type p.currency

abbrev pub owned_by : Nullable → Party → PartyQuery
owned_by fsp_id p = lookup_query p.party_id fsp_id p.party_type p.party_sub_type p.currency

-- The FSP is associated with the party.
abbrev pub Holds : List Association → Nullable → Party → Type 0
Holds docs fsp_id p = (d : Association) × (find (matches (owned_by fsp_id p)) docs ≡ some d)

-- Two parties are the same, or neither share a key of the cache nor are found in one document.
abbrev pub AreApart : (Party → Type 0) → Type 0
AreApart Known =
    (p q : Party)
    → Known p
    → Known q
    → (p ≡ q)
      ⊎ ((cache_key p ≢ cache_key q)
          × ((d : Association) → matches (asked_for p) d ≡ true → matches (asked_for q) d ≡ false))

-- The collection and the cache by what they hold. An entry of the cache may be gone at any time;
-- calls of the one do not touch the other; and JSON reads back the FSP that it has written.
pub record EntryLaws {W : Type 0} (parties : Collection W Association PartyQuery) (cache : Cache W)
    (docs : W → List Association) (entries : W → String → Nullable) : Type 0 where
  pub stores : StoreLaws parties cache docs
  pub find_keeps :
      (q : PartyQuery) (w : W) (j : String) → entries (parties.find_one q w).1 j ≡ entries w j
  pub insert_keeps :
      (d : Association) (w : W) (j : String) → entries (parties.insert_one d w).1 j ≡ entries w j
  pub delete_keeps :
      (q : PartyQuery) (w : W) (j : String) → entries (parties.delete_one q w).1 j ≡ entries w j
  pub get_docs : (k : String) (w : W) → docs (cache.get k w).1 ≡ docs w
  pub get_keeps : (k : String) (w : W) (j : String) → entries (cache.get k w).1 j ≡ entries w j
  pub get_reads :
      (k : String) (w : W) (text : Nullable)
      → (cache.get k w).0 ≡ ok text
      → (truthy text ≡ none) ⊎ (text ≡ entries w k)
  pub setex_sets :
      (k : String) (secs : ℕ) (text : String) (w : W)
      → (cache.setex k secs text w).0 ≡ ok tt
      → (j : String)
      → entries (cache.setex k secs text w).1 j ≡ (if k == j then str text else entries w j)
  pub setex_fails :
      (k : String) (secs : ℕ) (text : String) (w : W) (e : Error)
      → (cache.setex k secs text w).0 ≡ throw e
      → (j : String) → entries (cache.setex k secs text w).1 j ≡ entries w j
  pub del_clears :
      (k : String) (w : W)
      → (cache.del k w).0 ≡ ok tt
      → (j : String) → entries (cache.del k w).1 j ≡ (if k == j then null else entries w j)
  pub reads_back :
      (a b : Association) → cache.parse (cache.stringify a) ≡ some b → b.fsp_id ≡ a.fsp_id

fits_self : (x : Nullable) → fits x x ≡ true
fits_self undefined = refl
fits_self null = refl
fits_self (str s) = eq_refl s

-- A query fits the document that is made of it.
fits_field : (x : Nullable) → fits_if (if_given x) (field_of (if_given x)) ≡ true
fits_field x = elim (Option-cases (truthy x)) [
  | inl absent ↦ ground arith
  | inr (s, present) ↦ ground (arith, fits_self x)
]

pub found-Holds :
    (p : Party) (a : Association) (docs : List Association)
    → find (matches (asked_for p)) docs ≡ some a
    → Holds docs a.fsp_id p
found-Holds p a docs found =
    let owned : matches (owned_by a.fsp_id p) a ≡ true =
      ground (arith, fits_self a.fsp_id, find-passes (matches (asked_for p)) a docs found) in
    find-found (matches (asked_for p)) (matches (owned_by a.fsp_id p)) a docs found owned

pub matches_document :
    (fsp_id : Nullable) (p : Party)
    → matches (owned_by fsp_id p) (document_of (owned_by fsp_id p)) ≡ true
matches_document fsp_id p = ground (
  arith,
  fits_self fsp_id,
  fits_self p.party_type,
  fits_self p.party_id,
  fits_field p.party_sub_type,
  fits_field p.currency,
)

pub owned-disjoint :
    (p q : Party) (fsp_id other : Nullable) (d : Association)
    → (matches (asked_for q) d ≡ true → matches (asked_for p) d ≡ false)
    → matches (owned_by other q) d ≡ true
    → matches (owned_by fsp_id p) d ≡ false
owned-disjoint p q fsp_id other d disjoint e = ground arith
