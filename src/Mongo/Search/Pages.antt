-- ===== src/Mongo/Search/Pages.antt =====
-- The bounds of what a search by page answers.
use account_lookup_bc.Common.{
  ℕ, ◌≤◌, Nullable, ◌≡◌, refl, inl, inr, some, Option, none, List, length, Number, math_max, times,
  ceil_divide, sym, subst, int, pos, negsuc, arith, ok, Result-cases,
}
use account_lookup_bc.Domain.Entities.{Association, AssociationsSearchResults}
use account_lookup_bc.Mongo.Search.{
  Condition, SearchCollection, filter_of, limited_page_size, limited_page_index, no_results,
  search_page, search_associations,
}

-- The number is 0 or more.
abbrev pub IsNotNegative : Number → Type 0
IsNotNegative (int (pos n)) = Unit
IsNotNegative Number.infinity = Unit
IsNotNegative Number.nan = Unit
IsNotNegative _ = ⊥

-- The number does not exceed the count `n`.
abbrev pub IsAtMost : ℕ → Number → Type 0
IsAtMost n (int (pos m)) = m ≤ n
IsAtMost n Number.infinity = ⊥
IsAtMost n _ = Unit

index-IsNotNegative : (page_index : Option Number) → IsNotNegative (limited_page_index page_index)
index-IsNotNegative none = tt
index-IsNotNegative (some (int (pos k))) = ground arith
index-IsNotNegative (some (int (negsuc k))) = tt
index-IsNotNegative (some Number.infinity) = tt
index-IsNotNegative (some Number.minus_infinity) = tt
index-IsNotNegative (some Number.nan) = tt

size-IsAtMost : (page_size : Option Number) → IsAtMost 100 (limited_page_size page_size)
size-IsAtMost none = omega arith
size-IsAtMost (some (int (pos k))) = ground arith
size-IsAtMost (some (int (negsuc k))) = tt
size-IsAtMost (some Number.infinity) = omega arith
size-IsAtMost (some Number.minus_infinity) = tt
size-IsAtMost (some Number.nan) = tt

math_max-IsAtMost :
    (n floor : ℕ) (x : Number) → IsAtMost n x → floor ≤ n → IsAtMost n (math_max x floor)
math_max-IsAtMost n floor (int (pos k)) h few = ground arith
math_max-IsAtMost n floor (int (negsuc k)) h few = few
math_max-IsAtMost n floor Number.infinity h few = h
math_max-IsAtMost n floor Number.minus_infinity h few = few
math_max-IsAtMost n floor Number.nan h few = tt

-- The database answers with no more documents than were asked for.
abbrev pub KeepsLimit : {W : Type 0} → SearchCollection W → Type 0
KeepsLimit {W} parties =
    (filter : List Condition) (skip : Number) (n : ℕ) (w : W) (found : List Association)
    → (parties.find_page filter skip n w).0 ≡ ok found
    → length found ≤ n

module _ {W : Type 0} (parties : SearchCollection W) (keeps : KeepsLimit parties) where
  search_page_bounds :
      (filter : List Condition) (page_size page_index : Number) (w : W)
      → IsAtMost 100 page_size
      → (results : AssociationsSearchResults) × ((search_page parties filter page_size page_index
            w).0
          ≡ ok results)
        × (length results.items ≤ 20)
        × (results.page_index ≡ page_index)
        × IsAtMost 100 results.page_size
  unfolding search_page
  search_page_bounds filter page_size page_index w small =
      let skip = times page_index page_size in
      let w1 = (parties.find_page filter skip 20 w).1 in
      let results = no_results page_size page_index in
      elim (Result-cases (parties.find_page filter skip 20 w).0) [
        | inr (e, thrown) ↦ (results, ground arith, omega arith, refl, small)
        | inl (items, answered) ↦
            let few = keeps filter skip 20 w items answered in
            elim (Result-cases (parties.find_matching filter w1).0) [
              | inr (e, thrown) ↦ (record results { items = items }, ground arith, few, refl, small)
              | inl (entries, counted) ↦ (
                record results {
                  items = items;
                  total_pages = ceil_divide (length entries) page_size;
                  page_size = math_max page_size (length items);
                },
                ground arith,
                few,
                refl,
                math_max-IsAtMost 100 (length items) page_size small (omega (arith, few)),
              )
            ]
      ]

  -- Of a database that answers with no more documents than were asked for: a search never throws,
  -- whatever the database does; it answers with at most twenty associations, with a page index that
  -- is not negative, and with a page size that is not above a hundred.
  pub search_associations_bounds :
      (fsp_id party_id party_type party_sub_type currency : Nullable)
      (page_index page_size : Option Number) (w : W)
      → (results : AssociationsSearchResults) × ((search_associations parties fsp_id party_id
            party_type party_sub_type currency page_index page_size w).0
          ≡ ok results)
        × (length results.items ≤ 20)
        × IsNotNegative results.page_index
        × IsAtMost 100 results.page_size
  unfolding search_associations
  search_associations_bounds fsp_id party_id party_type party_sub_type currency page_index page_size
        w =
      let filter = filter_of fsp_id party_id party_type party_sub_type currency in
      let (results, run, few, same, small) =
        search_page_bounds filter (limited_page_size page_size) (limited_page_index page_index) w
          (size-IsAtMost page_size) in
      (results, run, few, subst IsNotNegative (sym same) (index-IsNotNegative page_index), small)
