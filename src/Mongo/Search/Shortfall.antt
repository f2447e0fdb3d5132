-- ===== src/Mongo/Search/Shortfall.antt =====
-- The pages that a search announces cannot hold what it found.
use Prim.Native.Nat.{◌<◌}
use native.Mathlib.Nat.{mul-le-mul_left, div-mul-le_self, lt-div-mul-add}
use account_lookup_bc.Common.{
  ℕ, zero, suc, ◌+◌, ◌*◌, ◌/◌, ◌≤◌, Nullable, ◌≡◌, refl, some, List, [], ◌++◌, length,
  length-append, ceil_divide, ap, ◌∙◌, sym, subst, int, pos, of_count, math_max, arith, Result, ok,
  throw,
}
use account_lookup_bc.Domain.Entities.{Association, AssociationsSearchResults}
use account_lookup_bc.Mongo.Search.{
  Condition, SearchCollection, filter_of, limited_page_size, limited_page_index, search_page,
  search_associations,
}
use account_lookup_bc.Mongo.Search.Pages.{KeepsLimit, search_associations_bounds}

abbrev items_of : Result AssociationsSearchResults → List Association
items_of (ok results) = results.items
items_of (throw _) = []

-- Pages of twenty from pages of forty or more: the arithmetic.
pages_too_few : (n d k : ℕ) → 39 ≤ d → 20 < n → k * suc d ≤ n + d → 20 * k < n
pages_too_few n d zero wide many fits = omega arith
pages_too_few n d (suc zero) wide many fits = omega arith
pages_too_few n d (suc (suc m)) wide many fits =
    let wider : suc m * 40 ≤ suc m * suc d = mul-le-mul_left (suc m) (omega arith) in
    omega (arith, wider)

module _ {W : Type 0} (parties : SearchCollection W)
    (fsp_id party_id party_type party_sub_type currency : Nullable) (d : ℕ) where
  -- One page, of pages of the size `suc d`.
  abbrev pub page : (index : ℕ) → W → Result AssociationsSearchResults × W
  page index =
      search_associations parties fsp_id party_id party_type party_sub_type currency
        (some (of_count index)) (some (of_count (suc d)))

  -- The associations of `count` pages from `index` on, searched for one after the other.
  abbrev pub pages_from : (index count : ℕ) → W → List Association
  pages_from index zero w = []
  pages_from index (suc count) w =
      let (r, w') = page index w in items_of r ++ pages_from (suc index) count w'

  module _ (keeps : KeepsLimit parties) where
    pages_from_bounds : (index count : ℕ) (w : W) → length (pages_from index count w) ≤ 20 * count
    pages_from_bounds index zero w = omega arith
    pages_from_bounds index (suc count) w =
        let (results, run, few, _, _) =
          search_associations_bounds parties keeps fsp_id party_id party_type party_sub_type
            currency (some (of_count index)) (some (of_count (suc d))) w in
        let rest = pages_from_bounds (suc index) count (page index w).1 in
        let first : length (items_of (page index w).0) ≤ 20 =
          subst (λ r. length (items_of r) ≤ 20) (sym run) few in
        let split =
          length-append (items_of (page index w).0)
            (pages_from (suc index) count (page index w).1) in
        omega (arith, split, rest, first)

  search_page_reads :
      (filter : List Condition) (i : ℕ) (w : W) (items entries : List Association)
      → let asked = parties.find_page filter (int (pos (i * suc d))) 20 w in
        asked.0 ≡ ok items
        → (parties.find_matching filter asked.1).0 ≡ ok entries
        → (search_page parties filter (of_count (suc d)) (of_count i) w).0
          ≡ ok (record {
            items = items;
            page_index = of_count i;
            total_pages = ceil_divide (length entries) (of_count (suc d));
            page_size = math_max (of_count (suc d)) (length items);
          })
  unfolding search_page
  search_page_reads filter i w items entries answered counted = ground (arith, answered, counted)

  page-search_page :
      (i : ℕ) (w : W)
      → suc d ≤ 100
      → page i w
        ≡ search_page parties
            (filter_of fsp_id party_id party_type party_sub_type currency)
            (of_count (suc d))
            (of_count i)
            w
  unfolding search_associations
  page-search_page i w small =
      let filter = filter_of fsp_id party_id party_type party_sub_type currency in
      let size : limited_page_size (some (of_count (suc d))) ≡ of_count (suc d) = ground arith in
      let index : limited_page_index (some (of_count i)) ≡ of_count i = ground arith in
      ap (λ x. search_page parties filter x (limited_page_index (some (of_count i))) w) size
      ∙ ap (λ x. search_page parties filter (of_count (suc d)) x w) index

  quotient_bounds : (n : ℕ) → (n ≤ (n + d) / suc d * suc d) × ((n + d) / suc d * suc d ≤ n + d)
  quotient_bounds n =
      let over : n + d < (n + d) / suc d * suc d + suc d = lt-div-mul-add (omega arith) in
      (omega (arith, over), div-mul-le_self (n + d) (suc d))

  -- The pages that hold `n` documents, if each is full.
  ceil_divide_lem :
      (n : ℕ)
      → (k : ℕ) × (ceil_divide n (of_count (suc d)) ≡ of_count k)
        × (n ≤ k * suc d)
        × (k * suc d ≤ n + d)
  ceil_divide_lem zero = let (enough, fits) = quotient_bounds 0 in (_, refl, enough, fits)
  ceil_divide_lem (suc n) = let (enough, fits) = quotient_bounds (suc n) in (_, refl, enough, fits)

  -- Of a database that answers with no more documents than were asked for: where a search for a
  -- page of a size from 40 to 100 succeeds in both its queries, and finds more than twenty
  -- associations, it answers with the documents from the page's index times the size on, and
  -- announces enough pages of that size for all that it found; but the pages that it announces,
  -- searched for one after the other, hold fewer associations than it found, even if the database
  -- changes in between.
  pub search_associations_falls_short :
      KeepsLimit parties
      → (i : ℕ) (w : W) (items entries : List Association)
      → let filter = filter_of fsp_id party_id party_type party_sub_type currency in
        let asked = parties.find_page filter (int (pos (i * suc d))) 20 w in
        40 ≤ suc d
        → suc d ≤ 100
        → asked.0 ≡ ok items
        → (parties.find_matching filter asked.1).0 ≡ ok entries
        → 20 < length entries
        → (results : AssociationsSearchResults) × (k : ℕ) × ((page i w).0 ≡ ok results)
          × (results.items ≡ items)
          × (results.total_pages ≡ of_count k)
          × (length entries ≤ k * suc d)
          × ((w' : W) → length (pages_from 0 k w') < length entries)
  search_associations_falls_short keeps i w items entries wide small answered counted many =
      let filter = filter_of fsp_id party_id party_type party_sub_type currency in
      let (k, announced, enough, fits) = ceil_divide_lem (length entries) in
      let few = pages_too_few (length entries) d k (omega arith) many fits in
      (
        _,
        k,
        ap (λ (r : Result AssociationsSearchResults × W). r.0) (page-search_page i w small)
            ∙ search_page_reads filter i w items entries answered counted,
        refl,
        announced,
        enough,
        λ w'. omega (arith, few, pages_from_bounds keeps 0 k w'),
      )
