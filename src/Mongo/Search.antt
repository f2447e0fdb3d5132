-- ===== src/Mongo/Search.antt =====
-- The search by page and the terms to search for, of class MongoOracleProviderRepo in
-- packages/implementations-lib/src/oracles/adapters/builtin/mongo_oracleprovider.ts.
pub mod Pages
pub mod Shortfall
pub mod Terms
use account_lookup_bc.Common.{
  ℕ, String, Nullable, truthy, strict_eq, Bool, true, false, Option, none, some, List, [], ◌∷◌,
  ◌++◌, length, if◌then◌else◌, Number, int, pos, of_count, math_min, math_max, times, ceil_divide,
  Action, Result, ok, throw, attempt, pure, ◌>>=◌,
}
use account_lookup_bc.Domain.Entities.{Association, AssociationsSearchResults, SearchKeywords}

-- What is pushed to `filter.$and`; a condition marked `like` is a regular expression that ignores
-- the case.
pub data Condition : Type 0 where
  fsp_id_is party_id_like party_type_is party_sub_type_like currency_is : String → Condition

-- The key of a group of documents with the same three fields.
pub record Group : Type 0 where
  pub party_type : Nullable
  pub currency : Nullable
  pub fsp_id : Nullable

-- What the two methods ask of the collection: the documents of a filter, sorted, from `skip` on
-- and at most `limit` of them; all documents of a filter; and the groups that the aggregation
-- yields before it ends or fails.
pub record SearchCollection (W : Type 0) : Type 0 where
  pub find_page : List Condition → (skip : Number) → (limit : ℕ) → Action W (List Association)
  pub find_matching : List Condition → Action W (List Association)
  pub groups : W → List Group × W

-- `MAX_ENTRIES_PER_PAGE`
abbrev pub max_entries_per_page : ℕ
max_entries_per_page = 100

-- the option `limit`
abbrev pub limit : ℕ
limit = 20

-- `if (value) { filter.$and.push(…) }`
abbrev pub condition_if : (String → Condition) → Nullable → List Condition
condition_if make value = elim (truthy value) [ none ↦ [] | some s ↦ make s ∷ [] ]

abbrev pub filter_of :
    (fsp_id party_id party_type party_sub_type currency : Nullable) → List Condition
filter_of fsp_id party_id party_type party_sub_type currency =
    condition_if fsp_id_is fsp_id
    ++ (condition_if party_id_like party_id
        ++ (condition_if party_type_is party_type
            ++ (condition_if party_sub_type_like party_sub_type
                ++ condition_if currency_is currency)))

-- A parameter with a default value.
abbrev pub default : Number → Option Number → Number
default number none = number
default number (some given) = given

abbrev pub limited_page_size : Option Number → Number
limited_page_size page_size =
    math_min (default (of_count max_entries_per_page) page_size) max_entries_per_page

abbrev pub limited_page_index : Option Number → Number
limited_page_index page_index = math_max (default (of_count 0) page_index) 0

-- `searchResults` before the database is asked
abbrev pub no_results : Number → Number → AssociationsSearchResults
no_results page_size page_index = record {
  page_size = page_size;
  page_index = page_index;
  total_pages = of_count 0;
  items = [];
}

module _ {W : Type 0} (parties : SearchCollection W) where
  -- The `try` block: what `searchResults` holds when it ends or throws.
  unfoldable pub search_page :
      List Condition → (page_size page_index : Number) → Action W AssociationsSearchResults
  search_page filter page_size page_index = do
    let results = no_results page_size page_index
    page ← attempt (parties.find_page filter (times page_index page_size) limit)
    elim page [
      | throw _ ↦ pure results
      | ok items ↦ do
        total ← attempt (parties.find_matching filter)
        elim total [
          | throw _ ↦ pure (record results { items = items })
          | ok entries ↦ pure (record results {
            items = items;
            total_pages = ceil_divide (length entries) page_size;
            page_size = math_max page_size (length items);
          })
        ]
    ]

  unfoldable pub search_associations :
      (fsp_id party_id party_type party_sub_type currency : Nullable)
      → (page_index page_size : Option Number) → Action W AssociationsSearchResults
  search_associations fsp_id party_id party_type party_sub_type currency page_index page_size =
      search_page (filter_of fsp_id party_id party_type party_sub_type currency)
        (limited_page_size page_size) (limited_page_index page_index)

-- `terms.includes(term)`
abbrev pub includes : Nullable → List Nullable → Bool
includes term [] = false
includes term (t ∷ terms) = if strict_eq t term then true else includes term terms

-- `if (!terms.includes(term)) { terms.push(term); }`
abbrev pub push_new : List Nullable → Nullable → List Nullable
push_new terms term = if includes term terms then terms else terms ++ term ∷ []

-- The distinct terms of one field after the loop.
unfoldable pub collect : (Group → Nullable) → List Nullable → List Group → List Nullable
collect field terms [] = terms
collect field terms (g ∷ groups) = collect field (push_new terms (field g)) groups

-- `retObj` after the loop: each round pushes the same three objects again, so that all entries of
-- a field show the terms that it has at the end.
unfoldable pub push_each_round : List SearchKeywords → List Group → List SearchKeywords
push_each_round three [] = []
push_each_round three (g ∷ groups) = three ++ push_each_round three groups

unfoldable pub get_search_keywords :
    {W : Type 0} → SearchCollection W → Action W (List SearchKeywords)
unfolding collect push_each_round
get_search_keywords parties w =
    let (groups, w') = parties.groups w in
    (
      ok (
          push_each_round
            (record {
              field_name = "partyType";
              distinct_terms = collect (λ (g : Group). g.party_type) [] groups;
            }
              ∷ record {
                field_name = "currency";
                distinct_terms = collect (λ (g : Group). g.currency) [] groups;
              }
              ∷ record {
                field_name = "fspId";
                distinct_terms = collect (λ (g : Group). g.fsp_id) [] groups;
              }
              ∷ [])
            groups),
      w',
    )
