-- ===== src/Examples/Search.antt =====
-- The theorems about the search by page and about the terms to search for, over a list.
use account_lookup_bc.Common.{
  ℕ, ◌*◌, ◌≤◌, null, str, ◌≡◌, refl, none, some, List, [], ◌∷◌, ◌++◌, All, length, take, drop,
  length-take_le, Number, int, pos, negsuc, of_count, arith, Action, ok, throw, external_error, map,
}
use Prim.Native.Nat.{◌<◌}
use account_lookup_bc.Domain.Entities.{Association, AssociationsSearchResults, SearchKeywords}
use account_lookup_bc.Mongo.Search.{
  Group, SearchCollection, search_associations, get_search_keywords,
}
use account_lookup_bc.Mongo.Search.Pages.{
  KeepsLimit, IsNotNegative, IsAtMost, search_associations_bounds,
}
use account_lookup_bc.Mongo.Search.Shortfall.{page, pages_from, search_associations_falls_short}
use account_lookup_bc.Mongo.Search.Terms.{Describes, get_search_keywords_answers}

-- A page of a list; a skip that is not a count is refused.
abbrev page_of : Number → ℕ → Action (List Association) (List Association)
page_of (int (pos k)) n w = (ok (take n (drop k w)), w)
page_of _ n w = (throw external_error, w)

abbrev group_of : Association → Group
group_of a = record { party_type = a.party_type; currency = a.currency; fsp_id = a.fsp_id }

abbrev parties : SearchCollection (List Association)
parties = record {
  find_page = λ filter skip n. page_of skip n;
  find_matching = λ filter w. (ok w, w);
  groups = λ w. (map group_of w, w);
}

page_of-limits :
    (skip : Number) (n : ℕ) (w found : List Association)
    → (page_of skip n w).0 ≡ ok found
    → length found ≤ n
page_of-limits (int (pos k)) n w found e =
    let same : found ≡ take n (drop k w) = cc in rw same (length-take_le n (drop k w))
page_of-limits (int (negsuc k)) n w found e = absurd (ground arith)
page_of-limits Number.infinity n w found e = absurd (ground arith)
page_of-limits Number.minus_infinity n w found e = absurd (ground arith)
page_of-limits Number.nan n w found e = absurd (ground arith)

parties-KeepsLimit : KeepsLimit parties
parties-KeepsLimit filter skip n w found e = page_of-limits skip n w found e

abbrev known : List Association
known =
    record {
      fsp_id = str "dfsp2";
      party_type = str "MSISDN";
      party_id = str "123";
      party_sub_type = null;
      currency = str "EUR";
    }
    ∷ []

search_associations_bounds_example :
    (results : AssociationsSearchResults) × ((search_associations parties
        (str "dfsp2")
        null
        null
        null
        null
        none
        (some (of_count 7))
        known).0
      ≡ ok results)
    × (length results.items ≤ 20)
    × IsNotNegative results.page_index
    × IsAtMost 100 results.page_size
search_associations_bounds_example =
    search_associations_bounds parties parties-KeepsLimit (str "dfsp2") null null null null none
      (some (of_count 7)) known

-- Twenty-one associations.
abbrev crowd : List Association
crowd =
    let five = known ++ (known ++ (known ++ (known ++ known))) in
    known ++ (five ++ (five ++ (five ++ five)))

search_associations_falls_short_example :
    (results : AssociationsSearchResults) × (k : ℕ) × ((page parties
        (str "dfsp2")
        null
        null
        null
        null
        99
        0
        crowd).0
      ≡ ok results)
    × (results.items ≡ take 20 crowd)
    × (results.total_pages ≡ of_count k)
    × (length crowd ≤ k * 100)
    × ((w' : List Association)
        → length (pages_from parties (str "dfsp2") null null null null 99 0 k w') < length crowd)
search_associations_falls_short_example =
    search_associations_falls_short parties (str "dfsp2") null null null null 99 parties-KeepsLimit
      0 crowd (take 20 crowd) crowd (omega arith) (omega arith) refl refl (omega arith)

get_search_keywords_answers_example :
    (items : List SearchKeywords) × ((get_search_keywords parties known).0 ≡ ok items)
    × All (Describes (parties.groups known).0) items
    × (length items ≡ 3 * length (parties.groups known).0)
get_search_keywords_answers_example = get_search_keywords_answers parties known
