-- ===== src/Mongo/Search/Terms.antt =====
-- The terms that `getSearchKeywords` collects.
use account_lookup_bc.Common.{
  Nullable, strict_eq, strict_eq_iff, ◌≡◌, refl, true, false, List, [], ◌∷◌, ◌++◌, length, ◌*◌, ok,
  arith, map, All, ◌⊎◌, if◌then◌else◌, inl, inr,
}
use account_lookup_bc.Domain.Entities.{SearchKeywords}
use account_lookup_bc.Mongo.Search.{
  Group, SearchCollection, includes, push_new, collect, push_each_round, get_search_keywords,
}

-- No term stands in the list twice.
abbrev pub AreDistinct : List Nullable → Type 0
AreDistinct [] = Unit
AreDistinct (t ∷ terms) = (includes t terms ≡ false) × AreDistinct terms

includes-append :
    (x t : Nullable) (terms : List Nullable)
    → includes x (terms ++ t ∷ []) ≡ (if includes x terms then true else strict_eq t x)
includes-append x t [] = ground arith
includes-append x t (u ∷ terms) = ground (arith, includes-append x t terms)

append-AreDistinct :
    (terms : List Nullable) (t : Nullable)
    → AreDistinct terms
    → includes t terms ≡ false
    → AreDistinct (terms ++ t ∷ [])
append-AreDistinct [] t h new = (refl, tt)
append-AreDistinct (u ∷ terms) t h new = ground (
  arith,
  append-AreDistinct terms t h.1,
  includes-append u t terms,
  strict_eq_iff t u,
  strict_eq_iff u t,
)

push_new-AreDistinct :
    (terms : List Nullable) (t : Nullable) → AreDistinct terms → AreDistinct (push_new terms t)
push_new-AreDistinct terms t h = ground (arith, append-AreDistinct terms t h)

includes-push_new :
    (x t : Nullable) (terms : List Nullable)
    → includes x (push_new terms t) ≡ (if includes x terms then true else strict_eq t x)
includes-push_new x t terms = ground (arith, includes-append x t terms, strict_eq_iff t x)

collect-AreDistinct :
    (field : Group → Nullable) (terms : List Nullable) (groups : List Group)
    → AreDistinct terms
    → AreDistinct (collect field terms groups)
unfolding collect
collect-AreDistinct field terms [] h = h
collect-AreDistinct field terms (g ∷ groups) h =
    collect-AreDistinct field (push_new terms (field g)) groups
      (push_new-AreDistinct terms (field g) h)

includes-collect :
    (field : Group → Nullable) (x : Nullable) (terms : List Nullable) (groups : List Group)
    → includes x (collect field terms groups)
      ≡ (if includes x terms then true else includes x (map field groups))
unfolding collect
includes-collect field x terms [] = ground arith
includes-collect field x terms (g ∷ groups) = ground (
  arith,
  includes-collect field x (push_new terms (field g)) groups,
  includes-push_new x (field g) terms,
)

-- The terms are those of the field in the groups, each one once.
pub record TermsOf (field : Group → Nullable) (groups : List Group) (terms : List Nullable)
    : Type 0 where
  pub distinct : AreDistinct terms
  pub same : (x : Nullable) → includes x terms ≡ includes x (map field groups)

collect-TermsOf :
    (field : Group → Nullable) (groups : List Group)
    → TermsOf field groups (collect field [] groups)
collect-TermsOf field groups = record {
  distinct = collect-AreDistinct field [] groups tt;
  same = λ x. includes-collect field x [] groups;
}

-- An entry names one of the three fields and has that field's terms.
abbrev pub Describes : List Group → SearchKeywords → Type 0
Describes groups k =
    ((k.field_name ≡ "partyType") × TermsOf (λ (g : Group). g.party_type) groups k.distinct_terms)
    ⊎ ((k.field_name ≡ "currency") × TermsOf (λ (g : Group). g.currency) groups k.distinct_terms)
    ⊎ ((k.field_name ≡ "fspId") × TermsOf (λ (g : Group). g.fsp_id) groups k.distinct_terms)

rounds-All :
    (P : SearchKeywords → Type 0) (a b c : SearchKeywords) (groups : List Group)
    → P a
    → P b
    → P c
    → All P (push_each_round (a ∷ b ∷ c ∷ []) groups)
      × (length (push_each_round (a ∷ b ∷ c ∷ []) groups) ≡ 3 * length groups)
unfolding push_each_round
rounds-All P a b c [] p q r = (tt, omega arith)
rounds-All P a b c (g ∷ groups) p q r =
    let (rest, count) = rounds-All P a b c groups p q r in
    ((p, (q, (r, rest))), omega (arith, count))

-- The search keywords are always answered, with three entries for each group that the database
-- yields; every entry names one of the three fields, and has each term of that field once.
pub get_search_keywords_answers :
    {W : Type 0} (parties : SearchCollection W) (w : W)
    → (items : List SearchKeywords) × ((get_search_keywords parties w).0 ≡ ok items)
      × All (Describes (parties.groups w).0) items
      × (length items ≡ 3 * length (parties.groups w).0)
unfolding get_search_keywords
get_search_keywords_answers parties w =
    let groups = (parties.groups w).0 in
    let (described, count) =
      rounds-All (Describes groups) _ _ _ groups
        (inl (refl, collect-TermsOf (λ (g : Group). g.party_type) groups))
        (inr (inl (refl, collect-TermsOf (λ (g : Group). g.currency) groups)))
        (inr (inr (refl, collect-TermsOf (λ (g : Group). g.fsp_id) groups))) in
    (_, refl, described, count)
