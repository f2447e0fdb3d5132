-- ===== src/Mongo/Finder/Laws.antt =====
-- What the methods of MongoOracleFinderRepo answer about the collection, and what they do to it.
use account_lookup_bc.Common.{
  Nullable, str, strict_eq, ◌≡◌, refl, inl, inr, true, false, Bool, Option, none, some, List, [],
  ◌∷◌, arith, ◌&&◌, ◌==◌, not, find, select, first, first-select, ok, throw, no_such_oracle,
  unable_to_get_oracle, Option-cases, Result-cases, map,
}
use account_lookup_bc.Domain.Entities.{Oracle, OracleType}
use account_lookup_bc.Mongo.Collection.{Collection, CollectionLaws, fits_if}
use account_lookup_bc.Mongo.Finder.{OracleQuery, by_party_type, map_to_oracle, or_else, get_oracle}

-- `===` on the types of oracles.
abbrev pub same_type : OracleType → OracleType → Bool
same_type OracleType.builtin OracleType.builtin = true
same_type OracleType.remote_http OracleType.remote_http = true
same_type (OracleType.unsupported s) (OracleType.unsupported t) = s == t
same_type _ _ = false

abbrev pub type_fits : Option OracleType → OracleType → Bool
type_fits none t = true
type_fits (some u) t = same_type t u

-- Which documents of the collection a query of the finder picks.
abbrev pub matches : OracleQuery → Oracle → Bool
matches q o =
    fits_if q.id (str o.id)
    && (fits_if q.name (str o.name)
        && (fits_if q.party_type (str o.party_type)
            && (type_fits q.oracle_type o.oracle_type && fits_if q.endpoint o.endpoint)))

pub map_to_oracle_self : (os : List Oracle) → map map_to_oracle os ≡ os
map_to_oracle_self [] = refl
map_to_oracle_self (o ∷ os) = rw (map_to_oracle_self os)

-- The oracle that `getOracle` picks from those of the party type.
abbrev pub chosen : Nullable → List Oracle → Option Oracle
chosen currency os = or_else (find (λ (o : Oracle). strict_eq o.currency currency) os) (first os)

others-first :
    (p : Oracle → Bool) (os : List Oracle)
    → find p os ≡ none
    → first (select (λ o. not (p o)) os) ≡ first os
others-first p [] h = refl
others-first p (o ∷ os) h = ground arith

pick-eq-chosen :
    (currency : Nullable) (os : List Oracle)
    → or_else
        (first (select (λ (o : Oracle). strict_eq o.currency currency) os))
        (first (select (λ (o : Oracle). not (strict_eq o.currency currency)) os))
      ≡ chosen currency os
pick-eq-chosen currency os =
    let missing = others-first (λ (o : Oracle). strict_eq o.currency currency) os in
    rw (first-select (λ (o : Oracle). strict_eq o.currency currency) os)
      (elim (Option-cases (find (λ (o : Oracle). strict_eq o.currency currency) os)) [
        | inl none_such ↦ rw (none_such, missing none_such)
        | inr (o, found) ↦ rw found
      ])

module _ {W : Type 0} (providers : Collection W Oracle OracleQuery) (docs : W → List Oracle)
    (laws : CollectionLaws providers docs matches) where
  pub get_oracle_keeps :
      (party_type currency : Nullable) (w : W)
      → docs (get_oracle providers party_type currency w).1 ≡ docs w
  unfolding get_oracle
  get_oracle_keeps party_type currency w =
      ground (arith, laws.find_all_keeps (by_party_type party_type) w)

  -- Over a collection that behaves as documented: where it can be read, `getOracle` answers with
  -- the first oracle of the party type whose currency is the one asked for, or else with the first
  -- oracle of the party type whatever its currency, and throws "no such oracle" if there is none
  -- of the type. Where it cannot, the error is "unable to get oracle". The collection stays as it
  -- is.
  pub get_oracle_choice :
      (party_type currency : Nullable) (w : W)
      → let query = by_party_type party_type in
        let (r, w') = get_oracle providers party_type currency w in
        (r ≡ elim (providers.find_all query w).0 [
          | throw _ ↦ throw unable_to_get_oracle
          | ok _ ↦ elim (chosen currency (select (matches query) (docs w))) [
            | none ↦ throw no_such_oracle
            | some o ↦ ok (some o)
          ]
        ])
        × (docs w' ≡ docs w)
  unfolding get_oracle
  get_oracle_choice party_type currency w =
      let query = by_party_type party_type in
      (
        elim (Result-cases (providers.find_all query w).0) [
          | inr (e, thrown) ↦ ground arith
          | inl (found, answered) ↦
              ground
                (arith, pick-eq-chosen currency found, laws.find_all_reads query w found answered)
        ],
        get_oracle_keeps party_type currency w,
      )
