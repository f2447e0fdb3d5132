-- ===== src/Examples/Storage.antt =====
-- The theorems about the MongoDB finder and about the remote oracle, at small stores.
use account_lookup_bc.Common.{
  String, null, undefined, str, ◌≡◌, ◌↔◌, ◌⊎◌, refl, true, false, none, some, List, [], ◌∷◌, ◌==◌,
  select, if◌then◌else◌, ok, throw, no_such_oracle, unable_to_get_oracle, base_error,
}
use account_lookup_bc.Domain.Entities.{Association}
use account_lookup_bc.Mongo.Finder.{by_party_type, get_oracle}
use account_lookup_bc.Mongo.Finder.Laws.{chosen, matches, get_oracle_choice}
use account_lookup_bc.RemoteOracle.{
  File, RemoteOracle, create_key, get_participant_fsp_id, associate_participant,
  disassociate_participant,
}
use account_lookup_bc.RemoteOracle.Table.{lookup, values}
use account_lookup_bc.RemoteOracle.Indexed.{IsIndexed}
use account_lookup_bc.RemoteOracle.Laws.{
  owned_by, new_association, associate_participant_effect, disassociate_participant_effect,
}
use account_lookup_bc.RemoteOracle.Keys.{get_participant_fsp_id_confuses}
use account_lookup_bc.Examples.World.{Shelf, shelf, shelf-CollectionLaws, first_oracle}

get_oracle_choice_example :
    let query = by_party_type (str "MSISDN") in
    let w : Shelf = first_oracle ∷ [] in
    let (r, w') = get_oracle shelf (str "MSISDN") (str "USD") w in
    (r ≡ elim (shelf.find_all query w).0 [
      | throw _ ↦ throw unable_to_get_oracle
      | ok _ ↦ elim (chosen (str "USD") (select (matches query) w)) [
        | none ↦ throw no_such_oracle
        | some o ↦ ok (some o)
      ]
    ])
    × (w' ≡ w)
get_oracle_choice_example =
    get_oracle_choice shelf (λ w. w) shelf-CollectionLaws (str "MSISDN") (str "USD")
      (first_oracle ∷ [])

abbrev known : Association
known = record {
  fsp_id = str "dfsp1";
  party_type = str "MSISDN";
  party_id = str "123";
  party_sub_type = null;
  currency = undefined;
}

-- A file that is a list of texts, the last one written first.
abbrev notes : File (List String)
notes = record {
  exists = λ w. (ok true, w);
  read = λ w. (elim w [ [] ↦ throw base_error | text ∷ _ ↦ ok text ], w);
  write = λ text w. (ok tt, text ∷ w);
  decode = λ text. if text == "none" then ok none else ok (some (known ∷ known ∷ []));
  encode = λ associations. "two";
}

abbrev written : RemoteOracle (List String)
written = record { associations = []; world = "two" ∷ [] }

abbrev loaded : RemoteOracle (List String)
loaded = record {
  associations = (create_key (str "123") (str "MSISDN") undefined, known) ∷ [];
  world = "two" ∷ [];
}

loaded-IsIndexed : IsIndexed loaded.associations
unfolding lookup
loaded-IsIndexed = record { distinct = (refl, tt); keyed = (refl, tt) }

associate_participant_effect_example :
    let key = create_key (str "a@b") (str "EMAIL") null in
    let (r, s') =
      associate_participant notes (str "dfsp2") (str "EMAIL") (str "a@b") null null loaded in
    ((a : Association) × (lookup key loaded.associations ≡ some a)
      × (r ≡ throw base_error)
      × (s' ≡ loaded))
    ⊎ ((lookup key loaded.associations ≡ none)
        × ((j : String)
            → lookup j s'.associations ≡ (
                if key == j
                then some
                    (new_association notes (str "dfsp2") (str "EMAIL") (str "a@b") null null loaded)
                else lookup j loaded.associations))
        × ((r ≡ ok tt)
            ↔ ((notes.write (notes.encode (values s'.associations)) loaded.world).0 ≡ ok tt)))
associate_participant_effect_example =
    associate_participant_effect notes (str "dfsp2") (str "EMAIL") (str "a@b") null null loaded

disassociate_participant_effect_example :
    let key = create_key (str "123") (str "MSISDN") undefined in
    let (r, s') =
      disassociate_participant notes
        (str "dfsp1")
        (str "MSISDN")
        (str "123")
        null
        undefined
        loaded in
    ((owned_by (str "dfsp1") (lookup key loaded.associations) ≡ false)
      × (r ≡ throw base_error)
      × (s' ≡ loaded))
    ⊎ ((owned_by (str "dfsp1") (lookup key loaded.associations) ≡ true)
        × ((j : String)
            → lookup j s'.associations ≡ (if key == j then none else lookup j loaded.associations))
        × ((r ≡ ok tt)
            ↔ ((notes.write (notes.encode (values s'.associations)) loaded.world).0 ≡ ok tt)))
disassociate_participant_effect_example =
    disassociate_participant_effect notes (str "dfsp1") (str "MSISDN") (str "123") null undefined
      loaded loaded-IsIndexed.distinct

get_participant_fsp_id_confuses_example :
    get_participant_fsp_id notes (str "c") (str "a-b") null null loaded
    ≡ get_participant_fsp_id notes (str "b-c") (str "a") (str "business") null loaded
get_participant_fsp_id_confuses_example =
    get_participant_fsp_id_confuses notes "a" "b" "c" null (str "business") null loaded
