-- ===== src/Mongo/Finder/Contract.antt =====
-- MongoOracleFinderRepo and the contract of an oracle finder.
use account_lookup_bc.Common.{
  String, ◌≡◌, refl, inl, inr, Bool, Option, none, List, [], ◌∷◌, ◌++◌, arith, ◌==◌, find, select,
  remove_first, Error, ok, throw, Result-cases, fun_ext,
}
use account_lookup_bc.Domain.Entities.{Oracle}
use account_lookup_bc.Domain.Contracts.{FinderLaws}
use account_lookup_bc.Mongo.Collection.{Collection, CollectionLaws}
use account_lookup_bc.Mongo.Finder.{
  OracleQuery, any_oracle, by_id, by_name, same_oracle, add_oracle, remove_oracle, get_all_oracles,
  get_oracle_by_id, get_oracle_by_name, Client, finder,
}
use account_lookup_bc.Mongo.Finder.Laws.{matches, map_to_oracle_self, get_oracle_keeps}

matches-id : (id : String) → matches (by_id id) ≡ (λ o. o.id == id)
matches-id id = fun_ext (λ o. ground arith)

matches-name : (name : String) → matches (by_name name) ≡ (λ o. o.name == name)
matches-name name = fun_ext (λ o. ground arith)

select-any : (os : List Oracle) → select (matches any_oracle) os ≡ os
select-any [] = refl
select-any (o ∷ os) = rw (select-any os)

remove_first-none {ℓ} :
    {A : Type ℓ} (test : A → Bool) (xs : List A) → find test xs ≡ none → remove_first test xs ≡ xs
remove_first-none test [] h = refl
remove_first-none test (x ∷ xs) h = ground (arith, remove_first-none test xs)

module _ {W : Type 0} (providers : Collection W Oracle OracleQuery) (docs : W → List Oracle)
    (laws : CollectionLaws providers docs matches) where
  reads_by_id :
      (id : String) (w : W) (found : Option Oracle)
      → (get_oracle_by_id providers id w).0 ≡ ok found
      → found ≡ find (λ o. o.id == id) (docs w)
  unfolding get_oracle_by_id
  reads_by_id id w found e = elim (Result-cases (providers.find_one (by_id id) w).0) [
    | inr (x, thrown) ↦ absurd (ground arith)
    | inl (o, answered) ↦
        rw (← matches-id id) (ground (arith, laws.find_one_reads (by_id id) w o answered))
  ]

  reads_by_name :
      (name : String) (w : W) (found : Option Oracle)
      → (get_oracle_by_name providers name w).0 ≡ ok found
      → found ≡ find (λ o. o.name == name) (docs w)
  unfolding get_oracle_by_name
  reads_by_name name w found e = elim (Result-cases (providers.find_one (by_name name) w).0) [
    | inr (x, thrown) ↦ absurd (ground arith)
    | inl (o, answered) ↦
        rw (← matches-name name) (ground (arith, laws.find_one_reads (by_name name) w o answered))
  ]

  reads_all :
      (w : W) (found : List Oracle) → (get_all_oracles providers w).0 ≡ ok found → found ≡ docs w
  unfolding get_all_oracles
  reads_all w found e = elim (Result-cases (providers.find_all any_oracle w).0) [
    | inr (x, thrown) ↦ absurd (ground arith)
    | inl (os, answered) ↦ ground (
      arith,
      laws.find_all_reads any_oracle w os answered,
      map_to_oracle_self os,
      select-any (docs w),
    )
  ]

  adds :
      (o : Oracle) (w : W)
      → (add_oracle providers o w).0 ≡ ok tt
      → docs (add_oracle providers o w).1 ≡ docs w ++ o ∷ []
  unfolding add_oracle
  adds o w e =
      let w' = (providers.find_one (same_oracle o) w).1 in
      ground (arith, laws.find_one_keeps (same_oracle o) w, laws.insert_one_adds o w')

  add_fails :
      (o : Oracle) (w : W) (e : Error)
      → (add_oracle providers o w).0 ≡ throw e
      → docs (add_oracle providers o w).1 ≡ docs w
  unfolding add_oracle
  add_fails o w e h =
      let w' = (providers.find_one (same_oracle o) w).1 in
      elim (Result-cases (providers.insert_one o w').0) [
        | inl (x, stored) ↦ ground (arith, laws.find_one_keeps (same_oracle o) w)
        | inr (x, thrown) ↦
            ground
              (arith, laws.find_one_keeps (same_oracle o) w, laws.insert_one_fails o w' x thrown)
      ]

  removes :
      (id : String) (w : W)
      → (remove_oracle providers id w).0 ≡ ok tt
      → docs (remove_oracle providers id w).1 ≡ remove_first (λ o. o.id == id) (docs w)
  unfolding remove_oracle
  removes id w e = elim (Result-cases (providers.delete_one (by_id id) w).0) [
    | inr (x, thrown) ↦ absurd (ground arith)
    | inl (n, deleted) ↦
        rw (← matches-id id) (ground (arith, laws.delete_one_removes (by_id id) w n deleted))
  ]

  remove_fails :
      (id : String) (w : W) (e : Error)
      → (remove_oracle providers id w).0 ≡ throw e
      → docs (remove_oracle providers id w).1 ≡ docs w
  unfolding remove_oracle
  remove_fails id w e h = elim (Result-cases (providers.delete_one (by_id id) w).0) [
    | inr (x, thrown) ↦ ground (arith, laws.delete_one_fails (by_id id) w x thrown)
    | inl (n, deleted) ↦ ground (
      arith,
      laws.delete_one_removes (by_id id) w n deleted,
      remove_first-none (matches (by_id id)) (docs w),
    )
  ]

  keeps_by_id : (id : String) (w : W) → docs (get_oracle_by_id providers id w).1 ≡ docs w
  unfolding get_oracle_by_id
  keeps_by_id id w = ground (arith, laws.find_one_keeps (by_id id) w)

  keeps_by_name : (name : String) (w : W) → docs (get_oracle_by_name providers name w).1 ≡ docs w
  unfolding get_oracle_by_name
  keeps_by_name name w = ground (arith, laws.find_one_keeps (by_name name) w)

  keeps_all : (w : W) → docs (get_all_oracles providers w).1 ≡ docs w
  unfolding get_all_oracles
  keeps_all w = ground (arith, laws.find_all_keeps any_oracle w)

  -- Over a collection that behaves as documented, the MongoDB finder keeps the contract of an oracle
  -- finder: its reads answer from the collection and change nothing, it adds at the end, it removes
  -- the first oracle of an id, and what throws changes nothing.
  pub finder-FinderLaws : (client : Client W) → FinderLaws (finder client providers) docs
  finder-FinderLaws client = record {
    all_reads = reads_all;
    all_keeps = keeps_all;
    by_id_reads = reads_by_id;
    by_id_keeps = keeps_by_id;
    by_name_reads = reads_by_name;
    by_name_keeps = keeps_by_name;
    choice_keeps = get_oracle_keeps providers docs laws;
    add_adds = adds;
    add_fails = add_fails;
    remove_removes = λ id w o present. removes id w;
    remove_fails = remove_fails;
  }
