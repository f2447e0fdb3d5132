-- ===== src/Doubles/Contract.antt =====
-- The doubles and the contracts that the aggregate relies on.
use account_lookup_bc.Common.{
  String, ◌≡◌, refl, ap, Bool, none, some, List, [], ◌∷◌, ◌++◌, ◌==◌, find, remove_first, arith,
  Action, ok, inl, inr,
}
use account_lookup_bc.Domain.Entities.{Oracle, OracleType-cases}
use account_lookup_bc.Domain.Ports.{OracleProviderAdapter}
use account_lookup_bc.Domain.Contracts.{FinderLaws}
use account_lookup_bc.Aggregate.Admin.Registry.{ServiceLaws}
use account_lookup_bc.Doubles.{
  Bench, find_index, splice_one, but_last, add_oracle, remove_oracle, get_oracle, memory_finder,
  create, memory_adapter, doubles,
}

remove_at-find_index {ℓ} :
    {A : Type ℓ} (test : A → Bool) (x : A) (xs : List A)
    → find test xs ≡ some x
    → splice_one (find_index test xs) xs ≡ remove_first test xs
unfolding find_index splice_one
remove_at-find_index test x [] e = ground arith
remove_at-find_index test x (y ∷ xs) e = ground (arith, remove_at-find_index test x xs)

but_last-append {ℓ} : {A : Type ℓ} (xs : List A) (x : A) → but_last (xs ++ x ∷ []) ≡ xs
unfolding but_last
but_last-append [] x = refl
but_last-append (y ∷ []) x = refl
but_last-append (y ∷ z ∷ xs) x = ap (λ l. y ∷ l) (but_last-append (z ∷ xs) x)

find_index-none {ℓ} :
    {A : Type ℓ} (test : A → Bool) (xs : List A) → find test xs ≡ none → find_index test xs ≡ none
unfolding find_index
find_index-none test [] e = refl
find_index-none test (x ∷ xs) e = ground (arith, find_index-none test xs)

-- Removing an unknown oracle from the double takes out the last one.
remove_oracle-unknown :
    (id : String) (os : Bench) (last : Oracle)
    → find (λ o. o.id == id) (os ++ last ∷ []) ≡ none
    → (remove_oracle id (os ++ last ∷ [])).1 ≡ os
unfolding remove_oracle
remove_oracle-unknown id os last unknown =
    let index = find_index-none (λ (o : Oracle). o.id == id) (os ++ last ∷ []) unknown in
    ground (arith, index, but_last-append os last)

memory_finder-FinderLaws : FinderLaws memory_finder (λ os. os)
unfolding add_oracle remove_oracle get_oracle
memory_finder-FinderLaws = record {
  all_reads = λ os found e. ground arith;
  all_keeps = λ os. refl;
  by_id_reads = λ id os found e. ground arith;
  by_id_keeps = λ id os. refl;
  by_name_reads = λ name os found e. ground arith;
  by_name_keeps = λ name os. refl;
  choice_keeps = λ party_type currency os. refl;
  add_adds = λ o os e. refl;
  add_fails = λ o os x e. absurd (ground arith);
  remove_removes =
      λ id os o present e. remove_at-find_index (λ (p : Oracle). p.id == id) o os present;
  remove_fails = λ id os x e. absurd (ground arith);
}

module _ (random_uuid : Action Bench String) where
  created : (o : Oracle) (a : OracleProviderAdapter Bench) → create o ≡ ok a → a ≡ memory_adapter o
  unfolding create
  created o a e = elim (OracleType-cases o.oracle_type) [
    | inl is ↦ ground (arith, is)
    | inr (inl is) ↦ ground (arith, is)
    | inr (inr (text, is)) ↦ absurd (ground (arith, is))
  ]

  -- With random ids that are new and leave the array alone: the doubles make up services of the
  -- kind that the aggregate relies on, so that what is shown of its registry over such services
  -- holds of the aggregate in the tests.
  pub doubles-ServiceLaws :
      ((id : String) (os : Bench) → (random_uuid os).0 ≡ ok id → find (λ o. o.id == id) os ≡ none)
      → ((os : Bench) → (random_uuid os).1 ≡ os)
      → ServiceLaws (doubles random_uuid) (λ os. os)
  doubles-ServiceLaws fresh keeps = record {
    finds = memory_finder-FinderLaws;
    created = λ o a e. rw (created o a e) refl;
    init_keeps = λ o a os e. rw (created o a e) refl;
    fresh = fresh;
    uuid_keeps = keeps;
  }
