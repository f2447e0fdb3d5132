-- ===== src/Examples/Coherence.antt =====
-- The cache of the MongoDB provider over a history of calls, and where it goes stale.
use account_lookup_bc.Common.{
  String, Nullable, texts-ne, undefined, null, str, ◌≡◌, ◌≢◌, refl, ◌⊎◌, inl, inr, Bool, true,
  false, some, List, [], ◌∷◌, ◌++◌, ◌==◌, eq_iff, if◌then◌else◌, find, select, remove_first, arith,
  ok,
}
use account_lookup_bc.Domain.Entities.{Association}
use account_lookup_bc.Mongo.Collection.{Collection, CollectionLaws, fits, count_one}
use account_lookup_bc.Mongo.Provider.{
  Cache, PartyQuery, association, document_of, get_key_with_prefix,
}
use account_lookup_bc.Mongo.Provider.Storage.{matches}
use account_lookup_bc.Mongo.Provider.Entries.{
  Party, cache_key, asked_for, owned_by, AreApart, EntryLaws,
}
use account_lookup_bc.Mongo.Provider.History.{Step, Reach, associate, IsCurrent, lookup-IsCurrent}
use account_lookup_bc.Mongo.Provider.Stale
use account_lookup_bc.Mongo.Provider.Stale.{Steady, answers_after_removal}

-- Associations, and what the cache has under each key.
abbrev Store : Type 0
Store = List Association × (String → Nullable)

abbrev parties : Collection Store Association PartyQuery
parties = record {
  find_one = λ q w. (ok (find (matches q) w.0), w);
  find_all = λ q w. (ok (select (matches q) w.0), w);
  insert_one = λ a w. (ok tt, (w.0 ++ a ∷ [], w.1));
  delete_one = λ q w. (ok (count_one (find (matches q) w.0)), (remove_first (matches q) w.0, w.1));
}

-- A text of an FSP id: none, one or at least two characters.
abbrev written : Nullable → String
written undefined = ""
written null = "-"
written (str s) = String.◌∷◌ "-" (String.◌∷◌ "-" s)

abbrev read : String → Nullable
read String.[] = undefined
read (String.◌∷◌ c String.[]) = null
read (String.◌∷◌ c (String.◌∷◌ d s)) = str s

read-written : (x : Nullable) → read (written x) ≡ x
read-written undefined = refl
read-written null = refl
read-written (str s) = refl

abbrev cache : Cache Store
cache = record {
  connect = λ w. (ok tt, w);
  get = λ k w. (ok (w.1 k), w);
  setex = λ k secs text w. (ok tt, (w.0, λ j. if k == j then str text else w.1 j));
  del = λ k w. (ok tt, (w.0, λ j. if k == j then null else w.1 j));
  stringify = λ a. written a.fsp_id;
  parse = λ text. some (record {
    fsp_id = read text;
    party_type = null;
    party_id = null;
    party_sub_type = null;
    currency = null;
  });
}

parties-CollectionLaws : CollectionLaws parties (λ w. w.0) matches
parties-CollectionLaws = record {
  find_one_reads = λ q w found e. ground arith;
  find_one_keeps = λ q w. refl;
  find_all_reads = λ q w found e. ground arith;
  find_all_keeps = λ q w. refl;
  insert_one_adds = λ d w e. refl;
  insert_one_fails = λ d w x e. absurd (ground arith);
  delete_one_removes = λ q w n e. (refl, ground arith);
  delete_one_fails = λ q w x e. absurd (ground arith);
}

store-EntryLaws : EntryLaws parties cache (λ w. w.0) (λ w. w.1)
store-EntryLaws = record {
  stores = record {
    stores = parties-CollectionLaws;
    setex_keeps = λ k secs text w. refl;
    del_keeps = λ k w. refl;
  };
  find_keeps = λ q w j. refl;
  insert_keeps = λ d w j. refl;
  delete_keeps = λ q w j. refl;
  get_docs = λ k w. refl;
  get_keeps = λ k w j. refl;
  get_reads = λ k w text e. inr (ground arith);
  setex_sets = λ k secs text w e j. refl;
  setex_fails = λ k secs text w x e. absurd (ground arith);
  del_clears = λ k w e j. refl;
  reads_back = λ a b e. ground (arith, read-written a.fsp_id);
}

abbrev in_euro : Party
in_euro = record {
  party_type = str "MSISDN";
  party_id = str "123";
  party_sub_type = null;
  currency = str "EUR";
}

abbrev in_dollars : Party
in_dollars = record in_euro { currency = str "USD" }

abbrev pick : Bool → Party
pick true = in_euro
pick false = in_dollars

abbrev Known : Party → Type 0
Known p = (euro : Bool) × (p ≡ pick euro)

euro-disjoint : (x : Nullable) → fits (str "EUR") x ≡ true → fits (str "USD") x ≡ false
euro-disjoint undefined e = ground arith
euro-disjoint null e = ground arith
euro-disjoint (str s) e = ground (arith, eq_iff s "EUR", eq_iff s "USD", texts-ne "EUR" "USD" refl)

dollars-disjoint : (x : Nullable) → fits (str "USD") x ≡ true → fits (str "EUR") x ≡ false
dollars-disjoint undefined e = ground arith
dollars-disjoint null e = ground arith
dollars-disjoint (str s) e =
    ground (arith, eq_iff s "EUR", eq_iff s "USD", texts-ne "EUR" "USD" refl)

pick-AreApart :
    (b c : Bool)
    → (pick b ≡ pick c)
      ⊎ ((cache_key (pick b) ≢ cache_key (pick c))
          × ((d : Association)
              → matches (asked_for (pick b)) d ≡ true
              → matches (asked_for (pick c)) d ≡ false))
unfolding get_key_with_prefix
pick-AreApart true true = inl refl
pick-AreApart false false = inl refl
pick-AreApart true false = inr (texts-ne _ _ refl, λ d e. ground (arith, euro-disjoint d.currency))
pick-AreApart false true =
    inr (texts-ne _ _ refl, λ d e. ground (arith, dollars-disjoint d.currency))

Known-AreApart : AreApart Known
Known-AreApart p q (b, e) (c, f) = rw (e, f) (pick-AreApart b c)

abbrev empty : Store
empty = ([], λ j. null)

-- Two associations, and a lookup.
abbrev after_history : Store
after_history =
    let u =
      (associate parties cache 5 (λ w. w.0) (λ w. w.1) store-EntryLaws Known Known-AreApart
        (str "dfsp1") in_euro empty).1 in
    (associate parties cache 5 (λ w. w.0) (λ w. w.1) store-EntryLaws Known Known-AreApart
      (str "dfsp2") in_dollars u).1

history :
    Reach parties cache 5
      (λ w. w.0)
      (λ w. w.1)
      store-EntryLaws
      Known
      Known-AreApart
      empty
      after_history
history =
    Reach.next (Reach.next Reach.here (Step.association (str "dfsp1") in_euro empty (true, refl)))
      (Step.association (str "dfsp2") in_dollars _ (false, refl))

lookup-IsCurrent_example :
    IsCurrent parties cache 5
      (λ w. w.0)
      (λ w. w.1)
      store-EntryLaws
      Known
      Known-AreApart
      (str "dfsp2")
      in_dollars
      after_history
unfolding account_lookup_bc.Mongo.Provider.get_participant_fsp_id
    account_lookup_bc.Mongo.Provider.associate_participant get_key_with_prefix
lookup-IsCurrent_example =
    lookup-IsCurrent parties cache 5 (λ w. w.0) (λ w. w.1) store-EntryLaws Known Known-AreApart
      {w = empty} (λ j. refl) history in_dollars (str "dfsp2") (false, refl) refl

store-Steady : Steady parties cache (λ w. w.0) (λ w. w.1)
store-Steady = record {
  finds = λ q w. refl;
  deletes = λ q w. (_, refl);
  reads = λ k w. refl;
  writes = λ k secs text w. refl;
  clears = λ k w. refl;
}

abbrev in_any_currency : Party
in_any_currency = record in_euro { currency = null }

abbrev one_association : Store
one_association = (document_of (owned_by (str "dfsp1") in_euro) ∷ [], λ j. null)

answers_after_removal_example :
    let v =
      (Stale.disassociate parties cache 5
        (λ w. w.0)
        (λ w. w.1)
        store-EntryLaws
        store-Steady
        (str "dfsp1")
        in_euro
        (Stale.look_up parties cache 5
          (λ w. w.0)
          (λ w. w.1)
          store-EntryLaws
          store-Steady
          in_any_currency
          one_association).1).1 in
    (v.0 ≡ [])
    × ((Stale.look_up parties cache 5
          (λ w. w.0)
          (λ w. w.1)
          store-EntryLaws
          store-Steady
          in_any_currency
          v).0
        ≡ ok (str "dfsp1"))
unfolding get_key_with_prefix
answers_after_removal_example =
    answers_after_removal parties cache 5 (λ w. w.0) (λ w. w.1) store-EntryLaws store-Steady
      in_any_currency in_euro (str "dfsp1") (association (str "dfsp1") null null null null)
      one_association refl refl (texts-ne _ _ refl) refl refl (texts-ne _ _ refl)
