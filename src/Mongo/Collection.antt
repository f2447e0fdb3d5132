-- ===== src/Mongo/Collection.antt =====
-- What the code asks of a MongoDB collection, and what it relies on. The driver is not part of the
-- repository: its calls are the fields of `Collection`, and its documented behaviour is the record
-- `CollectionLaws` over the documents that the collection holds.
use account_lookup_bc.Common.{
  ℕ, Nullable, undefined, null, str, ◌≡◌, Bool, true, false, Option, none, some, List, [], ◌∷◌,
  ◌++◌, ◌==◌, find, select, remove_first, Action, Error, ok, throw,
}

pub record Collection (W Doc Query : Type 0) : Type 0 where
  pub find_one : Query → Action W (Option Doc)
  pub find_all : Query → Action W (List Doc)
  pub insert_one : Doc → Action W Unit
  -- the number of documents that were deleted
  pub delete_one : Query → Action W ℕ

-- `{ field: value }` in a query: `null` and `undefined` both fit a field that is null or missing.
abbrev pub fits : Nullable → Nullable → Bool
fits undefined undefined = true
fits undefined null = true
fits null undefined = true
fits null null = true
fits (str s) (str t) = t == s
fits _ _ = false

-- A condition that may have been left out of the query.
abbrev pub fits_if : Option Nullable → Nullable → Bool
fits_if none field = true
fits_if (some value) field = fits value field

abbrev pub count_one {ℓ} : {A : Type ℓ} → Option A → ℕ
count_one none = 0
count_one (some _) = 1

pub record CollectionLaws {W Doc Query : Type 0} (c : Collection W Doc Query) (docs : W → List Doc)
    (matches : Query → Doc → Bool) : Type 0 where
  pub find_one_reads :
      (q : Query) (w : W) (found : Option Doc)
      → (c.find_one q w).0 ≡ ok found
      → found ≡ find (matches q) (docs w)
  pub find_one_keeps : (q : Query) (w : W) → docs (c.find_one q w).1 ≡ docs w
  pub find_all_reads :
      (q : Query) (w : W) (found : List Doc)
      → (c.find_all q w).0 ≡ ok found
      → found ≡ select (matches q) (docs w)
  pub find_all_keeps : (q : Query) (w : W) → docs (c.find_all q w).1 ≡ docs w
  pub insert_one_adds :
      (d : Doc) (w : W)
      → (c.insert_one d w).0 ≡ ok tt
      → docs (c.insert_one d w).1 ≡ docs w ++ d ∷ []
  pub insert_one_fails :
      (d : Doc) (w : W) (e : Error)
      → (c.insert_one d w).0 ≡ throw e
      → docs (c.insert_one d w).1 ≡ docs w
  pub delete_one_removes :
      (q : Query) (w : W) (n : ℕ)
      → (c.delete_one q w).0 ≡ ok n
      → (docs (c.delete_one q w).1 ≡ remove_first (matches q) (docs w))
        × (n ≡ count_one (find (matches q) (docs w)))
  pub delete_one_fails :
      (q : Query) (w : W) (e : Error)
      → (c.delete_one q w).0 ≡ throw e
      → docs (c.delete_one q w).1 ≡ docs w
