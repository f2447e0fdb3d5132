-- ===== src/Aggregate/Admin/Embedding.antt =====
-- One list of ids within another, in the same order, and no id twice.
use account_lookup_bc.Common.{
  String, inl, inr, Bool, not, List, [], ◌∷◌, ◌++◌, ◌==◌, select, remove_first, Bool-cases,
}

-- The first list is the second one without some of its elements.
pub data Within : List String → List String → Type 0 where
  nothing : Within [] []
  keep : (x : String) {xs ys : List String} → Within xs ys → Within (x ∷ xs) (x ∷ ys)
  skip : (y : String) {xs ys : List String} → Within xs ys → Within xs (y ∷ ys)

pub Within-refl : (xs : List String) → Within xs xs
Within-refl [] = nothing
Within-refl (x ∷ xs) = keep x (Within-refl xs)

pub Within-append :
    {xs ys : List String} (z : String) → Within xs ys → Within (xs ++ z ∷ []) (ys ++ z ∷ [])
Within-append z nothing = keep z nothing
Within-append z (keep x w) = keep x (Within-append z w)
Within-append z (skip y w) = skip y (Within-append z w)

pub Within-extra : {xs ys : List String} (z : String) → Within xs ys → Within xs (ys ++ z ∷ [])
Within-extra z nothing = skip z nothing
Within-extra z (keep x w) = keep x (Within-extra z w)
Within-extra z (skip y w) = skip y (Within-extra z w)

Within-select : (p : String → Bool) {xs ys : List String} → Within xs ys → Within (select p xs) ys
Within-select p nothing = nothing
Within-select p (skip y w) = skip y (Within-select p w)
Within-select p (keep x w) = elim (Bool-cases (p x)) [
  | inl e ↦ rw (e, select) (keep x (Within-select p w))
  | inr e ↦ rw (e, select) (skip x (Within-select p w))
]

-- All occurrences of an id are taken out of the one list, and the first one out of the other.
pub Within-without :
    (id : String) {xs ys : List String}
    → Within xs ys
    → Within (select (λ j. not (j == id)) xs) (remove_first (λ j. j == id) ys)
Within-without id nothing = nothing
Within-without id (skip y w) = elim (Bool-cases (y == id)) [
  | inl e ↦ rw (e, remove_first) (Within-select (λ j. not (j == id)) w)
  | inr e ↦ rw (e, remove_first) (skip y (Within-without id w))
]
Within-without id (keep x w) = elim (Bool-cases (x == id)) [
  | inl e ↦ rw (e, remove_first) (Within-select (λ j. not (j == id)) w)
  | inr e ↦ rw (e, remove_first) (keep x (Within-without id w))
]
