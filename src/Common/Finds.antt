-- ===== src/Common/Finds.antt =====
-- What `find` makes of a longer list, of a shorter one, and of a weaker test.
use mathlib.Core.Path.{◌≡◌, refl}
use mathlib.Core.Logic.{inl, inr}
use mathlib.Core.Bool.{Bool, true, false}
use mathlib.Core.Option.{some}
use mathlib.Core.List.{List, [], ◌∷◌, ◌++◌}
use native.Mathlib.Omega.{arith}
use account_lookup_bc.Common.Tests.{Bool-cases}
use account_lookup_bc.Common.Lists.{find, remove_first}

module _ {ℓ} {A : Type ℓ} (test : A → Bool) where
  pub find-passes : (x : A) (xs : List A) → find test xs ≡ some x → test x ≡ true
  find-passes x [] e = ground arith
  find-passes x (y ∷ xs) e = ground (arith, find-passes x xs)

  pub find-append : (x : A) (xs ys : List A) → find test xs ≡ some x → find test (xs ++ ys) ≡ some x
  find-append x [] ys e = ground arith
  find-append x (y ∷ xs) ys e = ground (arith, find-append x xs ys)

  pub find-last :
      (x : A) (xs : List A) → test x ≡ true → (y : A) × (find test (xs ++ x ∷ []) ≡ some y)
  find-last x [] e = (x, ground arith)
  find-last x (y ∷ xs) e = elim (Bool-cases (test y)) [
    | inl passes ↦ (y, ground arith)
    | inr fails ↦ let (z, found) = find-last x xs e in (z, ground arith)
  ]

  pub find-found :
      (other : A → Bool) (x : A) (xs : List A)
      → find test xs ≡ some x
      → other x ≡ true
      → (y : A) × (find other xs ≡ some y)
  find-found other x [] e passes = absurd (ground arith)
  find-found other x (y ∷ xs) e passes = elim (Bool-cases (other y)) [
    | inl first ↦ (y, ground arith)
    | inr later ↦ let (z, found) = find-found other x xs (ground arith) passes in (z, ground arith)
  ]

  pub find-remove_first :
      (other : A → Bool)
      → ((x : A) → test x ≡ true → other x ≡ false)
      → (xs : List A) → find test (remove_first other xs) ≡ find test xs
  find-remove_first other h [] = refl
  find-remove_first other h (y ∷ xs) = ground (arith, h y, find-remove_first other h xs)
