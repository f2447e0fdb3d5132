-- ===== src/Common/Actions.antt =====
-- An `async` method: it runs on a state, and resolves to a value or rejects with an error. The
-- state comes back after a rejection too, since what was written stays written.
use mathlib.Core.Path.{◌≡◌, refl}
use mathlib.Core.Logic.{◌⊎◌, inl, inr}

-- The error classes: those of domain-lib, of implementations-lib and of client-lib, the base class
-- `Error`, the two of the security library, and whatever else a library may raise.
pub data Error : Type 0 where
  participant_not_found unable_to_get_participant_fsp_id : Error
  unable_to_get_oracle_from_oracle_finder duplicate_oracle no_such_oracle_adapter : Error
  unable_to_remove_oracle oracle_not_found unable_to_get_oracle_associations : Error
  participant_association_already_exists unable_to_get_participant : Error
  unable_to_associate_participant unable_to_disassociate_participant : Error
  unable_to_get_association unable_to_init_oracle_provider : Error
  unable_to_init_remote_oracle_provider oracle_type_not_supported : Error
  no_such_oracle oracle_already_registered unable_to_delete_oracle unable_to_get_oracle : Error
  unable_to_register_oracle unable_to_init_oracle_finder : Error
  unable_to_close_database_connection base_error external_error : Error
  unauthorized forbidden unable_to_get_fsp_id : Error

pub data Result (A : Type 0) : Type 0 where
  ok : A → Result A
  throw : Error → Result A

abbrev pub Action : Type 0 → Type 0 → Type 0
Action S A = S → Result A × S

module _ {S A : Type 0} where
  abbrev pub pure : A → Action S A
  pure a s = (ok a, s)

  abbrev pub raise : Error → Action S A
  raise e s = (throw e, s)

  -- `try { … } catch`: the outcome is a value, and the state goes on.
  abbrev pub attempt : Action S A → Action S (Result A)
  attempt m s = let (r, s') = m s in (ok r, s')

  -- `.catch((error) => { throw … })`
  abbrev pub rethrow : (Error → Error) → Action S A → Action S A
  rethrow f m s = let (r, s') = m s in elim r [ ok a ↦ (ok a, s') | throw e ↦ (throw (f e), s') ]

infixl 5 ◌>>=◌ ◌>>◌
abbrev pub ◌>>=◌ : {S A B : Type 0} → Action S A → (A → Action S B) → Action S B
◌>>=◌ m f s = let (r, s') = m s in elim r [ ok a ↦ f a s' | throw e ↦ (throw e, s') ]

abbrev pub ◌>>◌ : {S A B : Type 0} → Action S A → Action S B → Action S B
m >> k = m >>= λ _. k

pub Result-cases :
    {A : Type 0} (r : Result A) → ((a : A) × (r ≡ ok a)) ⊎ ((e : Error) × (r ≡ throw e))
Result-cases (ok a) = inl (a, refl)
Result-cases (throw e) = inr (e, refl)
