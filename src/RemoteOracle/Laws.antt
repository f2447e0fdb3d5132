-- ===== src/RemoteOracle/Laws.antt =====
-- What associating and disassociating do to RemoteOracle's map and file.
use account_lookup_bc.Common.{
  Bool, String, Nullable, strict_eq, ◌≡◌, refl, ◌↔◌, ◌⊎◌, inl, inr, true, false, Option, none, some,
  arith, ◌==◌, if◌then◌else◌, ok, throw, base_error, Option-cases, Bool-cases,
}
use account_lookup_bc.Domain.Entities.{Association}
use account_lookup_bc.RemoteOracle.Table.{
  lookup, insert, erase, values, HasDistinctKeys, lookup-insert, lookup-erase,
}
use account_lookup_bc.RemoteOracle.{
  File, RemoteOracle, create_key, save_to_file, associate_participant, disassociate_participant,
}

-- The association that was found is the FSP's.
abbrev pub owned_by : Nullable → Option Association → Bool
owned_by fsp_id none = false
owned_by fsp_id (some a) = strict_eq a.fsp_id fsp_id

module _ {W : Type 0} (file : File W) where
  save_to_file_lem :
      (t : RemoteOracle W)
      → (((save_to_file file t).0 ≡ ok tt)
          ↔ ((file.write (file.encode (values t.associations)) t.world).0 ≡ ok tt))
        × ((save_to_file file t).1.associations ≡ t.associations)
  unfolding save_to_file
  save_to_file_lem t = ((λ e. ground arith, λ e. ground arith), ground arith)

  module _ (fsp_id party_type party_id party_sub_type currency : Nullable)
      (s : RemoteOracle W) where
    abbrev pub new_association : Association
    new_association = record {
      party_id = party_id;
      party_type = party_type;
      party_sub_type = party_sub_type;
      currency = currency;
      fsp_id = fsp_id;
    }

    pub run_taken :
        (a : Association)
        → lookup (create_key party_id party_type currency) s.associations ≡ some a
        → associate_participant file fsp_id party_type party_id party_sub_type currency s
          ≡ (throw base_error, s)
    unfolding associate_participant
    run_taken a taken = ground arith

    pub run_free :
        lookup (create_key party_id party_type currency) s.associations ≡ none
        → associate_participant file fsp_id party_type party_id party_sub_type currency s
          ≡ save_to_file file (record s {
            associations =
                insert (create_key party_id party_type currency) new_association s.associations;
          })
    unfolding associate_participant
    run_free free = ground arith

    -- Associating a party whose key is taken throws and changes nothing. Otherwise the new
    -- association stands under its key and every other key is as it was, also where the file cannot
    -- be written; and the call succeeds exactly when the whole new map could be written to the file.
    pub associate_participant_effect :
        let key = create_key party_id party_type currency in
        let (r, s') =
          associate_participant file fsp_id party_type party_id party_sub_type currency s in
        ((a : Association) × (lookup key s.associations ≡ some a)
          × (r ≡ throw base_error)
          × (s' ≡ s))
        ⊎ ((lookup key s.associations ≡ none)
            × ((j : String)
                → lookup j s'.associations
                  ≡ (if key == j then some new_association else lookup j s.associations))
            × ((r ≡ ok tt)
                ↔ ((file.write (file.encode (values s'.associations)) s.world).0 ≡ ok tt)))
    unfolding associate_participant
    associate_participant_effect =
        let key = create_key party_id party_type currency in
        let t : RemoteOracle W = record s {
          associations = insert key new_association s.associations;
        } in
        let (saved, same) = save_to_file_lem t in
        elim (Option-cases (lookup key s.associations)) [
          | inr (a, taken) ↦
              inl (a, taken, rw (run_taken a taken) refl, rw (run_taken a taken) refl)
          | inl free ↦ inr (
            free,
            λ j. rw (run_free free) (rw same (lookup-insert key j new_association s.associations)),
            rw (run_free free) (rw same saved),
          )
        ]

    pub run_owned :
        owned_by fsp_id (lookup (create_key party_id party_type currency) s.associations) ≡ true
        → disassociate_participant file fsp_id party_type party_id party_sub_type currency s
          ≡ save_to_file file (record s {
            associations = erase (create_key party_id party_type currency) s.associations;
          })
    unfolding disassociate_participant
    run_owned owned =
        elim (Option-cases (lookup (create_key party_id party_type currency) s.associations)) [
          | inl free ↦ absurd (ground arith)
          | inr (a, found) ↦ ground arith
        ]

    pub refused :
        owned_by fsp_id (lookup (create_key party_id party_type currency) s.associations) ≡ false
        → disassociate_participant file fsp_id party_type party_id party_sub_type currency s
          ≡ (throw base_error, s)
    unfolding disassociate_participant
    refused other =
        elim (Option-cases (lookup (create_key party_id party_type currency) s.associations)) [
          | inl free ↦ ground arith
          | inr (a, found) ↦ ground arith
        ]

    -- Of a map that lists every key once: disassociating throws and changes nothing unless the FSP is
    -- the one that the party's key leads to. Then the key leads nowhere and every other key is as it was, also where the file cannot be
    -- written; and the call succeeds exactly when the whole new map could be written to the file.
    pub disassociate_participant_effect :
        HasDistinctKeys s.associations
        → let key = create_key party_id party_type currency in
          let (r, s') =
            disassociate_participant file fsp_id party_type party_id party_sub_type currency s in
          ((owned_by fsp_id (lookup key s.associations) ≡ false)
            × (r ≡ throw base_error)
            × (s' ≡ s))
          ⊎ ((owned_by fsp_id (lookup key s.associations) ≡ true)
              × ((j : String)
                  → lookup j s'.associations ≡ (if key == j then none else lookup j s.associations))
              × ((r ≡ ok tt)
                  ↔ ((file.write (file.encode (values s'.associations)) s.world).0 ≡ ok tt)))
    disassociate_participant_effect h =
        let key = create_key party_id party_type currency in
        let t : RemoteOracle W = record s { associations = erase key s.associations } in
        let (saved, same) = save_to_file_lem t in
        elim (Bool-cases (owned_by fsp_id (lookup key s.associations))) [
          | inr other ↦ inl (other, rw (refused other) refl, rw (refused other) refl)
          | inl owned ↦ inr (
            owned,
            λ j. rw (run_owned owned) (rw same (lookup-erase key j s.associations h)),
            rw (run_owned owned) (rw same saved),
          )
        ]
