-- ===== src/RemoteOracle/Changes.antt =====
-- The two changes of RemoteOracle's map: each is refused, or saves another map.
use account_lookup_bc.Common.{
  Nullable, ◌≡◌, ◌⊎◌, inl, inr, Action, throw, base_error, Option-cases, Bool-cases,
}
use account_lookup_bc.Domain.Entities.{Association}
use account_lookup_bc.RemoteOracle.Table.{Dict, lookup, insert, erase}
use account_lookup_bc.RemoteOracle.{
  File, RemoteOracle, create_key, save_to_file, associate_participant, disassociate_participant,
}
use account_lookup_bc.RemoteOracle.Indexed.{IsIndexed, changes-IsIndexed}
use account_lookup_bc.RemoteOracle.Laws.{
  new_association, owned_by, run_taken, run_free, run_owned, refused,
}

-- A change of the map.
pub data Change : Type 0 where
  association disassociation : Change

abbrev pub make_change :
    {W : Type 0}
    → File W
    → Change
    → (fsp_id party_type party_id party_sub_type currency : Nullable) → Action (RemoteOracle W) Unit
make_change file association = associate_participant file
make_change file disassociation = disassociate_participant file

pub change_run :
    {W : Type 0} (file : File W) (c : Change)
    (fsp_id party_type party_id party_sub_type currency : Nullable) (s : RemoteOracle W)
    → (make_change file c fsp_id party_type party_id party_sub_type currency s
        ≡ (throw base_error, s))
      ⊎ ((d : Dict Association) × (make_change file c fsp_id party_type party_id party_sub_type
              currency s
            ≡ save_to_file file (record s { associations = d })))
change_run file association fsp_id party_type party_id party_sub_type currency s =
    let key = create_key party_id party_type currency in
    elim (Option-cases (lookup key s.associations)) [
      | inr (b, taken) ↦
          inl (run_taken file fsp_id party_type party_id party_sub_type currency s b taken)
      | inl free ↦
          let a = new_association file fsp_id party_type party_id party_sub_type currency s in
          inr (
            insert key a s.associations,
            run_free file fsp_id party_type party_id party_sub_type currency s free,
          )
    ]
change_run file disassociation fsp_id party_type party_id party_sub_type currency s =
    let key = create_key party_id party_type currency in
    elim (Bool-cases (owned_by fsp_id (lookup key s.associations))) [
      | inr other ↦ inl (refused file fsp_id party_type party_id party_sub_type currency s other)
      | inl owned ↦ inr (
        erase key s.associations,
        run_owned file fsp_id party_type party_id party_sub_type currency s owned,
      )
    ]

pub change-IsIndexed :
    {W : Type 0} (file : File W) (c : Change)
    (fsp_id party_type party_id party_sub_type currency : Nullable) (s : RemoteOracle W)
    → IsIndexed s.associations
    → IsIndexed
        (make_change file c fsp_id party_type party_id party_sub_type currency s).1.associations
change-IsIndexed file association fsp_id party_type party_id party_sub_type currency s h =
    (changes-IsIndexed file fsp_id party_type party_id party_sub_type currency s h).0
change-IsIndexed file disassociation fsp_id party_type party_id party_sub_type currency s h =
    (changes-IsIndexed file fsp_id party_type party_id party_sub_type currency s h).1
