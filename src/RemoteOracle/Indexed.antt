-- ===== src/RemoteOracle/Indexed.antt =====
-- The invariant of RemoteOracle's map.
use account_lookup_bc.Common.{
  String, Nullable, ◌≡◌, refl, inl, inr, List, [], ◌∷◌, All, arith, eq_iff, Result-cases,
}
use account_lookup_bc.Domain.Entities.{Association}
use account_lookup_bc.RemoteOracle.Table.{
  Dict, insert, erase, HasDistinctKeys, insert-HasDistinctKeys, erase-HasDistinctKeys,
}
use account_lookup_bc.RemoteOracle.{
  File, RemoteOracle, create_key, key_of, read_record, add_record, add_records, decode_contents,
  load_from_file, associate_participant, disassociate_participant,
}

-- Every key is listed once, and is the key of the association that it leads to.
pub record IsIndexed (d : Dict Association) : Type 0 where
  pub distinct : HasDistinctKeys d
  pub keyed : All (λ e. e.0 ≡ key_of e.1) d

keyed-insert :
    (k : String) (a : Association) (d : Dict Association)
    → k ≡ key_of a
    → All (λ e. e.0 ≡ key_of e.1) d
    → All (λ e. e.0 ≡ key_of e.1) (insert k a d)
unfolding insert
keyed-insert k a [] e h = (e, tt)
keyed-insert k a ((i, b) ∷ d) e h = ground (arith, eq_iff i k, keyed-insert k a d e h.1)

keyed-erase :
    (k : String) (d : Dict Association)
    → All (λ e. e.0 ≡ key_of e.1) d
    → All (λ e. e.0 ≡ key_of e.1) (erase k d)
unfolding erase
keyed-erase k [] h = tt
keyed-erase k ((i, b) ∷ d) h = ground (arith, keyed-erase k d h.1)

insert-IsIndexed :
    (k : String) (a : Association) (d : Dict Association)
    → k ≡ key_of a
    → IsIndexed d
    → IsIndexed (insert k a d)
insert-IsIndexed k a d e h = record {
  distinct = insert-HasDistinctKeys k a d h.distinct;
  keyed = keyed-insert k a d e h.keyed;
}

erase-IsIndexed : (k : String) (d : Dict Association) → IsIndexed d → IsIndexed (erase k d)
erase-IsIndexed k d h = record {
  distinct = erase-HasDistinctKeys k d h.distinct;
  keyed = keyed-erase k d h.keyed;
}

add_record-IsIndexed :
    (d : Dict Association) (r : Association) → IsIndexed d → IsIndexed (add_record d r)
unfolding add_record
add_record-IsIndexed d r h =
    ground (arith, insert-IsIndexed (key_of (read_record r)) (read_record r) d refl h)

add_records-IsIndexed :
    (d : Dict Association) (rs : List Association) → IsIndexed d → IsIndexed (add_records d rs)
unfolding add_records
add_records-IsIndexed d [] h = h
add_records-IsIndexed d (r ∷ rs) h =
    add_records-IsIndexed (add_record d r) rs (add_record-IsIndexed d r h)

empty-IsIndexed : IsIndexed []
empty-IsIndexed = record { distinct = tt; keyed = tt }

module _ {W : Type 0} (file : File W) where
  -- Loading the file ends with an indexed map, whatever the map was before, whatever the file holds
  -- (repeated records included) and whether or not the load fails.
  load_from_file-IsIndexed : (s : RemoteOracle W) → IsIndexed (load_from_file file s).1.associations
  unfolding load_from_file
  load_from_file-IsIndexed s = elim (Result-cases (file.read s.world).0) [
    | inr (e, thrown) ↦ ground (arith, empty-IsIndexed)
    | inl (text, answered) ↦
        elim (Result-cases (decode_contents file text (file.read s.world).1).0) [
          | inr (e, thrown) ↦ ground (arith, empty-IsIndexed)
          | inl (records, decoded) ↦
              ground (arith, add_records-IsIndexed [] records empty-IsIndexed)
        ]
  ]

  -- Associating and disassociating, on every path, keep a map indexed that was so.
  pub changes-IsIndexed :
      (fsp_id party_type party_id party_sub_type currency : Nullable) (s : RemoteOracle W)
      → IsIndexed s.associations
      → IsIndexed
          (associate_participant file fsp_id party_type party_id party_sub_type currency
            s).1.associations
        × IsIndexed
            (disassociate_participant file fsp_id party_type party_id party_sub_type currency
              s).1.associations
  unfolding associate_participant disassociate_participant
  changes-IsIndexed fsp_id party_type party_id party_sub_type currency s h =
      let key = create_key party_id party_type currency in
      let a : Association = record {
        party_id = party_id;
        party_type = party_type;
        party_sub_type = party_sub_type;
        currency = currency;
        fsp_id = fsp_id;
      } in
      (
        ground (arith, insert-IsIndexed key a s.associations refl h),
        ground (arith, erase-IsIndexed key s.associations h),
      )
