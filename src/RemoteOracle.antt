-- ===== src/RemoteOracle.antt =====
-- packages/http-oracle-svc/src/remote_oracle.ts, class RemoteOracle: a map from keys to
-- associations, kept in memory and written to a file after each change.
pub mod Table
pub mod Indexed
pub mod Laws
pub mod Keys
pub mod Routes
pub mod Service
pub mod Reload
pub mod Changes
pub mod Restart
pub mod Overlap
pub mod Lost
use Prim.Native.String.{◌++◌}
use text.Mathlib.Text.{◌==◌}
use account_lookup_bc.Common.{
  String, Nullable, undefined, null, str, or_null, shown, strict_eq, Bool, true, false, Option,
  none, some, List, [], ◌∷◌, map, if◌then◌else◌, Action, Result, Error, base_error, ok, throw, pure,
  raise, rethrow, ◌>>=◌, ◌>>◌,
}
use account_lookup_bc.Domain.Entities.{Association}
use account_lookup_bc.RemoteOracle.Table.{Dict, lookup, insert, erase, values}

-- The file: `fs`, and `JSON` for its contents. A text that is no JSON makes `decode` throw, and one
-- that holds no array of associations decodes to `none`.
pub record File (W : Type 0) : Type 0 where
  pub exists : Action W Bool
  pub read : Action W String
  pub write : String → Action W Unit
  pub decode : String → Result (Option (List Association))
  pub encode : List Association → String

pub record RemoteOracle (W : Type 0) : Type 0 where
  pub associations : Dict Association
  pub world : W

-- `checkNull`
abbrev pub check_null : Nullable → String
check_null undefined = "NULL"
check_null null = "NULL"
check_null (str s) = s

-- `createKey`
unfoldable pub create_key : (party_id party_type currency : Nullable) → String
create_key party_id party_type currency =
    shown party_id ++ ("-" ++ (shown party_type ++ ("-" ++ check_null currency)))

abbrev pub key_of : Association → String
key_of a = create_key a.party_id a.party_type a.currency

-- One round of the loop of `_loadFromFile`.
abbrev pub read_record : Association → Association
read_record r = record {
  party_id = r.party_id;
  fsp_id = r.fsp_id;
  party_type = r.party_type;
  party_sub_type = or_null r.party_sub_type;
  currency = or_null r.currency;
}

add_record : Dict Association → Association → Dict Association
add_record d r = elim (lookup (key_of (read_record r)) d) [
  | some _ ↦ d
  | none ↦ insert (key_of (read_record r)) (read_record r) d
]

pub add_records : Dict Association → List Association → Dict Association
add_records d [] = d
add_records d (r ∷ rs) = add_records (add_record d r) rs

module _ {W A : Type 0} where
  abbrev pub lift : Action W A → Action (RemoteOracle W) A
  lift m s = let (r, w) = m s.world in (r, record s { world = w })

  abbrev pub gets : (Dict Association → A) → Action (RemoteOracle W) A
  gets f s = (ok (f s.associations), s)

abbrev pub update :
    {W : Type 0} → (Dict Association → Dict Association) → Action (RemoteOracle W) Unit
update f s = (ok tt, record s { associations = f s.associations })

module _ {W : Type 0} (file : File W) where
  -- the records of the file's contents
  decode_contents : String → Action W (List Association)
  decode_contents text w = if text == "" then (ok [], w) else (elim (file.decode text) [
    | throw e ↦ (throw base_error, w)
    | ok none ↦ (ok [], w)
    | ok (some records) ↦ (ok records, w)
  ])

  -- `_loadFromFile`
  unfoldable pub load_from_file : Action (RemoteOracle W) Unit
  unfolding add_records add_record decode_contents
  load_from_file = do
    update (λ _. [])
    text ← rethrow (λ _. base_error) (lift file.read)
    records ← lift (decode_contents text)
    update (λ d. add_records d records)

  unfoldable pub init : Action (RemoteOracle W) Unit
  unfolding load_from_file
  init = do exists ← lift file.exists; elim exists [ false ↦ pure tt | true ↦ load_from_file ]

  -- `_saveToFile`
  unfoldable pub save_to_file : Action (RemoteOracle W) Unit
  save_to_file = do
    records ← gets values
    rethrow (λ _. base_error) (lift (file.write (file.encode records)))

  unfoldable pub get_participant_fsp_id :
      (party_type party_id party_sub_type currency : Nullable) → Action (RemoteOracle W) Nullable
  get_participant_fsp_id party_type party_id party_sub_type currency = do
    found ← gets (lookup (create_key party_id party_type currency))
    elim found [ none ↦ pure null | some a ↦ pure a.fsp_id ]

  unfoldable pub associate_participant :
      (fsp_id party_type party_id party_sub_type currency : Nullable) → Action (RemoteOracle W) Unit
  unfolding save_to_file
  associate_participant fsp_id party_type party_id party_sub_type currency = do
    let key = create_key party_id party_type currency
    found ← gets (lookup key)
    elim found [
      | some _ ↦ raise base_error
      | none ↦ do
        update (
            insert key (record {
              party_id = party_id;
              party_type = party_type;
              party_sub_type = party_sub_type;
              currency = currency;
              fsp_id = fsp_id;
            }))
        save_to_file
    ]

  unfoldable pub disassociate_participant :
      (fsp_id party_type party_id party_sub_type currency : Nullable) → Action (RemoteOracle W) Unit
  unfolding save_to_file
  disassociate_participant fsp_id party_type party_id party_sub_type currency = do
    let key = create_key party_id party_type currency
    found ← gets (lookup key)
    elim found [
      | none ↦ raise base_error
      | some a ↦
          if strict_eq a.fsp_id fsp_id
          then (do update (erase key); save_to_file)
          else raise base_error
    ]
