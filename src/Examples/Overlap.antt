-- ===== src/Examples/Overlap.antt =====
-- Changes of the remote oracle that overlap.
use account_lookup_bc.Common.{
  String, texts-ne, null, str, ◌≡◌, refl, some, List, [], ◌∷◌, ok, throw, Option, Result,
  base_error, ◌==◌, if◌then◌else◌,
}
use account_lookup_bc.Domain.Entities.{Association}
use account_lookup_bc.RemoteOracle.{
  File, init, get_participant_fsp_id, RemoteOracle, create_key, save_to_file, associate_participant,
}
use account_lookup_bc.RemoteOracle.Table.{lookup, insert, values}
use account_lookup_bc.RemoteOracle.Changes.{Change, make_change}
use account_lookup_bc.RemoteOracle.Overlap.{Disk, begun}
use account_lookup_bc.RemoteOracle.Lost.{Ends, disk, overlap_can_lose}

abbrev encode : List Association → String
encode [] = "none"
encode (a ∷ []) = "one"
encode (a ∷ b ∷ rest) = "more"

abbrev idle : RemoteOracle Disk
idle = record { associations = []; world = record { contents = "none"; pending = [] } }

abbrev waiting : RemoteOracle Disk
waiting =
    (make_change (begun encode) Change.association (str "dfsp1") (str "MSISDN") (str "123") null
      null idle).1

abbrev settled : RemoteOracle Disk
settled = record {
  associations = waiting.associations;
  world = record { contents = encode (values waiting.associations); pending = [] };
}

-- The only text that is read back.
abbrev decode : String → Result (Option (List Association))
decode text = if text == "one" then ok (some (values waiting.associations)) else throw base_error

abbrev file : File Disk
file = disk encode decode

overlap_can_lose_example :
    let (r, t) =
      associate_participant file (str "dfsp1") (str "MSISDN") (str "123") null null idle in
    let (r', t') =
      associate_participant file (str "dfsp2") (str "MSISDN") (str "456") null null t in
    let answer = get_participant_fsp_id file (str "MSISDN") (str "123") null null in
    let answer' = get_participant_fsp_id file (str "MSISDN") (str "456") null null in
    (r ≡ ok tt)
    × (r' ≡ ok tt)
    × ((answer' t').0 ≡ ok (str "dfsp2"))
    × (t'.world.pending ≡ encode (values t.associations) ∷ encode (values t'.associations) ∷ [])
    × ((between last : Disk) × Ends t'.world between
        × Ends between last
        × (last.pending ≡ [])
        × (let (started, u) = init file (record { associations = []; world = last }) in
            (started ≡ ok tt) × ((answer u).0 ≡ ok (str "dfsp1")) × ((answer' u).0 ≡ ok null)))
unfolding lookup create_key associate_participant save_to_file insert values
overlap_can_lose_example =
    overlap_can_lose encode decode (str "dfsp1") (str "MSISDN") (str "123") null null (str "dfsp2")
      (str "MSISDN") (str "456") null null idle (record { distinct = tt; keyed = tt }) refl refl
      refl (texts-ne _ _ refl) (record { decoded = refl; not_empty = texts-ne _ _ refl })
