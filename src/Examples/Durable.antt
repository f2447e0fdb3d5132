-- ===== src/Examples/Durable.antt =====
-- The remote oracle stopped and started again, over a file that is a list of texts.
use account_lookup_bc.Common.{
  String, texts-ne, false, if◌then◌else◌, ◌==◌, Nullable, undefined, str, ◌≡◌, refl, true, Option,
  none, some, List, [], ◌∷◌, arith, ok, throw, base_error, ◌>>◌,
}
use account_lookup_bc.Domain.Entities.{Association}
use account_lookup_bc.RemoteOracle.{File, RemoteOracle, get_participant_fsp_id}
use account_lookup_bc.RemoteOracle.Table.{Dict, lookup, insert, values}
use account_lookup_bc.RemoteOracle.Service.{Server, start, stop}
use account_lookup_bc.RemoteOracle.Changes.{Change, make_change}
use account_lookup_bc.RemoteOracle.Restart.{FileLaws, ServerLaws, running, restart_keeps_answers}

abbrev known : Association
known = record {
  fsp_id = str "dfsp1";
  party_type = str "MSISDN";
  party_id = str "123";
  party_sub_type = undefined;
  currency = undefined;
}

abbrev newest : List String → Option String
newest [] = none
newest (text ∷ w) = some text

abbrev disk : File (List String)
disk = record {
  exists = λ w. (ok (elim w [ [] ↦ false | _ ∷ _ ↦ true ]), w);
  read = λ w. (elim w [ [] ↦ throw base_error | text ∷ _ ↦ ok text ], w);
  write = λ text w. (ok tt, text ∷ w);
  decode = λ text. if text == "one" then ok (some (known ∷ [])) else ok none;
  encode = λ records. elim records [ [] ↦ "none" | _ ∷ _ ↦ "one" ];
}

exists_there :
    (text : String) (w : List String) → newest w ≡ some text → (disk.exists w).0 ≡ ok true
exists_there text [] e = absurd (ground arith)
exists_there text (first ∷ w) e = refl

reads_newest : (text : String) (w : List String) → newest w ≡ some text → (disk.read w).0 ≡ ok text
reads_newest text [] e = absurd (ground arith)
reads_newest text (first ∷ w) e = ground arith

disk-FileLaws : FileLaws disk newest
disk-FileLaws = record {
  written = λ text w e. refl;
  exists_answers = exists_there;
  exists_keeps = λ w. refl;
  read_answers = reads_newest;
}

abbrev server : Server (List String)
server = record { listen = λ w. (ok tt, w); close = λ w. (ok tt, w) }

server-ServerLaws : ServerLaws server newest
server-ServerLaws = record { listens = λ w. refl; closes = λ w. refl; close_keeps = λ w. refl }

abbrev empty : RemoteOracle (List String)
empty = record { associations = []; world = [] }

restart_keeps_answers_example :
    let t =
      (make_change disk Change.association
        (str "dfsp1")
        (str "MSISDN")
        (str "123")
        undefined
        undefined
        empty).1 in
    let (r, v) = (do stop disk server; start disk server none) (running t) in
    (r ≡ ok tt)
    × (v.express_server ≡ true)
    × ((loaded : Dict Association) × (v.remote_oracle ≡ some loaded)
        × ((type id sub_type money : Nullable)
            → (get_participant_fsp_id disk type id sub_type money
                (record { associations = loaded; world = v.world })).0
              ≡ (get_participant_fsp_id disk type id sub_type money t).0))
unfolding account_lookup_bc.RemoteOracle.associate_participant
    account_lookup_bc.RemoteOracle.save_to_file lookup insert values
restart_keeps_answers_example =
    restart_keeps_answers disk server newest disk-FileLaws server-ServerLaws Change.association
      (str "dfsp1") (str "MSISDN") (str "123") undefined undefined empty
      (record { distinct = tt; keyed = tt }) refl
      (record { decoded = refl; not_empty = texts-ne _ _ refl })
