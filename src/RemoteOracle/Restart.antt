-- ===== src/RemoteOracle/Restart.antt =====
-- What the remote oracle knows after it was stopped and started again.
use account_lookup_bc.Common.{
  String, Nullable, ◌≡◌, ◌≢◌, ◌∙◌, ap, sym, inl, inr, true, Option, none, some, List, arith, eq_iff,
  ok, Result-cases, Option-cases, ◌>>◌,
}
use account_lookup_bc.Domain.Entities.{Association}
use account_lookup_bc.RemoteOracle.Table.{Dict, lookup, values}
use account_lookup_bc.RemoteOracle.{
  File, RemoteOracle, create_key, decode_contents, save_to_file, load_from_file, init,
  get_participant_fsp_id,
}
use account_lookup_bc.RemoteOracle.Indexed.{IsIndexed}
use account_lookup_bc.RemoteOracle.Changes.{Change, make_change, change_run, change-IsIndexed}
use account_lookup_bc.RemoteOracle.Laws.{refused}
use account_lookup_bc.RemoteOracle.Reload.{reread, lookup-reread, add_records-values-IsIndexed}
use account_lookup_bc.RemoteOracle.Service.{Server, Service, start, stop, open_oracle}

-- The file, by its contents: what was written is there and can be read.
pub record FileLaws {W : Type 0} (file : File W) (contents : W → Option String) : Type 0 where
  pub written :
      (text : String) (w : W)
      → (file.write text w).0 ≡ ok tt
      → contents (file.write text w).1 ≡ some text
  pub exists_answers :
      (text : String) (w : W) → contents w ≡ some text → (file.exists w).0 ≡ ok true
  pub exists_keeps : (w : W) → contents (file.exists w).1 ≡ contents w
  pub read_answers : (text : String) (w : W) → contents w ≡ some text → (file.read w).0 ≡ ok text

-- JSON reads back these records.
pub record ReadsBack {W : Type 0} (file : File W) (records : List Association) : Type 0 where
  pub decoded : file.decode (file.encode records) ≡ ok (some records)
  pub not_empty : file.encode records ≢ ""

-- The server listens and closes when it is told to, and leaves the file alone.
pub record ServerLaws {W : Type 0} (server : Server W) (contents : W → Option String) : Type 0 where
  pub listens : (w : W) → (server.listen w).0 ≡ ok tt
  pub closes : (w : W) → (server.close w).0 ≡ ok tt
  pub close_keeps : (w : W) → contents (server.close w).1 ≡ contents w

-- The service while it runs, over an oracle.
abbrev pub running : {W : Type 0} → RemoteOracle W → Service W
running t = record { remote_oracle = some t.associations; express_server = true; world = t.world }

module _ {W : Type 0} (file : File W) (server : Server W) (contents : W → Option String)
    (files : FileLaws file contents) (servers : ServerLaws server contents) where
  load_saved :
      (d : Dict Association) (w : W)
      → IsIndexed d
      → ReadsBack file (values d)
      → contents w ≡ some (file.encode (values d))
      → (open_oracle file server w).0 ≡ ok (reread d)
  unfolding open_oracle init load_from_file decode_contents
  load_saved d w h back saved =
      let text = file.encode (values d) in
      let w1 = (file.exists w).1 in
      let there = files.exists_answers text w saved in
      let read = files.read_answers text w1 (files.exists_keeps w ∙ saved) in
      let full = back.not_empty in
      ground
        (arith, there, read, eq_iff text "", full, back.decoded, add_records-values-IsIndexed d h)

  save_to_file-saves :
      (s : RemoteOracle W)
      → (save_to_file file s).0 ≡ ok tt
      → contents (save_to_file file s).1.world
        ≡ some (file.encode (values (save_to_file file s).1.associations))
  unfolding save_to_file
  save_to_file-saves s e =
      let text = file.encode (values s.associations) in
      elim (Result-cases (file.write text s.world).0) [
        | inr (x, thrown) ↦ absurd (ground arith)
        | inl (_, written) ↦ ground (arith, written, files.written text s.world written)
      ]

  module _ (fsp_id party_type party_id party_sub_type currency : Nullable)
      (s : RemoteOracle W) where
    change-saves :
        (c : Change)
        → let (r, t) = make_change file c fsp_id party_type party_id party_sub_type currency s in
          r ≡ ok tt → contents t.world ≡ some (file.encode (values t.associations))
    change-saves c e =
        elim (change_run file c fsp_id party_type party_id party_sub_type currency s) [
          | inl refused ↦ absurd (ground (arith, refused))
          | inr (d, run) ↦
              let t : RemoteOracle W = record s { associations = d } in
              rw run (save_to_file-saves t (sym (ap (λ x. x.0) run) ∙ e))
        ]

  restart_run :
      (t : RemoteOracle W)
      → IsIndexed t.associations
      → ReadsBack file (values t.associations)
      → contents t.world ≡ some (file.encode (values t.associations))
      → let (r, v) = (do stop file server; start file server none) (running t) in
        (r ≡ ok tt) × (v.remote_oracle ≡ some (reread t.associations)) × (v.express_server ≡ true)
  unfolding stop start
  restart_run t h back saved =
      let w1 = (server.close t.world).1 in
      let loaded = load_saved t.associations w1 h back (servers.close_keeps t.world ∙ saved) in
      let w2 = (open_oracle file server w1).1 in
      let closed = servers.closes t.world in
      let listens = servers.listens w2 in
      (
        ground (arith, closed, loaded, listens),
        ground (arith, closed, loaded, listens),
        ground (arith, closed, loaded, listens),
      )

  reread_answers :
      (party_type party_id party_sub_type currency : Nullable) (t : RemoteOracle W) (w : W)
      → (get_participant_fsp_id file party_type party_id party_sub_type currency
          (record { associations = reread t.associations; world = w })).0
        ≡ (get_participant_fsp_id file party_type party_id party_sub_type currency t).0
  unfolding get_participant_fsp_id
  reread_answers party_type party_id party_sub_type currency t w =
      let key = create_key party_id party_type currency in
      elim (Option-cases (lookup key t.associations)) [
        | inl free ↦ ground (arith, lookup-reread key t.associations, free)
        | inr (a, found) ↦ ground (arith, lookup-reread key t.associations, found)
      ]

  -- Over a file that keeps what was written, and with a server that listens and closes: after an
  -- association or a disassociation that succeeds on an indexed map, with JSON that reads back the
  -- records of the new map, stopping the service and starting it again succeeds, the server is set,
  -- and the oracle that was loaded answers every lookup as the one before the stop did.
  pub restart_keeps_answers :
      (c : Change) (fsp_id party_type party_id party_sub_type currency : Nullable)
      (s : RemoteOracle W)
      → IsIndexed s.associations
      → (make_change file c fsp_id party_type party_id party_sub_type currency s).0 ≡ ok tt
      → ReadsBack file (
          values
            (make_change file c fsp_id party_type party_id party_sub_type currency
              s).1.associations)
      → let t = (make_change file c fsp_id party_type party_id party_sub_type currency s).1 in
        let (r, v) = (do stop file server; start file server none) (running t) in
        (r ≡ ok tt)
        × (v.express_server ≡ true)
        × ((loaded : Dict Association) × (v.remote_oracle ≡ some loaded)
            × ((type id sub_type money : Nullable)
                → (get_participant_fsp_id file type id sub_type money
                    (record { associations = loaded; world = v.world })).0
                  ≡ (get_participant_fsp_id file type id sub_type money t).0))
  restart_keeps_answers c fsp_id party_type party_id party_sub_type currency s h e back =
      let t = (make_change file c fsp_id party_type party_id party_sub_type currency s).1 in
      let indexed =
        change-IsIndexed file c fsp_id party_type party_id party_sub_type currency s h in
      let saved = change-saves fsp_id party_type party_id party_sub_type currency s c e in
      let (started, loaded, listening) = restart_run t indexed back saved in
      let v = ((do stop file server; start file server none) (running t)).1 in
      (
        started,
        listening,
        (
          reread t.associations,
          loaded,
          λ type id sub_type money. reread_answers type id sub_type money t v.world,
        ),
      )
