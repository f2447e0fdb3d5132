-- ===== src/RemoteOracle/Lost.antt =====
-- An association of the remote oracle that is lost when two writes of the file end out of order.
use account_lookup_bc.Common.{
  String, Nullable, ◌≡◌, ◌≢◌, refl, sym, ◌∙◌, ap, subst, Option, none, some, List, [], ◌∷◌, ◌++◌,
  arith, eq_iff, eq_refl, Result, ok, null,
}
use account_lookup_bc.Domain.Entities.{Association}
use account_lookup_bc.RemoteOracle.Table.{Dict, lookup, insert, values, lookup-insert}
use account_lookup_bc.RemoteOracle.{
  File, RemoteOracle, create_key, read_record, decode_contents, save_to_file, load_from_file, init,
  associate_participant, get_participant_fsp_id,
}
use account_lookup_bc.RemoteOracle.Indexed.{IsIndexed}
use account_lookup_bc.RemoteOracle.Laws.{new_association, run_free}
use account_lookup_bc.RemoteOracle.Reload.{
  reread, reread_found, lookup-reread, add_records-values-IsIndexed,
}
use account_lookup_bc.RemoteOracle.Restart.{ReadsBack}
use account_lookup_bc.RemoteOracle.Changes.{Change, change-IsIndexed}
use account_lookup_bc.RemoteOracle.Overlap.{Disk, begun}

-- One of the writes that were begun ends, whichever it is.
pub data Ends : Disk → Disk → Type 0 where
  ends :
      (contents text : String) (before after : List String)
      → Ends
          (record { contents = contents; pending = before ++ text ∷ after })
          (record { contents = text; pending = before ++ after })

module _ (encode : List Association → String)
    (decode : String → Result (Option (List Association))) where
  -- The file, which a start reads as it stands.
  abbrev pub disk : File Disk
  disk = record (begun encode) { decode = decode }

  -- What an association leaves while it waits: its text is the last of the writes that were begun.
  associate_begins :
      (fsp_id party_type party_id party_sub_type currency : Nullable) (s : RemoteOracle Disk)
      → lookup (create_key party_id party_type currency) s.associations ≡ none
      → let key = create_key party_id party_type currency in
        let a = new_association disk fsp_id party_type party_id party_sub_type currency s in
        let d = insert key a s.associations in
        associate_participant disk fsp_id party_type party_id party_sub_type currency s ≡ (
          ok tt,
          record {
            associations = d;
            world = record s.world { pending = s.world.pending ++ encode (values d) ∷ [] };
          },
        )
  unfolding save_to_file
  associate_begins fsp_id party_type party_id party_sub_type currency s free =
      run_free disk fsp_id party_type party_id party_sub_type currency s free

  abbrev at_rest : Dict Association → Disk
  at_rest d = record { contents = encode (values d); pending = [] }

  init_reads :
      (d : Dict Association)
      → IsIndexed d
      → ReadsBack disk (values d)
      → init disk (record { associations = []; world = at_rest d })
        ≡ (ok tt, record { associations = reread d; world = at_rest d })
  unfolding init load_from_file decode_contents
  init_reads d h back =
      let text = encode (values d) in
      ground (arith, eq_iff text "", back.not_empty, back.decoded, add_records-values-IsIndexed d h)

  found :
      (party_type party_id party_sub_type currency : Nullable) (d : Dict Association)
      (a : Association) (w : Disk)
      → lookup (create_key party_id party_type currency) d ≡ some a
      → (get_participant_fsp_id disk party_type party_id party_sub_type currency
          (record { associations = d; world = w })).0
        ≡ ok a.fsp_id
  unfolding get_participant_fsp_id
  found party_type party_id party_sub_type currency d a w e = ground (arith, e)

  missing :
      (party_type party_id party_sub_type currency : Nullable) (d : Dict Association) (w : Disk)
      → lookup (create_key party_id party_type currency) d ≡ none
      → (get_participant_fsp_id disk party_type party_id party_sub_type currency
          (record { associations = d; world = w })).0
        ≡ ok null
  unfolding get_participant_fsp_id
  missing party_type party_id party_sub_type currency d w e = ground (arith, e)

  -- Of two writes that are left, the newer ends before the older.
  ends_older_last :
      (older newer contents : String) (pending : List String)
      → pending ≡ older ∷ newer ∷ []
      → (between : Disk) × Ends (record { contents = contents; pending = pending }) between
        × Ends between (record { contents = older; pending = [] })
  ends_older_last older newer contents pending e =
      let between : Disk = record { contents = newer; pending = older ∷ [] } in
      (
        between,
        subst (λ p. Ends (record { contents = contents; pending = p }) between) (sym e)
            (ends contents newer (older ∷ []) []),
        ends newer older [] [],
      )

  -- Two associations of free, different keys overlap, on an indexed map with no write left: both
  -- succeed, the second one is answered, and two writes are left, the older of the map before the
  -- second association. The writes can end in such an order that none is left and a start over the
  -- file, with JSON that reads back the older map, succeeds, answers the first association, and
  -- answers `null` for the second.
  pub overlap_can_lose :
      (fsp_id party_type party_id party_sub_type currency : Nullable)
      (fsp_id' party_type' party_id' party_sub_type' currency' : Nullable) (s : RemoteOracle Disk)
      → IsIndexed s.associations
      → s.world.pending ≡ []
      → lookup (create_key party_id party_type currency) s.associations ≡ none
      → lookup (create_key party_id' party_type' currency') s.associations ≡ none
      → create_key party_id party_type currency ≢ create_key party_id' party_type' currency'
      → ReadsBack disk (
          values
            (associate_participant disk fsp_id party_type party_id party_sub_type currency
              s).1.associations)
      → let (r, t) =
          associate_participant disk fsp_id party_type party_id party_sub_type currency s in
        let (r', t') =
          associate_participant disk fsp_id' party_type' party_id' party_sub_type' currency' t in
        let answer = get_participant_fsp_id disk party_type party_id party_sub_type currency in
        let answer' = get_participant_fsp_id disk party_type' party_id' party_sub_type' currency' in
        (r ≡ ok tt)
        × (r' ≡ ok tt)
        × ((answer' t').0 ≡ ok fsp_id')
        × (t'.world.pending ≡ encode (values t.associations) ∷ encode (values t'.associations) ∷ [])
        × ((between last : Disk) × Ends t'.world between
            × Ends between last
            × (last.pending ≡ [])
            × (let (started, u) = init disk (record { associations = []; world = last }) in
                (started ≡ ok tt) × ((answer u).0 ≡ ok fsp_id) × ((answer' u).0 ≡ ok null)))
  overlap_can_lose fsp_id party_type party_id party_sub_type currency fsp_id' party_type' party_id'
        party_sub_type' currency' s h idle free free' other back =
      let key = create_key party_id party_type currency in
      let key' = create_key party_id' party_type' currency' in
      let a = new_association disk fsp_id party_type party_id party_sub_type currency s in
      let d = insert key a s.associations in
      let run = associate_begins fsp_id party_type party_id party_sub_type currency s free in
      let stored : lookup key d ≡ some a =
        ground (arith, lookup-insert key key a s.associations, eq_refl key) in
      let absent : lookup key' d ≡ none =
        ground (arith, lookup-insert key key' a s.associations, eq_iff key key') in
      let t : RemoteOracle Disk = record {
        associations = d;
        world = record s.world { pending = s.world.pending ++ encode (values d) ∷ [] };
      } in
      let a' = new_association disk fsp_id' party_type' party_id' party_sub_type' currency' t in
      let d' = insert key' a' d in
      let run' =
        associate_begins fsp_id' party_type' party_id' party_sub_type' currency' t absent in
      let stored' : lookup key' d' ≡ some a' =
        ground (arith, lookup-insert key' key' a' d, eq_refl key') in
      let left = ap (λ p. (p ++ encode (values d) ∷ []) ++ encode (values d') ∷ []) idle in
      let (between, newer, older) =
        ends_older_last (encode (values d)) (encode (values d')) s.world.contents _ left in
      let indexed =
        change-IsIndexed disk Change.association fsp_id party_type party_id party_sub_type currency
          s h in
      let loaded =
        init_reads d (subst (λ p. IsIndexed p.1.associations) run indexed)
          (subst (λ p. ReadsBack disk (values p.1.associations)) run back) in
      let kept = lookup-reread key d ∙ ap reread_found stored in
      let gone = lookup-reread key' d ∙ ap reread_found absent in
      rw run (
        rw run' (
          refl,
          refl,
          found party_type' party_id' party_sub_type' currency' d' a' _ stored',
          left,
          (
            between,
            at_rest d,
            newer,
            older,
            refl,
            rw loaded (
              refl,
              found party_type party_id party_sub_type currency (reread d) (read_record a)
                  (at_rest d) kept,
              missing party_type' party_id' party_sub_type' currency' (reread d) (at_rest d) gone,
            ),
          ),
        ))
