-- ===== src/Adapters/Http/RoundTrip.antt =====
-- What HttpOracleProvider looks up where it associated, with the remote oracle's service behind it.
use account_lookup_bc.Common.{
  sym, ap, ◌∙◌, truthy-eq-some_iff, Nullable, String, undefined, str, truthy, or_null, ◌≡◌, ◌≢◌,
  refl, ◌⊎◌, inl, inr, Bool, Option, none, some, List, [], ◌∷◌, arith, Result, ok, eq_refl,
  Result-cases, Bool-cases,
}
use account_lookup_bc.Domain.Entities.{Oracle, Association}
use account_lookup_bc.RemoteOracle.{File, RemoteOracle, create_key}
use account_lookup_bc.RemoteOracle
use account_lookup_bc.RemoteOracle.Table.{lookup}
use account_lookup_bc.RemoteOracle.Laws.{associate_participant_effect, new_association}
use account_lookup_bc.RemoteOracle.Routes
use account_lookup_bc.RemoteOracle.Routes.{Check, Content, Reply, found}
use account_lookup_bc.Adapters.Http.{
  HttpClient, run_with, on_found, on_associated, get_participant_fsp_id, associate_participant,
  provider,
}
use account_lookup_bc.Adapters.Http.Wire.{received, request_of, deliver, Reaches}

received_no_currency :
    (sub : String) (currency : Option String) → (received (some sub) currency).1 ≡ undefined
received_no_currency sub none = refl
received_no_currency sub (some currency) = refl

-- Two parties of one type and id that the service cannot tell apart: the same sub type and
-- currency, or each with a sub type.
abbrev pub Indistinct : (sub currency sub' currency' : Nullable) → Type 0
Indistinct sub currency sub' currency' =
    ((sub' ≡ sub) × (currency' ≡ currency))
    ⊎ ((x : String) × (y : String) × (truthy sub ≡ some x) × (truthy sub' ≡ some y))

module _ {V : Type 0} (file : File V) (passes : List Check → Routes.Request → Bool)
    (send : HttpClient (RemoteOracle V)) (base_url party_type party_id : String)
    (fsp_id : String) where
  -- the key under which the service files a party
  abbrev key_for : (party_sub_type currency : Nullable) → String
  key_for party_sub_type currency =
      create_key (str party_id) (str party_type)
        (or_null (received (truthy party_sub_type) (truthy currency)).1)

  module _ (party_sub_type currency : Nullable) (s : RemoteOracle V) where
    abbrev served : Result Reply × RemoteOracle V
    served =
        Routes.associate_participant file passes
          (request_of party_type party_id party_sub_type currency (str fsp_id)) s

    -- What the oracle itself is asked to do.
    abbrev stored : Result Unit × RemoteOracle V
    stored =
        let (query_sub_type, query_currency) = received (truthy party_sub_type) (truthy currency) in
        RemoteOracle.associate_participant file (str fsp_id) (str party_type) (str party_id)
          (or_null query_sub_type) (or_null query_currency) s

    -- The adapter's call, from a provider that has its client.
    abbrev posted : Result Unit × RemoteOracle V
    posted =
        run_with (some base_url)
          (associate_participant send (str fsp_id) (str party_type) (str party_id) party_sub_type
            currency)
          s

    posted_run :
        Reaches file passes send base_url party_type party_id party_sub_type currency
        → posted ≡ (on_associated (deliver served).0, served.1)
    unfolding associate_participant
    posted_run reaches = ground (arith, reaches.posts fsp_id s)

    served_run :
        on_associated (deliver served).0 ≡ ok tt → (stored.0 ≡ ok tt) × (served.1 ≡ stored.1)
    unfolding Routes.associate_participant
    served_run e =
        let request = request_of party_type party_id party_sub_type currency (str fsp_id) in
        elim (Bool-cases (passes (Routes.fsp_id_not_empty ∷ []) request)) [
          | inr invalid ↦ absurd (ground (arith, invalid))
          | inl valid ↦ elim (Result-cases stored.0) [
            | inr (x, thrown) ↦ absurd (ground (arith, valid, thrown))
            | inl (_, done) ↦ (done, ground (arith, valid, done))
          ]
        ]

    stored_run :
        stored.0 ≡ ok tt
        → (a : Association) × (a.fsp_id ≡ str fsp_id)
          × (lookup (key_for party_sub_type currency) stored.1.associations ≡ some a)
    stored_run done =
        let (query_sub_type, query_currency) = received (truthy party_sub_type) (truthy currency) in
        elim (associate_participant_effect file (str fsp_id) (str party_type) (str party_id)
          (or_null query_sub_type) (or_null query_currency) s) [
            | inl (a, taken, thrown, same) ↦ absurd (ground arith)
            | inr (free, each, saved) ↦ (
              new_association file (str fsp_id) (str party_type) (str party_id)
                  (or_null query_sub_type) (or_null query_currency) s,
              refl,
              simp (each (key_for party_sub_type currency), eq_refl),
            )
          ]

  module _ (party_sub_type currency : Nullable) (s : RemoteOracle V) where
    abbrev answered : Result Reply × RemoteOracle V
    answered =
        Routes.get_participant_fsp_id file passes
          (request_of party_type party_id party_sub_type currency undefined) s

    abbrev got : Result Nullable × RemoteOracle V
    got =
        run_with (some base_url)
          (get_participant_fsp_id send (str party_type) (str party_id) party_sub_type currency) s

    got_run :
        Reaches file passes send base_url party_type party_id party_sub_type currency
        → got.0 ≡ on_found (deliver answered).0
    unfolding get_participant_fsp_id
    got_run reaches = ground (arith, reaches.gets s)

    answered_run :
        Reaches file passes send base_url party_type party_id party_sub_type currency
        → (a : Association) → lookup (key_for party_sub_type currency) s.associations ≡ some a
        → a.fsp_id ≡ str fsp_id
        → fsp_id ≢ ""
        → on_found (deliver answered).0 ≡ ok (str fsp_id)
    unfolding Routes.get_participant_fsp_id RemoteOracle.get_participant_fsp_id
    answered_run reaches a known same named =
        let text = (truthy-eq-some_iff (str fsp_id) fsp_id).1 (refl, named) in
        let valid =
          reaches.passes_unchecked
            (request_of party_type party_id party_sub_type currency undefined) in
        ground (arith, known, same, text, valid)

  module _ (sub currency sub' currency' : Nullable)
      (there : Reaches file passes send base_url party_type party_id sub currency)
      (back : Reaches file passes send base_url party_type party_id sub' currency') where
    key_for_same :
        Indistinct sub currency sub' currency' → key_for sub currency ≡ key_for sub' currency'
    key_for_same (inl (e, k)) = rw e (rw k refl)
    key_for_same (inr (x, y, e, k)) =
        rw (e, received)
          (rw (k, received)
            (rw (received_no_currency x (truthy currency))
              (rw (received_no_currency y (truthy currency')) refl)))

    follows :
        (s : RemoteOracle V)
        → fsp_id ≢ ""
        → Indistinct sub currency sub' currency'
        → (posted sub currency s).0 ≡ ok tt
        → (got sub' currency' (posted sub currency s).1).0 ≡ ok (str fsp_id)
    follows s named alike done =
        let run = posted_run sub currency s there in
        let (stored_ok, same) =
          served_run sub currency s
            (sym (ap (λ (r : Result Unit × RemoteOracle V). r.0) run) ∙ done) in
        let (a, owner, known) = stored_run sub currency s stored_ok in
        let after : (posted sub currency s).1 ≡ (stored sub currency s).1 =
          ap (λ (r : Result Unit × RemoteOracle V). r.1) run ∙ same in
        got_run sub' currency' _ back
        ∙ answered_run sub' currency' _ back a (rw after (rw (← key_for_same alike) known)) owner
            named

    -- Of a provider whose endpoint is the service, for parties whose fields stand in a URL as they are
    -- and an FSP id that is not empty: where an association succeeded, a lookup of the same
    -- type, id, sub type and currency answers with the FSP that was associated; and so does, if both
    -- name a sub type, a lookup of any other sub type and any other currency.
    pub lookup_follows_association :
        (oracle : Oracle) (s : RemoteOracle V)
        → truthy oracle.endpoint ≡ some base_url
        → fsp_id ≢ ""
        → Indistinct sub currency sub' currency'
        → let http = provider send oracle in
          let run =
            http.associate_participant
              (str fsp_id)
              (str party_type)
              (str party_id)
              sub
              currency
              s in
          run.0 ≡ ok tt
          → (http.get_participant_fsp_id (str party_type) (str party_id) sub' currency' run.1).0
            ≡ ok (str fsp_id)
    lookup_follows_association oracle s endpoint named alike done =
        rw endpoint (follows s named alike (rw endpoint at done))
