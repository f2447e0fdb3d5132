-- ===== src/Adapters/Http/Missing.antt =====
-- What HttpOracleProvider answers about a party, beside what the remote oracle knows of it.
use account_lookup_bc.Common.{
  Nullable, String, undefined, null, str, truthy, or_null, ◌≡◌, ◌⊎◌, inl, inr, Bool, none, some,
  List, arith, truthy-eq-some_iff, Result, ok, throw, unable_to_get_participant, Option-cases,
}
use account_lookup_bc.Domain.Entities.{Oracle}
use account_lookup_bc.RemoteOracle
use account_lookup_bc.RemoteOracle.{File, RemoteOracle, create_key}
use account_lookup_bc.RemoteOracle.Table.{lookup}
use account_lookup_bc.RemoteOracle.Routes
use account_lookup_bc.RemoteOracle.Routes.{Check, Reply}
use account_lookup_bc.Adapters.Http.{HttpClient, get_participant_fsp_id, run_with, provider}
use account_lookup_bc.Adapters.Http.Wire.{received, request_of, Reaches}

module _ {V : Type 0} (file : File V) (passes : List Check → Routes.Request → Bool)
    (send : HttpClient (RemoteOracle V)) (base_url party_type party_id : String)
    (party_sub_type currency : Nullable)
    (reaches : Reaches file passes send base_url party_type party_id party_sub_type currency)
    (s : RemoteOracle V) where
  -- The oracle's own answer, for the sub type and the currency that the service reads.
  abbrev pub own_answer : Result Nullable × RemoteOracle V
  own_answer =
      let (query_sub_type, query_currency) = received (truthy party_sub_type) (truthy currency) in
      RemoteOracle.get_participant_fsp_id file (str party_type) (str party_id)
        (or_null query_sub_type) (or_null query_currency) s

  own_ok : (a : Nullable) × (own_answer ≡ (ok a, s))
  unfolding RemoteOracle.get_participant_fsp_id
  own_ok =
      let key =
        create_key (str party_id) (str party_type)
          (or_null (received (truthy party_sub_type) (truthy currency)).1) in
      elim (Option-cases (lookup key s.associations)) [
        | inl absent ↦ (null, ground (arith, absent))
        | inr (a, present) ↦ (a.fsp_id, ground (arith, present))
      ]

  -- The provider's lookup, once it has its client.
  abbrev got : Result Nullable × RemoteOracle V
  got =
      run_with (some base_url)
        (get_participant_fsp_id send (str party_type) (str party_id) party_sub_type currency) s

  got_found :
      (a : Nullable) (f : String)
      → own_answer ≡ (ok a, s)
      → truthy a ≡ some f
      → got ≡ (ok (str f), s)
  unfolding get_participant_fsp_id Routes.get_participant_fsp_id
  got_found a f own text =
      let valid =
        reaches.passes_unchecked
          (request_of party_type party_id party_sub_type currency undefined) in
      let (same, _) = (truthy-eq-some_iff a f).0 text in
      ground (arith, reaches.gets s, own, text, valid, same)

  got_missing :
      (a : Nullable)
      → own_answer ≡ (ok a, s)
      → truthy a ≡ none
      → got ≡ (throw unable_to_get_participant, s)
  unfolding get_participant_fsp_id Routes.get_participant_fsp_id
  got_missing a own text =
      let valid =
        reaches.passes_unchecked
          (request_of party_type party_id party_sub_type currency undefined) in
      ground (arith, reaches.gets s, own, text, valid)

  -- Of a provider whose endpoint is the service, for a party whose fields stand in a URL as they
  -- are: the oracle itself always answers; where its answer is an FSP, the provider answers the
  -- same; and where it has no FSP to name, the provider does not answer `null` but rejects with
  -- "unable to get participant". Neither changes the oracle.
  pub provider_agrees :
      (oracle : Oracle)
      → truthy oracle.endpoint ≡ some base_url
      → let found =
          (provider send oracle).get_participant_fsp_id
            (str party_type)
            (str party_id)
            party_sub_type
            currency
            s in
        (a : Nullable) × (own_answer ≡ (ok a, s))
        × (((f : String) × (truthy a ≡ some f) × (found ≡ (ok (str f), s)))
            ⊎ ((truthy a ≡ none) × (found ≡ (throw unable_to_get_participant, s))))
  provider_agrees oracle endpoint =
      let (a, own) = own_ok in
      elim (Option-cases (truthy a)) [
        | inr (f, text) ↦ (a, own, inl (f, text, rw endpoint (got_found a f own text)))
        | inl absent ↦ (a, own, inr (absent, rw endpoint (got_missing a own absent)))
      ]
