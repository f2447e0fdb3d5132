-- ===== src/Adapters/Http/Laws.antt =====
-- What a caller of HttpOracleProvider can rely on.
use account_lookup_bc.Common.{
  String, Nullable, truthy, ◌≡◌, ◌≢◌, refl, ◌⊎◌, inl, inr, Bool, some, arith, Result, Error, ok,
  throw, undefined, null, str, false, or_null, nat_beq, unable_to_get_participant,
  unable_to_associate_participant, unable_to_disassociate_participant, unable_to_get_association,
  Option-cases,
}
use account_lookup_bc.Domain.Entities.{Oracle}
use account_lookup_bc.Adapters.Http.{
  HttpClient, HttpOracleProvider, Request, Response, get, post, delete, on_health, on_found,
  on_associated, on_disassociated, on_listed, party_url, associations_url, call, init, health_check,
  get_participant_fsp_id, associate_participant, disassociate_participant, get_all_associations,
}

-- A value, or the one error.
abbrev OrError : {A : Type 0} → Error → Result A → Type 0
OrError {A} e r = ((a : A) × (r ≡ ok a)) ⊎ (r ≡ throw e)

or_null-ne-undefined : (x : Nullable) → or_null x ≢ undefined
or_null-ne-undefined undefined e = ground arith
or_null-ne-undefined null e = ground arith
or_null-ne-undefined (str s) e = ground arith

health_outcome : (r : Result Response) → (b : Bool) × (on_health r ≡ ok b)
health_outcome (ok response) = (nat_beq response.status 200, refl)
health_outcome (throw e) = (false, refl)

found_outcome :
    (r : Result Response)
    → OrError unable_to_get_participant (on_found r) × (on_found r ≢ ok undefined)
found_outcome (throw e) = (inr refl, ground arith)
found_outcome (ok response) =
    (inl (or_null response.fsp_id, refl), λ e. or_null-ne-undefined response.fsp_id (ground arith))

associated_outcome :
    (r : Result Response) → OrError unable_to_associate_participant (on_associated r)
associated_outcome (ok response) = inl (tt, refl)
associated_outcome (throw e) = inr refl

disassociated_outcome :
    (r : Result Response) → OrError unable_to_disassociate_participant (on_disassociated r)
disassociated_outcome (ok response) = inl (tt, refl)
disassociated_outcome (throw e) = inr refl

listed_outcome : (r : Result Response) → OrError unable_to_get_association (on_listed r)
listed_outcome (ok response) = inl (response.associations, refl)
listed_outcome (throw e) = inr refl

module _ {W : Type 0} (send : HttpClient W) where
  init_lem :
      (oracle : Oracle) (s : HttpOracleProvider W)
      → (init oracle s).0 ≡ ok tt
      → (base_url : String) × (truthy oracle.endpoint ≡ some base_url)
        × ((init oracle s).1.http_client ≡ some base_url)
  unfolding init
  init_lem oracle s e = elim (Option-cases (truthy oracle.endpoint)) [
    | inl absent ↦ absurd (ground arith)
    | inr (base_url, present) ↦ (base_url, present, ground arith)
  ]

  module _ {A : Type 0} (request : Request) (next : Result Response → Result A)
      (s : HttpOracleProvider W) (base_url : String) (set : s.http_client ≡ some base_url) where
    call-outcome :
        (P : Result A → Type 0)
        → ((r : Result Response) → P (next r))
        → P (call send request next s).0
    unfolding call
    call-outcome P each = rw set (each (send base_url request s.world).0)

    call-http_client : (call send request next s).1.http_client ≡ some base_url
    unfolding call
    call-http_client = ground (arith, set)

  -- After an initialisation that succeeded, whatever the HTTP client does: the health check answers
  -- true or false, and the other four calls resolve or reject with their own error; none of them
  -- takes the client away. A lookup that resolves does not resolve to `undefined`.
  calls_name_their_error :
      (oracle : Oracle) (s : HttpOracleProvider W)
      (fsp_id party_type party_id party_sub_type currency : Nullable)
      → (init oracle s).0 ≡ ok tt
      → let t = (init oracle s).1 in
        let get = get_participant_fsp_id send party_type party_id party_sub_type currency t in
        let post =
          associate_participant send fsp_id party_type party_id party_sub_type currency t in
        let delete =
          disassociate_participant send fsp_id party_type party_id party_sub_type currency t in
        (base_url : String) × ((healthy : Bool) × ((health_check send t).0 ≡ ok healthy))
        × OrError unable_to_get_participant get.0
        × (get.0 ≢ ok undefined)
        × OrError unable_to_associate_participant post.0
        × OrError unable_to_disassociate_participant delete.0
        × OrError unable_to_get_association (get_all_associations send t).0
        × (get.1.http_client ≡ some base_url)
        × (post.1.http_client ≡ some base_url)
        × (delete.1.http_client ≡ some base_url)
  unfolding health_check get_participant_fsp_id associate_participant disassociate_participant
      get_all_associations
  calls_name_their_error oracle s fsp_id party_type party_id party_sub_type currency e =
      let t = (init oracle s).1 in
      let (base_url, _, set) = init_lem oracle s e in
      let url = party_url party_type party_id party_sub_type currency in
      let found =
        λ (P : Result Nullable → Type 0). call-outcome (get url) on_found t base_url set P in
      (
        base_url,
        call-outcome (get "/health") on_health t base_url set (λ r. (b : Bool) × (r ≡ ok b))
            health_outcome,
        found (OrError unable_to_get_participant) (λ r. (found_outcome r).0),
        found (λ r. r ≢ ok undefined) (λ r. (found_outcome r).1),
        call-outcome (post url fsp_id) on_associated t base_url set
            (OrError unable_to_associate_participant) associated_outcome,
        call-outcome (delete url fsp_id) on_disassociated t base_url set
            (OrError unable_to_disassociate_participant) disassociated_outcome,
        call-outcome (get associations_url) on_listed t base_url set
            (OrError unable_to_get_association) listed_outcome,
        call-http_client (get url) on_found t base_url set,
        call-http_client (post url fsp_id) on_associated t base_url set,
        call-http_client (delete url fsp_id) on_disassociated t base_url set,
      )
