-- ===== src/LookupClient/Delivery.antt =====
-- The client in front of the lookup route: what it makes of each answer.
use account_lookup_bc.Common.{
  String, Nullable, undefined, null, str, ◌≡◌, ◌≢◌, refl, ◌⊎◌, inl, inr, Bool, arith, ap, Result,
  ok, throw, external_error, unauthorized, forbidden, unable_to_get_fsp_id, truthy-eq-some_iff,
}
use account_lookup_bc.Domain.Ports.{Services}
use account_lookup_bc.Aggregate.State.{Aggregate}
use account_lookup_bc.Routes.{Request, Content, Reply, Security, send, fail}
use account_lookup_bc.Routes.Lookup.{serve}
use account_lookup_bc.Routes.Lookup.Laws.{
  LookupReply, answered, no_token, invalid, refused, missing_privilege, not_found, failed,
  no_answer, serve-LookupReply,
}
use account_lookup_bc.LookupClient.{
  Response, Requester, lookup_path, read_response, ask, participant_look_up,
}

-- The body of an answer as JSON: an object with `fspId`, an object without, or a text that is not
-- JSON, which is what `sendStatus` sends.
abbrev pub json_of : Content → Result Nullable
json_of (Content.fsp_id f) = ok (str f)
json_of Content.message = ok undefined
json_of Content.validation_errors = ok undefined
json_of _ = throw external_error

abbrev pub delivered : Result Reply → Result Response
delivered (ok reply) = ok (record { status = reply.status; json = json_of reply.content })
delivered (throw e) = throw e

-- The route answers neither with an FSP nor with the status 404, 401 or 403 in JSON.
abbrev pub IsOther : Result Reply → Type 0
IsOther served =
    ((f : String) → served ≢ ok (send (Content.fsp_id f)))
    × (served ≢ ok (fail 404))
    × (served ≢ ok (fail 401))
    × (served ≢ ok (fail 403))

-- What the client makes of an answer of the lookup route.
abbrev pub Read : Result Reply → Result Nullable → Type 0
Read served r =
    ((f : String) × (served ≡ ok (send (Content.fsp_id f))) × (r ≡ ok (str f)))
    ⊎ ((served ≡ ok (fail 404)) × (r ≡ ok null))
    ⊎ ((served ≡ ok (fail 401)) × (r ≡ throw unauthorized))
    ⊎ ((served ≡ ok (fail 403)) × (r ≡ throw forbidden))
    ⊎ (IsOther served × (r ≡ throw unable_to_get_fsp_id))

-- What the client reads of a delivery.
abbrev reading : Result Response → Result Nullable
reading (ok response) = read_response response
reading (throw _) = throw unable_to_get_fsp_id

unread : {r : Result Reply} → IsOther r → Read r (throw unable_to_get_fsp_id)
unread other = inr (inr (inr (inr (other, refl))))

reading-Read : {r : Result Reply} → LookupReply r → Read r (reading (delivered r))
reading-Read (answered f) = inl (f, refl, refl)
reading-Read no_token =
    unread (λ f e. ground arith, λ e. ground arith, λ e. ground arith, λ e. ground arith)
reading-Read invalid =
    unread (λ f e. ground arith, λ e. ground arith, λ e. ground arith, λ e. ground arith)
reading-Read refused = inr (inr (inl (refl, refl)))
reading-Read missing_privilege = inr (inr (inr (inl (refl, refl))))
reading-Read not_found = inr (inl (refl, refl))
reading-Read failed =
    unread (λ f e. ground arith, λ e. ground arith, λ e. ground arith, λ e. ground arith)
reading-Read (no_answer x) =
    unread (λ f e. ground arith, λ e. ground arith, λ e. ground arith, λ e. ground arith)

module _ {W : Type 0} (env : Services W) (security : Security (Aggregate W))
    (passes : Request → Bool) (requester : Requester (Aggregate W)) where
  ask_lem :
      (party_type party_id : String) (currency : Nullable) (url : String) (r : Result Response)
      (s : Aggregate W)
      → requester.resolve (lookup_path party_type party_id currency) ≡ ok url
      → (requester.fetch url s).0 ≡ r
      → (ask requester party_type party_id currency s).0 ≡ reading r
  unfolding ask
  ask_lem party_type party_id currency url (ok response) s resolved fetched =
      ground (arith, resolved, fetched)
  ask_lem party_type party_id currency url (throw e) s resolved fetched =
      ground (arith, resolved, fetched)

  -- Of a client whose request for a party, with a type and an id that are not empty, reaches the
  -- lookup route as `request` and whose answer comes back: it resolves to the FSP that the route
  -- answers with, and to `null` where the route answers 404; a caller without the privilege is
  -- reported as forbidden, an error of the security library as unauthorized; and only what is
  -- none of these, such as the 401 without JSON of a missing or unknown token, is reported as
  -- unable to get the FSP.
  pub participant_look_up_reads :
      (party_type party_id : String) (currency : Nullable) (url : String) (request : Request)
      (s : Aggregate W)
      → party_type ≢ ""
      → party_id ≢ ""
      → requester.resolve (lookup_path party_type party_id currency) ≡ ok url
      → requester.fetch url s ≡ (
        delivered (serve env security passes request s).0,
        (serve env security passes request s).1,
      )
      → Read
          (serve env security passes request s).0
          (participant_look_up requester (str party_type) (str party_id) currency s).0
  unfolding participant_look_up
  participant_look_up_reads party_type party_id currency url request s kind id resolved reached =
      let type_given = (truthy-eq-some_iff (str party_type) party_type).1 (refl, kind) in
      let id_given = (truthy-eq-some_iff (str party_id) party_id).1 (refl, id) in
      let served = (serve env security passes request s).0 in
      let asked =
        ask_lem party_type party_id currency url (delivered served) s resolved
          (ap (λ (p : Result Response × Aggregate W). p.0) reached) in
      let run : (participant_look_up requester (str party_type) (str party_id) currency s).0
          ≡ reading (delivered served) =
        ground (arith, type_given, id_given, asked) in
      rw run (reading-Read (serve-LookupReply env security passes request s))
