-- ===== src/Examples/Routes.antt =====
-- The theorems about the routes and their client, in the small world.
use account_lookup_bc.Common.{
  String, undefined, null, str, trim, split_at_spaces, ◌≡◌, refl, ◌↔◌, ◌⊎◌, true, none, some, [],
  if◌then◌else◌, ◌∷◌, ◌++◌, ◌==◌, arith, find, remove_first, ok, eq_iff,
}
use account_lookup_bc.Domain.Entities.{OracleType, AddOracleDto}
use account_lookup_bc.Aggregate.State.{Aggregate}
use account_lookup_bc.Aggregate.Admin.{without, new_oracle}
use account_lookup_bc.Aggregate.Admin.Registry.{InSync}
use account_lookup_bc.Aggregate.Oracles.{
  get_account_lookup, get_participant_id_from_oracle, get_oracle_adapter,
}
use account_lookup_bc.Routes.{
  CallSecurityContext, Request, Content, Security, send, token_of, has_privilege, authenticated,
  catching, enforce_privilege,
}
use account_lookup_bc.Routes.Admin.{Endpoint, handle, serve}
use account_lookup_bc.Routes.Guard.{Refused, Meets, required, serve_guards}
use account_lookup_bc.Routes.Outcome.{Fails, delete_oracle_effect, create_oracle_effect}
use account_lookup_bc.Routes.Lookup
use account_lookup_bc.Routes.Lookup.{payload_of}
use account_lookup_bc.Routes.Lookup.Laws.{LetThrough, lookup_route_answers_iff}
use account_lookup_bc.LookupClient.{Requester, participant_look_up}
use account_lookup_bc.LookupClient.Delivery.{Read, delivered, participant_look_up_reads}
use account_lookup_bc.Examples.World.{Shelf, running, start, services-ServiceLaws}

abbrev admin : CallSecurityContext
admin = record { platform_role_ids = "guest" ∷ "admin" ∷ [] }

abbrev security : Security (Aggregate Shelf)
security = record {
  role_has_privilege = λ role privilege. role == "admin";
  get_call_security_context = λ token s. (ok (some admin), s);
}

abbrev new_dto : AddOracleDto
new_dto = record {
  id = null;
  name = "names";
  oracle_type = OracleType.builtin;
  party_type = "ALIAS";
  currency = null;
  endpoint = null;
}

abbrev request : Request
request = record {
  authorization = str "Bearer token1";
  id = "oracle1";
  party_type = "MSISDN";
  party_id = "123";
  query = λ name. if name == "currency" then str "EUR" else undefined;
  body = new_dto;
}

serve_guards_example :
    let served =
      serve running security
        (λ _ _. true)
        Endpoint.delete_oracle
        (record request { authorization = undefined })
        start in
    ((served.1 ≡ start) × Refused served.0)
    ⊎ ((header : String) × (token : String) × (none ≡ some header)
        × (token_of (split_at_spaces (trim header)) ≡ some token)
        × (let asked = security.get_call_security_context token start in
            ((served.1 ≡ asked.1) × Refused served.0)
            ⊎ ((context : CallSecurityContext) × (asked.0 ≡ ok (some context))
                × Meets security context.platform_role_ids (required Endpoint.delete_oracle)
                × (served
                    ≡ handle running security
                        (λ _ _. true)
                        Endpoint.delete_oracle
                        context
                        (record request { authorization = undefined })
                        asked.1))))
serve_guards_example =
    serve_guards running security (λ _ _. true) Endpoint.delete_oracle
      (record request { authorization = undefined }) start

delete_oracle_effect_example :
    let (r, s') =
      handle running security (λ _ _. true) Endpoint.delete_oracle admin request start in
    ((r ≡ ok (send Content.nothing))
      × (s'.adapters ≡ without "oracle1" start.adapters)
      × (s'.world ≡ remove_first (λ o. o.id == "oracle1") start.world)
      × InSync (λ w. w) s')
    ⊎ (Fails r × (s'.adapters ≡ start.adapters) × (s'.world ≡ start.world))
unfolding has_privilege
delete_oracle_effect_example =
    delete_oracle_effect running security (λ _ _. true) admin request start (λ w. w)
      (services-ServiceLaws (ok tt)) (record { matched = refl; distinct = (tt, tt) }) refl refl

create_oracle_effect_example :
    let (r, s') =
      handle running security (λ _ _. true) Endpoint.create_oracle admin request start in
    ((id : String) × (r ≡ ok (send (Content.created id)))
      × (find (λ o. o.id == id) start.world ≡ none)
      × (find (λ o. o.name == "names") start.world ≡ none)
      × (s'.world ≡ start.world ++ new_oracle new_dto id ∷ [])
      × InSync (λ w. w) s')
    ⊎ (Fails r
        × (s'.adapters ≡ start.adapters)
        × ((s'.world ≡ start.world)
            ⊎ ((id : String) × (s'.world ≡ start.world ++ new_oracle new_dto id ∷ [])
                × ¬ InSync (λ w. w) s')))
unfolding has_privilege
create_oracle_effect_example =
    create_oracle_effect running security (λ _ _. true) admin request start (λ w. w)
      (services-ServiceLaws (ok tt)) (record { matched = refl; distinct = (tt, tt) }) refl refl

lookup_route_answers_iff_example :
    ((Lookup.serve running security (λ _. true) request start).0
      ≡ ok (send (Content.fsp_id "dfsp2")))
    ↔ ((s' : Aggregate Shelf) × LetThrough security (λ _. true) request start s'
        × ((get_account_lookup running (payload_of request) s').0 ≡ ok "dfsp2"))
lookup_route_answers_iff_example =
    lookup_route_answers_iff running security (λ _. true) request "dfsp2" start

-- A requester whose answers come from the route.
abbrev requester : Requester (Aggregate Shelf)
requester = record {
  fetch = λ url s.
      let served = Lookup.serve running security (λ _. true) request s in
      (delivered served.0, served.1);
  resolve = λ path. ok path;
}

participant_look_up_reads_example :
    Read
      (Lookup.serve running security (λ _. true) request start).0
      (participant_look_up requester (str "MSISDN") (str "123") (str "EUR") start).0
participant_look_up_reads_example =
    participant_look_up_reads running security (λ _. true) requester "MSISDN" "123" (str "EUR")
      "/account-lookup/MSISDN/123?currency=EUR" request start
      (λ e. ground (arith, eq_iff "MSISDN" "")) (λ e. ground (arith, eq_iff "123" "")) refl refl

-- The whole way of a lookup, from the client through the route and the aggregate to an adapter.
client_finds_fsp :
    (participant_look_up requester (str "MSISDN") (str "123") (str "EUR") start).0
    ≡ ok (str "dfsp2")
unfolding participant_look_up Lookup.serve Lookup.handle authenticated catching enforce_privilege
    has_privilege trim split_at_spaces get_account_lookup get_participant_id_from_oracle
    get_oracle_adapter account_lookup_bc.Mongo.Finder.get_oracle
client_finds_fsp = refl
