-- ===== src/Routes/Admin.antt =====
-- packages/account-lookup-svc/src/routes/oracle_admin_routes.ts, class OracleAdminExpressRoutes.
use account_lookup_bc.Common.{
  Number, parse_int, Nullable, null, str, truthy, Bool, Option, none, some, List, [], ◌∷◌, Action,
  Error, oracle_not_found, pure, ◌>>=◌, ◌>>◌,
}
use account_lookup_bc.Domain.Ports.{Services}
use account_lookup_bc.Aggregate.State.{Aggregate}
use account_lookup_bc.Aggregate.Admin
use account_lookup_bc.Routes.{
  Privilege, CallSecurityContext, Request, Content, Reply, Security, send, fail, enforce_privilege,
  authenticated, validated, catching,
}

-- The handlers.
pub data Endpoint : Type 0 where
  get_all_oracles get_all_builtin_oracle_associations get_all_oracle_associations : Endpoint
  get_oracle_by_id delete_oracle create_oracle health_check get_search_keywords : Endpoint

-- What the constructor has express-validator check.
pub data Check : Type 0 where
  id_not_empty name_not_empty type_known party_type_not_empty currency_optional : Check

abbrev pub checks : Endpoint → List Check
checks get_oracle_by_id = id_not_empty ∷ []
checks delete_oracle = id_not_empty ∷ []
checks health_check = id_not_empty ∷ []
checks create_oracle = name_not_empty ∷ type_known ∷ party_type_not_empty ∷ currency_optional ∷ []
checks _ = []

-- `value || null`
abbrev pub text_or_null : Nullable → Nullable
text_or_null value = elim (truthy value) [ none ↦ null | some s ↦ str s ]

-- `const text = a || b; text ? parseInt(text) : undefined`
abbrev pub page_parameter : Nullable → Nullable → Option Number
page_parameter a b = elim (truthy a) [
  | some s ↦ some (parse_int s)
  | none ↦ elim (truthy b) [ none ↦ none | some s ↦ some (parse_int s) ]
]

-- the `catch` of most handlers
abbrev pub server_error : Error → Reply
server_error e = fail 500

-- the `catch` of two handlers
abbrev pub not_found_or_server_error : Error → Reply
not_found_or_server_error oracle_not_found = fail 404
not_found_or_server_error e = fail 500

-- `passes` is the verdict of express-validator.
module _ {W : Type 0} (env : Services W) (security : Security (Aggregate W))
    (passes : List Check → Request → Bool) where
  handle_get_all_oracles : CallSecurityContext → Request → Action (Aggregate W) Reply
  handle_get_all_oracles context request = catching server_error (do
    enforce_privilege security context Privilege.view_all_oracles
    validated (passes (checks get_all_oracles) request)
        (do fetched ← Admin.get_all_oracles env; pure (send (Content.oracles fetched))))

  handle_get_all_builtin_oracle_associations :
      CallSecurityContext → Request → Action (Aggregate W) Reply
  handle_get_all_builtin_oracle_associations context request = catching server_error (do
    enforce_privilege security context Privilege.view_all_oracle_associations
    validated (passes (checks get_all_builtin_oracle_associations) request) (do
      fetched ← Admin.get_built_in_oracle_associations env
      pure (send (Content.associations fetched))))

  handle_get_oracle_by_id : CallSecurityContext → Request → Action (Aggregate W) Reply
  handle_get_oracle_by_id context request = catching server_error (do
    enforce_privilege security context Privilege.view_all_oracles
    validated (passes (checks get_oracle_by_id) request) (do
      fetched ← Admin.get_oracle_by_id env request.id
      elim fetched [ none ↦ pure (fail 404) | some found ↦ pure (send (Content.oracle found)) ]))

  handle_delete_oracle : CallSecurityContext → Request → Action (Aggregate W) Reply
  handle_delete_oracle context request = catching not_found_or_server_error (do
    enforce_privilege security context Privilege.remove_oracle
    validated (passes (checks delete_oracle) request)
        (do Admin.remove_oracle env request.id; pure (send Content.nothing)))

  handle_create_oracle : CallSecurityContext → Request → Action (Aggregate W) Reply
  handle_create_oracle context request = catching server_error (do
    enforce_privilege security context Privilege.create_oracle
    validated (passes (checks create_oracle) request) (do
      created_id ← Admin.add_oracle env request.body
      pure (send (Content.created created_id))))

  -- No privilege is asked for.
  handle_health_check : CallSecurityContext → Request → Action (Aggregate W) Reply
  handle_health_check context request = catching not_found_or_server_error (
      validated (passes (checks health_check) request)
        (do fetched ← Admin.health_check env request.id; pure (send (Content.healthy fetched))))

  handle_get_all_oracle_associations : CallSecurityContext → Request → Action (Aggregate W) Reply
  handle_get_all_oracle_associations context request =
      let q = request.query in
      catching server_error (do
        enforce_privilege security context Privilege.view_all_oracle_associations
        validated (passes (checks get_all_oracle_associations) request) (do
          ret ←
              Admin.get_all_oracle_associations env (text_or_null (q "fspId"))
                (text_or_null (q "partyId")) (text_or_null (q "partyType"))
                (text_or_null (q "partySubType")) (text_or_null (q "currency"))
                (page_parameter (q "pageIndex") (q "pageindex"))
                (page_parameter (q "pageSize") (q "pagesize"))
          pure (send (Content.search_results ret))))

  -- Here the request is not validated.
  handle_get_search_keywords : CallSecurityContext → Request → Action (Aggregate W) Reply
  handle_get_search_keywords context request = catching server_error (do
    enforce_privilege security context Privilege.view_all_oracle_associations
    ret ← Admin.get_search_keywords env
    pure (send (Content.keywords ret)))

  -- The handler that the constructor binds to an endpoint.
  unfoldable pub handle : Endpoint → CallSecurityContext → Request → Action (Aggregate W) Reply
  unfolding handle_get_all_oracles handle_get_all_builtin_oracle_associations
      handle_get_oracle_by_id handle_delete_oracle handle_create_oracle handle_health_check
      handle_get_all_oracle_associations handle_get_search_keywords
  handle get_all_oracles = handle_get_all_oracles
  handle get_all_builtin_oracle_associations = handle_get_all_builtin_oracle_associations
  handle get_all_oracle_associations = handle_get_all_oracle_associations
  handle get_oracle_by_id = handle_get_oracle_by_id
  handle delete_oracle = handle_delete_oracle
  handle create_oracle = handle_create_oracle
  handle health_check = handle_health_check
  handle get_search_keywords = handle_get_search_keywords

  -- A request that the router passes to an endpoint.
  unfoldable pub serve : Endpoint → Request → Action (Aggregate W) Reply
  serve endpoint request =
      authenticated security request (λ context. handle endpoint context request)
