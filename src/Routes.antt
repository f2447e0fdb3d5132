-- ===== src/Routes.antt =====
-- packages/account-lookup-svc/src/routes: the routes of the service. Here is base/base_routes.ts,
-- class BaseRoutes: authentication, privileges, and what the handlers share.
pub mod Admin
pub mod Lookup
pub mod Guard
pub mod Outcome
use account_lookup_bc.Common.{
  ℕ, Number, String, Nullable, null, str, truthy, Bool, true, Option, none, some, List, [], ◌∷◌,
  if◌then◌else◌, trim, split_at_spaces, Action, Error, unauthorized, forbidden, ok, throw, pure,
  raise, attempt, ◌>>=◌, ◌>>◌,
}
use account_lookup_bc.Domain.Entities.{
  Oracle, AddOracleDto, Association, AssociationsSearchResults, SearchKeywords,
}

-- AccountLookupPrivileges of packages/domain-lib/src/privileges.ts
pub data Privilege : Type 0 where
  view_all_oracles create_oracle remove_oracle view_all_oracle_associations : Privilege

abbrev pub privilege_id : Privilege → String
privilege_id view_all_oracles = "ACCOUNT_LOOKUP_VIEW_ALL_ORACLES"
privilege_id create_oracle = "ACCOUNT_LOOKUP_CREATE_ORACLE"
privilege_id remove_oracle = "ACCOUNT_LOOKUP_REMOVE_ORACLE"
privilege_id view_all_oracle_associations = "ACCOUNT_LOOKUP_VIEW_ALL_ORACLE_ASSOCIATIONS"

pub record CallSecurityContext : Type 0 where
  pub platform_role_ids : List String

-- What the handlers read of a request: a header, the parameters of the path, those of the query,
-- and the body of a registration.
pub record Request : Type 0 where
  pub authorization : Nullable
  pub id : String
  pub party_type : String
  pub party_id : String
  pub query : String → Nullable
  pub body : AddOracleDto

-- What is sent as the body of an answer.
pub data Content : Type 0 where
  oracles : List Oracle → Content
  oracle : Oracle → Content
  created : (id : String) → Content
  healthy : Bool → Content
  associations : List Association → Content
  search_results : Option AssociationsSearchResults → Content
  keywords : List SearchKeywords → Content
  fsp_id : String → Content
  nothing message validation_errors : Content

pub record Reply : Type 0 where
  pub status : ℕ
  pub content : Content

-- `res.send(content)`
abbrev pub send : Content → Reply
send content = record { status = 200; content = content }

-- `res.status(status).json({ status: "error", msg })`
abbrev pub fail : ℕ → Reply
fail status = record { status = status; content = message }

-- `res.sendStatus(401)`
abbrev pub unauthenticated : Reply
unauthenticated = record { status = 401; content = nothing }

-- `validateRequest` where the validators found errors
abbrev pub invalid_request : Reply
invalid_request = record { status = 422; content = validation_errors }

-- The parts of the platform's security library that the routes call.
pub record Security (S : Type 0) : Type 0 where
  pub role_has_privilege : String → String → Bool
  pub get_call_security_context : String → Action S (Option CallSecurityContext)

-- `_handleUnauthorizedError`, and `otherwise` where it returns false
abbrev pub handle_unauthorized_error : Error → Reply → Reply
handle_unauthorized_error unauthorized otherwise = fail 401
handle_unauthorized_error forbidden otherwise = fail 403
handle_unauthorized_error _ otherwise = otherwise

-- `const bearer = …trim().split(" "); if (bearer.length != 2) …`: the token
abbrev pub token_of : List String → Option String
token_of (scheme ∷ token ∷ []) = some token
token_of _ = none

module _ {S : Type 0} (security : Security S) where
  -- the loop of `_enforcePrivilege`
  unfoldable pub has_privilege : List String → Privilege → Bool
  has_privilege [] privilege = Bool.false
  has_privilege (role ∷ roles) privilege =
      if security.role_has_privilege role (privilege_id privilege)
      then true
      else has_privilege roles privilege

  -- `_enforcePrivilege`
  unfoldable pub enforce_privilege : CallSecurityContext → Privilege → Action S Unit
  unfolding has_privilege
  enforce_privilege context privilege =
      if has_privilege context.platform_role_ids privilege then pure tt else raise forbidden

  -- `_authenticationMiddleware`, and the handler that `next()` calls
  unfoldable pub authenticated : Request → (CallSecurityContext → Action S Reply) → Action S Reply
  authenticated request next = elim (truthy request.authorization) [
    | none ↦ pure unauthenticated
    | some header ↦ elim (token_of (split_at_spaces (trim header))) [
      | none ↦ pure unauthenticated
      | some token ↦ do
        context ← security.get_call_security_context token
        elim context [ none ↦ pure unauthenticated | some known ↦ next known ]
    ]
  ]

-- `if (!this.validateRequest(req, res)) { return; }`: the rest of a handler
abbrev pub validated : {S : Type 0} → (is_valid : Bool) → Action S Reply → Action S Reply
validated is_valid rest = if is_valid then rest else pure invalid_request

-- `try { … } catch (err) { … }`
unfoldable pub catching : {S : Type 0} → (Error → Reply) → Action S Reply → Action S Reply
catching on_error run = do
  outcome ← attempt run
  elim outcome [ ok reply ↦ pure reply | throw e ↦ pure (handle_unauthorized_error e (on_error e)) ]
