-- ===== src/Routes/Guard.antt =====
-- Which callers the administration routes refuse.
use account_lookup_bc.Common.{
  String, truthy, trim, split_at_spaces, ◌≡◌, refl, ◌⊎◌, inl, inr, Bool, true, false, Option, none,
  some, List, [], ◌∷◌, arith, Result, Error, subst, forbidden, ok, throw, Bool-cases, Option-cases,
  Result-cases,
}
use account_lookup_bc.Domain.Ports.{Services}
use account_lookup_bc.Aggregate.State.{Aggregate}
use account_lookup_bc.Routes.{
  Privilege, privilege_id, CallSecurityContext, Request, Reply, Security, fail, unauthenticated,
  token_of, has_privilege, enforce_privilege, authenticated, catching,
}
use account_lookup_bc.Routes.Admin.{Endpoint, Check, handle, serve}

-- The privilege that an endpoint is meant to ask for.
abbrev pub required : Endpoint → Option Privilege
required Endpoint.get_all_oracles = some Privilege.view_all_oracles
required Endpoint.get_oracle_by_id = some Privilege.view_all_oracles
required Endpoint.delete_oracle = some Privilege.remove_oracle
required Endpoint.create_oracle = some Privilege.create_oracle
required Endpoint.health_check = none
required _ = some Privilege.view_all_oracle_associations

-- One of the roles has the privilege.
abbrev pub Has : {S : Type 0} → Security S → List String → Privilege → Type 0
Has security [] p = ⊥
Has security (role ∷ roles) p =
    (security.role_has_privilege role (privilege_id p) ≡ true) ⊎ Has security roles p

-- The roles have the privilege, if there is one.
abbrev pub Meets : {S : Type 0} → Security S → List String → Option Privilege → Type 0
Meets security roles none = Unit
Meets security roles (some p) = Has security roles p

-- The answers to a caller who is turned away.
pub data Refused : Result Reply → Type 0 where
  no_token : Refused (ok unauthenticated)
  missing_privilege : Refused (ok (fail 403))
  no_answer : (e : Error) → Refused (throw e)

module _ {S : Type 0} (security : Security S) where
  has_privilege-Has :
      (roles : List String) (p : Privilege)
      → has_privilege security roles p ≡ true
      → Has security roles p
  unfolding has_privilege
  has_privilege-Has [] p e = absurd (ground arith)
  has_privilege-Has (role ∷ roles) p e =
      elim (Bool-cases (security.role_has_privilege role (privilege_id p))) [
        | inl yes_role ↦ inl yes_role
        | inr no_role ↦ inr (has_privilege-Has roles p (ground (arith, no_role)))
      ]

  enforce_forbidden :
      (context : CallSecurityContext) (p : Privilege) (s : S)
      → has_privilege security context.platform_role_ids p ≡ false
      → enforce_privilege security context p s ≡ (throw forbidden, s)
  unfolding enforce_privilege
  enforce_forbidden context p s e = ground (arith, e)

module _ {W : Type 0} (env : Services W) (security : Security (Aggregate W))
    (passes : List Check → Request → Bool) where
  handle_forbidden :
      (endpoint : Endpoint) (p : Privilege) (context : CallSecurityContext) (request : Request)
      (s : Aggregate W)
      → required endpoint ≡ some p
      → has_privilege security context.platform_role_ids p ≡ false
      → handle env security passes endpoint context request s ≡ (ok (fail 403), s)
  unfolding handle catching
  handle_forbidden Endpoint.get_all_oracles p context request s e lacks =
      let same : some Privilege.view_all_oracles ≡ some p = e in
      ground (arith, enforce_forbidden security context p s lacks)
  handle_forbidden Endpoint.get_all_builtin_oracle_associations p context request s e lacks =
      let same : some Privilege.view_all_oracle_associations ≡ some p = e in
      ground (arith, enforce_forbidden security context p s lacks)
  handle_forbidden Endpoint.get_all_oracle_associations p context request s e lacks =
      let same : some Privilege.view_all_oracle_associations ≡ some p = e in
      ground (arith, enforce_forbidden security context p s lacks)
  handle_forbidden Endpoint.get_oracle_by_id p context request s e lacks =
      let same : some Privilege.view_all_oracles ≡ some p = e in
      ground (arith, enforce_forbidden security context p s lacks)
  handle_forbidden Endpoint.delete_oracle p context request s e lacks =
      let same : some Privilege.remove_oracle ≡ some p = e in
      ground (arith, enforce_forbidden security context p s lacks)
  handle_forbidden Endpoint.create_oracle p context request s e lacks =
      let same : some Privilege.create_oracle ≡ some p = e in
      ground (arith, enforce_forbidden security context p s lacks)
  handle_forbidden Endpoint.health_check p context request s e lacks = absurd (ground arith)
  handle_forbidden Endpoint.get_search_keywords p context request s e lacks =
      let same : some Privilege.view_all_oracle_associations ≡ some p = e in
      ground (arith, enforce_forbidden security context p s lacks)

  module _ (endpoint : Endpoint) (request : Request) where
    Guarded : CallSecurityContext → Aggregate W → Type 0
    Guarded context s =
        (((handle env security passes endpoint context request s).1 ≡ s)
          × Refused (handle env security passes endpoint context request s).0)
        ⊎ Meets security context.platform_role_ids (required endpoint)

    handle-Guarded : (context : CallSecurityContext) (s : Aggregate W) → Guarded context s
    unfolding Guarded
    handle-Guarded context s = elim (Option-cases (required endpoint)) [
      | inl open_to_all ↦ inr (rw open_to_all tt)
      | inr (p, asked) ↦ elim (Bool-cases (has_privilege security context.platform_role_ids p)) [
        | inl has ↦ inr (rw asked (has_privilege-Has security context.platform_role_ids p has))
        | inr lacks ↦
            let same = handle_forbidden endpoint p context request s asked lacks in
            inl (rw same refl, rw same missing_privilege)
      ]
    ]

    serve_with :
        (header token : String) (s : Aggregate W)
        → truthy request.authorization ≡ some header
        → token_of (split_at_spaces (trim header)) ≡ some token
        → let asked = security.get_call_security_context token s in
          (((serve env security passes endpoint request s).1 ≡ asked.1)
            × Refused (serve env security passes endpoint request s).0)
          ⊎ ((context : CallSecurityContext) × (asked.0 ≡ ok (some context))
              × Meets security context.platform_role_ids (required endpoint)
              × (serve env security passes endpoint request s
                  ≡ handle env security passes endpoint context request asked.1))
    unfolding serve authenticated Guarded
    serve_with header token s given read =
        let asked = security.get_call_security_context token s in
        elim (Result-cases asked.0) [
          | inr (e, thrown) ↦ inl (
            ground (arith, given, read),
            subst Refused (ground (arith, given, read)) (no_answer e),
          )
          | inl (none, unknown) ↦
              inl
                (ground (arith, given, read), subst Refused (ground (arith, given, read)) no_token)
          | inl (some context, known) ↦ elim (handle-Guarded context asked.1) [
            | inr meets ↦ inr (context, known, meets, ground (arith, given, read, known))
            | inl (kept, refused) ↦
                inl
                  (ground (arith, given, read), subst Refused (ground (arith, given, read)) refused)
          ]
        ]

    -- A request to an endpoint of the administration is passed to the endpoint's handler only with a
    -- token that the platform knows and a role that has the endpoint's privilege, of those
    -- endpoints that have one. Any other is refused by 401 or 403, or not answered where the token
    -- cannot be checked, and nothing but the check of the token touches the state.
    pub serve_guards :
        (s : Aggregate W)
        → (((serve env security passes endpoint request s).1 ≡ s)
            × Refused (serve env security passes endpoint request s).0)
          ⊎ ((header : String) × (token : String) × (truthy request.authorization ≡ some header)
              × (token_of (split_at_spaces (trim header)) ≡ some token)
              × (let asked = security.get_call_security_context token s in
                  (((serve env security passes endpoint request s).1 ≡ asked.1)
                    × Refused (serve env security passes endpoint request s).0)
                  ⊎ ((context : CallSecurityContext) × (asked.0 ≡ ok (some context))
                      × Meets security context.platform_role_ids (required endpoint)
                      × (serve env security passes endpoint request s
                          ≡ handle env security passes endpoint context request asked.1))))
    unfolding serve authenticated
    serve_guards s = elim (Option-cases (truthy request.authorization)) [
      | inl absent ↦ inl (ground (arith, absent), subst Refused (ground (arith, absent)) no_token)
      | inr (header, given) ↦ elim (Option-cases (token_of (split_at_spaces (trim header)))) [
        | inl unread ↦
            inl (
              ground (arith, given, unread),
              subst Refused (ground (arith, given, unread)) no_token,
            )
        | inr (token, read) ↦ inr (header, token, given, read, serve_with header token s given read)
      ]
    ]
