-- ===== src/Routes/Outcome.antt =====
-- What the administration routes answer to callers who have the privilege.
use account_lookup_bc.Common.{
  ℕ, find, ◌++◌, String, ◌≡◌, ◌≢◌, refl, ◌⊎◌, inl, inr, Bool, true, none, List, [], ◌∷◌, arith,
  ◌==◌, remove_first, Result, Error, ok, throw, Result-cases,
}
use account_lookup_bc.Domain.Entities.{Oracle}
use account_lookup_bc.Domain.Ports.{Services}
use account_lookup_bc.Aggregate.State.{Aggregate}
use account_lookup_bc.Aggregate.Admin
use account_lookup_bc.Aggregate.Admin.{without, new_oracle}
use account_lookup_bc.Aggregate.Admin.Registry.{ServiceLaws, InSync}
use account_lookup_bc.Aggregate.Admin.Registration.{add_oracle_registers, add_oracle_failure}
use account_lookup_bc.Aggregate.Admin.Removal.{remove_oracle_removes, remove_oracle_failure}
use account_lookup_bc.Routes.{
  Privilege, CallSecurityContext, Request, Reply, Content, Security, send, fail,
  handle_unauthorized_error, has_privilege, enforce_privilege, catching,
}
use account_lookup_bc.Routes.Admin.{
  Endpoint, Check, checks, handle, server_error, not_found_or_server_error,
}

-- An answer that is no success.
abbrev pub Fails : Result Reply → Type 0
Fails r = (reply : Reply) × (r ≡ ok reply) × (reply.status ≢ 200)

refused_status : (e : Error) (n : ℕ) → n ≢ 200 → (handle_unauthorized_error e (fail n)).status ≢ 200
refused_status Error.unauthorized n h = omega arith
refused_status Error.forbidden n h = omega arith
refused_status e n h = h

delete_status :
    (e : Error) → (handle_unauthorized_error e (not_found_or_server_error e)).status ≢ 200
delete_status Error.oracle_not_found = omega arith
delete_status e = refused_status e 500 (omega arith)

module _ {W : Type 0} (env : Services W) (security : Security (Aggregate W))
    (passes : List Check → Request → Bool) (context : CallSecurityContext) (request : Request)
    (s : Aggregate W) where
  delete_run :
      has_privilege security context.platform_role_ids Privilege.remove_oracle ≡ true
      → passes (checks Endpoint.delete_oracle) request ≡ true
      → let removed = Admin.remove_oracle env request.id s in
        ((removed.0 ≡ ok tt)
          × (handle env security passes Endpoint.delete_oracle context request s
              ≡ (ok (send Content.nothing), removed.1)))
        ⊎ ((e : Error) × (removed.0 ≡ throw e)
            × (handle env security passes Endpoint.delete_oracle context request s
                ≡ (ok (handle_unauthorized_error e (not_found_or_server_error e)), removed.1)))
  unfolding handle catching enforce_privilege
  delete_run has valid = elim (Result-cases (Admin.remove_oracle env request.id s).0) [
    | inl (_, done) ↦ inl (done, ground (arith, has, valid, done))
    | inr (e, thrown) ↦ inr (e, thrown, ground (arith, has, valid, thrown))
  ]

  create_run :
      has_privilege security context.platform_role_ids Privilege.create_oracle ≡ true
      → passes (checks Endpoint.create_oracle) request ≡ true
      → let added = Admin.add_oracle env request.body s in
        ((id : String) × (added.0 ≡ ok id)
          × (handle env security passes Endpoint.create_oracle context request s
              ≡ (ok (send (Content.created id)), added.1)))
        ⊎ ((e : Error) × (added.0 ≡ throw e)
            × (handle env security passes Endpoint.create_oracle context request s
                ≡ (ok (handle_unauthorized_error e (server_error e)), added.1)))
  unfolding handle catching enforce_privilege
  create_run has valid = elim (Result-cases (Admin.add_oracle env request.body s).0) [
    | inl (id, done) ↦ inl (id, done, ground (arith, has, valid, done))
    | inr (e, thrown) ↦ inr (e, thrown, ground (arith, has, valid, thrown))
  ]

  module _ (oracles : W → List Oracle) (laws : ServiceLaws env oracles) where
    -- Of services that keep ServiceLaws, a registry in step, a caller with the privilege and a valid
    -- request: deleting an oracle either answers 200, has taken the first oracle of the id and its
    -- adapter away, and the registry is in step; or it answers with another status, and adapters
    -- and oracles are as they were.
    pub delete_oracle_effect :
        InSync oracles s
        → has_privilege security context.platform_role_ids Privilege.remove_oracle ≡ true
        → passes (checks Endpoint.delete_oracle) request ≡ true
        → let (r, s') = handle env security passes Endpoint.delete_oracle context request s in
          ((r ≡ ok (send Content.nothing))
            × (s'.adapters ≡ without request.id s.adapters)
            × (oracles s'.world ≡ remove_first (λ o. o.id == request.id) (oracles s.world))
            × InSync oracles s')
          ⊎ (Fails r × (s'.adapters ≡ s.adapters) × (oracles s'.world ≡ oracles s.world))
    delete_oracle_effect h has valid = elim (delete_run has valid) [
      | inl (done, run) ↦
          let (dropped, taken, kept) = remove_oracle_removes env oracles laws request.id s h done in
          inl (rw run (refl, dropped, taken, kept))
      | inr (e, thrown, run) ↦
          let (adapters, same) = remove_oracle_failure env oracles laws request.id s e thrown in
          inr (rw run ((_, refl, delete_status e), adapters, same))
    ]

    -- Of services that keep ServiceLaws, a registry in step, a caller with the privilege and a valid
    -- request: creating an oracle either answers 200 with an id that no oracle had, nor its name, has stored the
    -- oracle under it after the others, and the registry is in step; or it answers with another
    -- status and leaves the adapters alone, and the oracles too unless the new one was stored, which
    -- puts the registry out of step.
    pub create_oracle_effect :
        InSync oracles s
        → has_privilege security context.platform_role_ids Privilege.create_oracle ≡ true
        → passes (checks Endpoint.create_oracle) request ≡ true
        → let (r, s') = handle env security passes Endpoint.create_oracle context request s in
          ((id : String) × (r ≡ ok (send (Content.created id)))
            × (find (λ o. o.id == id) (oracles s.world) ≡ none)
            × (find (λ o. o.name == request.body.name) (oracles s.world) ≡ none)
            × (oracles s'.world ≡ oracles s.world ++ new_oracle request.body id ∷ [])
            × InSync oracles s')
          ⊎ (Fails r
              × (s'.adapters ≡ s.adapters)
              × ((oracles s'.world ≡ oracles s.world)
                  ⊎ ((id : String) × (oracles s'.world
                        ≡ oracles s.world ++ new_oracle request.body id ∷ [])
                      × ¬ InSync oracles s')))
    create_oracle_effect h has valid = elim (create_run has valid) [
      | inl (id, done, run) ↦
          let (new, unnamed, stored, kept) =
            add_oracle_registers env oracles laws request.body id s h done in
          inl (id, rw run refl, new, unnamed, rw run stored, rw run kept)
      | inr (e, thrown, run) ↦
          let (adapters, rest) = add_oracle_failure env oracles laws request.body s e h thrown in
          inr (rw run ((_, refl, refused_status e 500 (omega arith)), adapters, rest))
    ]
