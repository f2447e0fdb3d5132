-- ===== src/Routes/Lookup/Laws.antt =====
-- When the lookup route answers with an FSP, and what else it may answer.
use account_lookup_bc.Common.{
  String, truthy, trim, split_at_spaces, ◌≡◌, ◌≢◌, refl, ◌↔◌, inl, inr, Bool, true, none, some,
  arith, Result, Error, ok, throw, subst, Bool-cases, Option-cases, Result-cases,
}
use account_lookup_bc.Domain.Ports.{Services}
use account_lookup_bc.Aggregate.State.{Aggregate}
use account_lookup_bc.Aggregate.Oracles.{get_account_lookup}
use account_lookup_bc.Routes.{
  Privilege, CallSecurityContext, Request, Content, Reply, Security, send, fail, unauthenticated,
  invalid_request, token_of, has_privilege, handle_unauthorized_error, enforce_privilege,
  authenticated, catching,
}
use account_lookup_bc.Routes.Lookup.{handle, serve, payload_of, lookup_failure}

-- What the route may answer.
pub data LookupReply : Result Reply → Type 0 where
  answered : (f : String) → LookupReply (ok (send (Content.fsp_id f)))
  no_token : LookupReply (ok unauthenticated)
  invalid : LookupReply (ok invalid_request)
  refused : LookupReply (ok (fail 401))
  missing_privilege : LookupReply (ok (fail 403))
  not_found : LookupReply (ok (fail 404))
  failed : LookupReply (ok (fail 500))
  no_answer : (e : Error) → LookupReply (throw e)

failure-LookupReply :
    (e : Error) → LookupReply (ok (handle_unauthorized_error e (lookup_failure e)))
failure-LookupReply Error.unauthorized = refused
failure-LookupReply Error.forbidden = missing_privilege
failure-LookupReply Error.participant_not_found = not_found
failure-LookupReply e = failed

-- A caller whom the route lets through: a token that the platform knows, a role with the privilege,
-- and a request that the validators accept.
pub record LetThrough {W : Type 0} (security : Security (Aggregate W)) (passes : Request → Bool)
    (request : Request) (s s' : Aggregate W) : Type 0 where
  pub header : String
  pub token : String
  pub context : CallSecurityContext
  pub given : truthy request.authorization ≡ some header
  pub read : token_of (split_at_spaces (trim header)) ≡ some token
  pub known : (security.get_call_security_context token s).0 ≡ ok (some context)
  pub after : (security.get_call_security_context token s).1 ≡ s'
  pub has :
      has_privilege security context.platform_role_ids Privilege.view_all_oracle_associations ≡ true
  pub valid : passes request ≡ true

module _ {W : Type 0} (env : Services W) (security : Security (Aggregate W))
    (passes : Request → Bool) (request : Request) where
  handle-LookupReply :
      (context : CallSecurityContext) (s : Aggregate W)
      → LookupReply (handle env security passes context request s).0
  unfolding handle catching enforce_privilege
  handle-LookupReply context s =
      elim (Bool-cases
        (has_privilege security context.platform_role_ids Privilege.view_all_oracle_associations)) [
          | inr lacks ↦ subst LookupReply (ground (arith, lacks)) missing_privilege
          | inl has ↦ elim (Bool-cases (passes request)) [
            | inr bad ↦ subst LookupReply (ground (arith, has, bad)) invalid
            | inl valid ↦ elim (Result-cases (get_account_lookup env (payload_of request) s).0) [
              | inl (f, found) ↦ subst LookupReply (ground (arith, has, valid, found)) (answered f)
              | inr (e, thrown) ↦
                  subst LookupReply (ground (arith, has, valid, thrown)) (failure-LookupReply e)
            ]
          ]
        ]

  pub serve-LookupReply : (s : Aggregate W) → LookupReply (serve env security passes request s).0
  unfolding serve authenticated
  serve-LookupReply s = elim (Option-cases (truthy request.authorization)) [
    | inl absent ↦ subst LookupReply (ground (arith, absent)) no_token
    | inr (header, given) ↦ elim (Option-cases (token_of (split_at_spaces (trim header)))) [
      | inl unread ↦ subst LookupReply (ground (arith, given, unread)) no_token
      | inr (token, read) ↦ elim (Result-cases (security.get_call_security_context token s).0) [
        | inr (e, thrown) ↦ subst LookupReply (ground (arith, given, read)) (no_answer e)
        | inl (none, unknown) ↦ subst LookupReply (ground (arith, given, read)) no_token
        | inl (some context, known) ↦
            subst LookupReply (ground (arith, given, read))
              (handle-LookupReply context (security.get_call_security_context token s).1)
      ]
    ]
  ]

  failure-ne-answer :
      (e : Error) (f : String)
      → ok (handle_unauthorized_error e (lookup_failure e)) ≢ ok (send (Content.fsp_id f))
  failure-ne-answer Error.unauthorized f x = ground arith
  failure-ne-answer Error.forbidden f x = ground arith
  failure-ne-answer Error.participant_not_found f x = ground arith
  failure-ne-answer e f x = ground arith

  handle_answers :
      (context : CallSecurityContext) (f : String) (s : Aggregate W)
      → (handle env security passes context request s).0 ≡ ok (send (Content.fsp_id f))
      → (has_privilege security context.platform_role_ids Privilege.view_all_oracle_associations
          ≡ true)
        × (passes request ≡ true)
        × ((get_account_lookup env (payload_of request) s).0 ≡ ok f)
  unfolding handle catching enforce_privilege
  handle_answers context f s run =
      elim (Bool-cases
        (has_privilege security context.platform_role_ids Privilege.view_all_oracle_associations)) [
          | inr lacks ↦ absurd (ground (arith, lacks))
          | inl has ↦ elim (Bool-cases (passes request)) [
            | inr bad ↦ absurd (ground (arith, has, bad))
            | inl valid ↦ elim (Result-cases (get_account_lookup env (payload_of request) s).0) [
              | inl (g, found) ↦ (has, valid, ground (arith, has, valid, found))
              | inr (e, thrown) ↦
                  absurd (failure-ne-answer e f (ground (arith, has, valid, thrown)))
            ]
          ]
        ]

  serve_answers :
      (f : String) (s : Aggregate W)
      → (serve env security passes request s).0 ≡ ok (send (Content.fsp_id f))
      → (s' : Aggregate W) × LetThrough security passes request s s'
        × ((get_account_lookup env (payload_of request) s').0 ≡ ok f)
  unfolding serve authenticated
  serve_answers f s run = elim (Option-cases (truthy request.authorization)) [
    | inl absent ↦ absurd (ground (arith, absent))
    | inr (header, given) ↦ elim (Option-cases (token_of (split_at_spaces (trim header)))) [
      | inl unread ↦ absurd (ground (arith, given, unread))
      | inr (token, read) ↦
          let s' = (security.get_call_security_context token s).1 in
          elim (Result-cases (security.get_call_security_context token s).0) [
            | inr (e, thrown) ↦ absurd (ground (arith, given, read))
            | inl (none, unknown) ↦ absurd (ground (arith, given, read))
            | inl (some context, known) ↦
                let (has, valid, found) =
                  handle_answers context f s' (ground (arith, given, read)) in
                (
                  s',
                  record {
                    header = header;
                    token = token;
                    context = context;
                    given = given;
                    read = read;
                    known = known;
                    after = refl;
                    has = has;
                    valid = valid;
                  },
                  found,
                )
          ]
    ]
  ]

  serve_lets_through :
      (s s' : Aggregate W) (h : LetThrough security passes request s s')
      → (serve env security passes request s).0
        ≡ (handle env security passes h.context request s').0
  unfolding serve authenticated
  serve_lets_through s s' h = rw (← h.after) (ground (arith, h.given, h.read, h.known))

  -- The lookup route answers 200 with an FSP exactly when the request has a token that the platform
  -- knows and the caller a role with the privilege, the validators accept the request, and the
  -- aggregate's lookup of the request's party, from the state after the token was checked,
  -- succeeds with that FSP.
  pub lookup_route_answers_iff :
      (f : String) (s : Aggregate W)
      → ((serve env security passes request s).0 ≡ ok (send (Content.fsp_id f))) ↔ (
          (s' : Aggregate W) × LetThrough security passes request s s'
          × ((get_account_lookup env (payload_of request) s').0 ≡ ok f))
  unfolding handle catching enforce_privilege
  lookup_route_answers_iff f s = (
    λ run. serve_answers f s run,
    λ (s', h, found). rw (serve_lets_through s s' h) (ground (arith, h.has, h.valid, found)),
  )
