-- ===== src/Routes/Lookup.antt =====
-- packages/account-lookup-svc/src/routes/account_lookup_routes.ts, class AccountLookupExpressRoutes.
pub mod Laws
use account_lookup_bc.Common.{
  str, or_null, Bool, Action, Error, participant_not_found, pure, ◌>>=◌, ◌>>◌,
}
use account_lookup_bc.Domain.Ports.{Services}
use account_lookup_bc.Domain.Entities.{ParticipantLookup}
use account_lookup_bc.Aggregate.State.{Aggregate}
use account_lookup_bc.Aggregate.Oracles.{get_account_lookup}
use account_lookup_bc.Routes.{
  Privilege, CallSecurityContext, Request, Content, Reply, Security, send, fail, enforce_privilege,
  authenticated, validated, catching,
}

abbrev pub payload_of : Request → ParticipantLookup
payload_of request = record {
  currency = or_null (request.query "currency");
  party_id = str request.party_id;
  party_type = str request.party_type;
  party_sub_type = or_null (request.query "partySubType");
}

abbrev pub lookup_failure : Error → Reply
lookup_failure participant_not_found = fail 404
lookup_failure e = fail 500

-- `passes` is the verdict of express-validator on the checks that `partyId` and `partyType` are texts
-- and not empty.
module _ {W : Type 0} (env : Services W) (security : Security (Aggregate W))
    (passes : Request → Bool) where
  -- `getAccountLookUp`
  unfoldable pub handle : CallSecurityContext → Request → Action (Aggregate W) Reply
  handle context request = catching lookup_failure (do
    enforce_privilege security context Privilege.view_all_oracle_associations
    validated (passes request) (do
      result ← get_account_lookup env (payload_of request)
      pure (send (Content.fsp_id result))))

  -- A request that the router passes to the handler.
  unfoldable pub serve : Request → Action (Aggregate W) Reply
  serve request = authenticated security request (λ context. handle context request)
