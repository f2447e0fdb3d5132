-- ===== src/RemoteOracle/Routes.antt =====
-- packages/http-oracle-svc/src/server/remote_oracle_routes.ts, class RemoteOracleExpressRoutes.
use account_lookup_bc.Common.{
  ℕ, String, Nullable, str, or_null, truthy, Bool, true, none, some, List, [], ◌∷◌, if◌then◌else◌,
  Action, ok, throw, pure, attempt, ◌>>=◌, ◌>>◌,
}
use account_lookup_bc.RemoteOracle
use account_lookup_bc.RemoteOracle.{File, RemoteOracle}

-- What the handlers read of a request: the path's parameters, the query's, and `fspId` of the body.
pub record Request : Type 0 where
  pub party_type : String
  pub party_id : String
  pub query_sub_type : Nullable
  pub query_currency : Nullable
  pub body_fsp_id : Nullable

pub data Content : Type 0 where
  found : (fsp_id : Nullable) → Content
  healthy : Bool → Content
  status_text message validation_errors : Content

pub record Reply : Type 0 where
  pub status : ℕ
  pub content : Content

-- `res.sendStatus(status)`
abbrev pub send_status : ℕ → Reply
send_status status = record { status = status; content = status_text }

-- `res.status(500).json({ status: "error", msg })`
abbrev pub server_error : Reply
server_error = record { status = 500; content = message }

-- What the constructor has express-validator check.
pub data Check : Type 0 where
  fsp_id_not_empty : Check

-- `extractRequestParams`
pub record Params : Type 0 where
  pub party_type : Nullable
  pub party_id : Nullable
  pub party_sub_type : Nullable
  pub currency : Nullable
  pub fsp_id : Nullable

abbrev pub extract_request_params : Request → Params
extract_request_params r = record {
  party_type = str r.party_type;
  party_id = str r.party_id;
  party_sub_type = or_null r.query_sub_type;
  currency = or_null r.query_currency;
  fsp_id = or_null r.body_fsp_id;
}

-- `passes` is the verdict of express-validator.
module _ {W : Type 0} (file : File W) (passes : List Check → Request → Bool) where
  -- `if (!this.validateRequest(req, res)) { return; }`, and a `try` block with its `catch`
  unfoldable pub answered :
      List Check → Request → Action (RemoteOracle W) Reply → Action (RemoteOracle W) Reply
  answered checks request run =
      if passes checks request
      then (do
        outcome ← attempt run
        elim outcome [ ok reply ↦ pure reply | throw _ ↦ pure server_error ])
      else pure (record { status = 422; content = validation_errors })

  -- `getParticipantFspId`
  unfoldable pub get_participant_fsp_id : Request → Action (RemoteOracle W) Reply
  unfolding answered
  get_participant_fsp_id request =
      let p = extract_request_params request in
      answered [] request (do
        fetched ←
            RemoteOracle.get_participant_fsp_id file p.party_type p.party_id p.party_sub_type
              p.currency
        elim (truthy fetched) [
          | none ↦ pure (send_status 404)
          | some _ ↦ pure (record { status = 200; content = found fetched })
        ])

  -- `disassociateParticipant`
  unfoldable pub disassociate_participant : Request → Action (RemoteOracle W) Reply
  unfolding answered
  disassociate_participant request =
      let p = extract_request_params request in
      answered (fsp_id_not_empty ∷ []) request (do
        RemoteOracle.disassociate_participant file p.fsp_id p.party_type p.party_id p.party_sub_type
            p.currency
        pure (send_status 200))

  -- `associateParticipant`
  unfoldable pub associate_participant : Request → Action (RemoteOracle W) Reply
  unfolding answered
  associate_participant request =
      let p = extract_request_params request in
      answered (fsp_id_not_empty ∷ []) request (do
        RemoteOracle.associate_participant file p.fsp_id p.party_type p.party_id p.party_sub_type
            p.currency
        pure (send_status 200))

  -- `healthCheck`, where the oracle's own answer is always true
  unfoldable pub health_check : Request → Action (RemoteOracle W) Reply
  health_check request = pure (record { status = 200; content = healthy true })
