-- ===== src/LookupClient.antt =====
-- packages/client-lib/src/account_lookup_http_client.ts, class AccountLookupHttpClient.
pub mod Delivery
use Prim.Native.String.{◌++◌}
use account_lookup_bc.Common.{
  ℕ, ◌||◌, nat_beq, String, Nullable, null, truthy, Option, none, some, if◌then◌else◌, Action,
  Result, unauthorized, forbidden, unable_to_get_fsp_id, ok, throw, pure, raise, rethrow, ◌>>=◌,
  ◌>>◌,
}

-- An answer: its status, and what `json()` resolves to, by the field `fspId`.
pub record Response : Type 0 where
  pub status : ℕ
  pub json : Result Nullable

-- What the class calls: `fetch` of the requester, and `new URL(path, base)`, which may throw.
pub record Requester (S : Type 0) : Type 0 where
  pub fetch : String → Action S Response
  pub resolve : String → Result String

abbrev currency_part : Option String → String
currency_part none = ""
currency_part (some currency) = "?currency=" ++ currency

-- `urlBuilder`
abbrev pub lookup_path : (party_type party_id : String) → Nullable → String
lookup_path party_type party_id currency =
    ("/account-lookup/" ++ (party_type ++ ("/" ++ party_id))) ++ currency_part (truthy currency)

-- What follows once `json()` is settled.
abbrev pub read_body : ℕ → Nullable → Result Nullable
read_body status fsp_id =
    if nat_beq status 200
    then ok fsp_id
    else if nat_beq status 401
    then throw unauthorized
    else throw forbidden

-- What is made of an answer: the body is unpacked for three statuses.
abbrev pub read_response : Response → Result Nullable
read_response response =
    if nat_beq response.status 200 || nat_beq response.status 401 || nat_beq response.status 403
    then elim response.json [
      | ok fsp_id ↦ read_body response.status fsp_id
      | throw _ ↦ throw unable_to_get_fsp_id
    ]
    else if nat_beq response.status 404
    then ok null
    else throw unable_to_get_fsp_id

module _ {S : Type 0} (requester : Requester S) where
  -- `participantLookUp` for a type and an id that are given
  unfoldable pub ask : (party_type party_id : String) → Nullable → Action S Nullable
  ask party_type party_id currency s =
      elim (requester.resolve (lookup_path party_type party_id currency)) [
        | throw e ↦ (throw e, s)
        | ok url ↦
            (do
              response ← rethrow (λ _. unable_to_get_fsp_id) (requester.fetch url)
              λ t. (read_response response, t))
              s
      ]

  unfoldable pub participant_look_up : (party_type party_id currency : Nullable) → Action S Nullable
  unfolding ask
  participant_look_up party_type party_id currency = elim (truthy party_type) [
    | none ↦ raise unable_to_get_fsp_id
    | some kind ↦ elim (truthy party_id) [
      | none ↦ raise unable_to_get_fsp_id
      | some id ↦ ask kind id currency
    ]
  ]
