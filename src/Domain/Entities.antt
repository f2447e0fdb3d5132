-- ===== src/Domain/Entities.antt =====
-- packages/domain-lib/src/entities.ts and packages/public-types-lib/src/account-lookup.ts.
use account_lookup_bc.Common.{
  Number, String, Nullable, ◌≡◌, refl, ◌⊎◌, inl, inr, Bool, true, false, List,
}

-- `type` of an oracle; a text that is neither of the two known ones can still arrive from outside.
pub data OracleType : Type 0 where
  builtin remote_http : OracleType
  unsupported : String → OracleType

pub OracleType-cases :
    (t : OracleType)
    → (t ≡ builtin) ⊎ (t ≡ remote_http) ⊎ ((text : String) × (t ≡ unsupported text))
OracleType-cases builtin = inl refl
OracleType-cases remote_http = inr (inl refl)
OracleType-cases (unsupported text) = inr (inr (text, refl))

pub record Oracle : Type 0 where
  pub id : String
  pub name : String
  pub oracle_type : OracleType
  pub party_type : String
  pub currency : Nullable
  pub endpoint : Nullable

-- What a client posts to register an oracle: the id is optional.
pub record AddOracleDto : Type 0 where
  pub id : Nullable
  pub name : String
  pub oracle_type : OracleType
  pub party_type : String
  pub currency : Nullable
  pub endpoint : Nullable

pub record Association : Type 0 where
  pub fsp_id : Nullable
  pub party_type : Nullable
  pub party_id : Nullable
  pub party_sub_type : Nullable
  pub currency : Nullable

pub record ParticipantLookup : Type 0 where
  pub party_id : Nullable
  pub party_type : Nullable
  pub party_sub_type : Nullable
  pub currency : Nullable

pub record AssociationsSearchResults : Type 0 where
  pub page_size : Number
  pub total_pages : Number
  pub page_index : Number
  pub items : List Association

pub record SearchKeywords : Type 0 where
  pub field_name : String
  pub distinct_terms : List Nullable

-- The fields of a participant that the aggregate reads.
pub record Participant : Type 0 where
  pub id : String
  pub approved : Bool
  pub is_active : Bool

-- `oracle.type === "builtin"`
abbrev pub is_builtin : OracleType → Bool
is_builtin builtin = true
is_builtin _ = false
