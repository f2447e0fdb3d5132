-- ===== src/Doubles.antt =====
-- packages/shared-mocks-lib/src: the doubles that the tests run the aggregate on, which are the
-- finder, the provider adapter, the factory and the participant service in memory.
pub mod Contract
use account_lookup_bc.Common.{
  ℕ, zero, suc, String, Nullable, null, str, truthy, strict_eq, Bool, true, false, ◌&&◌, Option,
  none, some, List, [], ◌∷◌, ◌++◌, ◌==◌, find, map, take, if◌then◌else◌, Action, Result, ok, throw,
  base_error,
}
use account_lookup_bc.Domain.Entities.{Oracle, OracleType, Association, Participant}
use account_lookup_bc.Domain.Ports.{OracleFinder, OracleProviderAdapter, Services}

module _ {ℓ} {A : Type ℓ} where
  -- `xs.findIndex(test)`: `none` for -1
  unfoldable pub find_index : (A → Bool) → List A → Option ℕ
  find_index test [] = none
  find_index test (x ∷ xs) =
      let rest : Option ℕ = elim (find_index test xs) [ none ↦ none | some i ↦ some (suc i) ] in
      if test x then some zero else rest

  unfoldable pub but_last : List A → List A
  but_last [] = []
  but_last (x ∷ []) = []
  but_last (x ∷ y ∷ xs) = x ∷ but_last (y ∷ xs)

  unfoldable pub remove_at : ℕ → List A → List A
  remove_at i [] = []
  remove_at zero (x ∷ xs) = xs
  remove_at (suc i) (x ∷ xs) = x ∷ remove_at i xs

  -- `xs.splice(i, 1)`, which at -1 takes the last element
  unfoldable pub splice_one : Option ℕ → List A → List A
  unfolding but_last remove_at
  splice_one none xs = but_last xs
  splice_one (some i) xs = remove_at i xs

-- MemoryOracleFinder, whose world is its array.
abbrev pub Bench : Type 0
Bench = List Oracle

abbrev pub answer : {A : Type 0} → A → Action Bench A
answer a os = (ok a, os)

unfoldable pub add_oracle : Oracle → Action Bench Unit
add_oracle o os = (ok tt, os ++ o ∷ [])

unfoldable pub remove_oracle : String → Action Bench Unit
unfolding find_index splice_one
remove_oracle id os = (ok tt, splice_one (find_index (λ o. o.id == id) os) os)

unfoldable pub get_oracle : (party_type currency : Nullable) → Action Bench (Option Oracle)
get_oracle party_type currency os = (
  ok (
      find
        (λ o.
          strict_eq (str o.party_type) party_type
          && elim (truthy o.currency) [ none ↦ true | some _ ↦ strict_eq o.currency currency ])
        os),
  os,
)

abbrev pub memory_finder : OracleFinder Bench
memory_finder = record {
  init = answer tt;
  destroy = answer tt;
  add_oracle = add_oracle;
  remove_oracle = remove_oracle;
  get_all_oracles = λ os. (ok os, os);
  get_oracle_by_id = λ id os. (ok (find (λ o. o.id == id) os), os);
  get_oracle_by_name = λ name os. (ok (find (λ o. o.name == name) os), os);
  get_oracle = get_oracle;
}

-- `mockedOracleAdapters`, with which a finder starts unless it is told not to.
abbrev pub mocked_oracle :
    (id name party_type : String)
    → OracleType
    → (endpoint : Nullable) → (currency : String) → Oracle
mocked_oracle id name party_type oracle_type endpoint currency = record {
  id = id;
  name = name;
  oracle_type = oracle_type;
  party_type = party_type;
  currency = str currency;
  endpoint = endpoint;
}

abbrev pub mocked_oracle_adapters : Bench
mocked_oracle_adapters =
    let url = str "http://bank-oracle.com" in
    mocked_oracle "1" "oracle1" "bank" OracleType.builtin null "USD"
    ∷ mocked_oracle "2" "oracle2" "bank" OracleType.builtin null "USD"
    ∷ mocked_oracle "3" "oracle without fspId" "lender" OracleType.remote_http url "EUR"
    ∷ mocked_oracle "4" "oracle with error" "issuer" OracleType.remote_http url "USD"
    ∷ []

abbrev pub first_bench : (start_with_predefined_oracles : Bool) → Bench
first_bench start_with_predefined_oracles =
    if start_with_predefined_oracles then mocked_oracle_adapters else []

-- `OracleAssociations` of mocked_data.ts
pub record MockedAssociation : Type 0 where
  pub party_type : String
  pub party_id : String
  pub fsp_id : Nullable
  pub has_error : Bool
  pub party_sub_type : Nullable
  pub currency : Nullable

abbrev pub mocked :
    (party_type party_id : String)
    → Nullable
    → Bool
    → (sub_type currency : String) → MockedAssociation
mocked party_type party_id fsp_id has_error sub_type currency = record {
  party_type = party_type;
  party_id = party_id;
  fsp_id = fsp_id;
  has_error = has_error;
  party_sub_type = str sub_type;
  currency = str currency;
}

abbrev pub mocked_oracle_associations : List MockedAssociation
mocked_oracle_associations =
    mocked "bank" "party" (str "fspId") false "savings" "USD"
    ∷ mocked "insurance" "party2" null false "order" "EUR"
    ∷ mocked "lender" "party3" (str "fspId3") true "loan" "EUR"
    ∷ mocked "issuer" "party4" null false "credit" "USD"
    ∷ []

-- `value ? field === value : true`
abbrev pub equal_if_given : Nullable → Nullable → Bool
equal_if_given value field = elim (truthy value) [ none ↦ true | some _ ↦ strict_eq field value ]

unfoldable pub get_participant_fsp_id :
    (party_type party_id party_sub_type currency : Nullable) → Action Bench Nullable
get_participant_fsp_id party_type party_id party_sub_type currency os =
    elim (find
      (λ (a : MockedAssociation).
        strict_eq (str a.party_type) party_type
        && (strict_eq (str a.party_id) party_id
            && (equal_if_given party_sub_type a.party_sub_type
                && equal_if_given currency a.currency)))
      mocked_oracle_associations) [
        | none ↦ (ok null, os)
        | some a ↦ if a.has_error then (throw base_error, os) else (ok a.fsp_id, os)
      ]

-- `associateParticipant` and `disassociateParticipant`, which store nothing.
unfoldable pub change_association :
    (fsp_id party_type party_id party_sub_type currency : Nullable) → Action Bench Unit
change_association fsp_id party_type party_id party_sub_type currency os =
    elim (find (λ (a : MockedAssociation). strict_eq (str a.party_type) party_type)
      mocked_oracle_associations) [
        | none ↦ (throw base_error, os)
        | some a ↦ if a.has_error then (throw base_error, os) else (ok tt, os)
      ]

-- The entry of `getAllAssociations`.
abbrev pub association_of : MockedAssociation → Association
association_of a = record {
  fsp_id = a.fsp_id;
  party_type = str a.party_type;
  party_id = str a.party_id;
  party_sub_type = a.party_sub_type;
  currency = a.currency;
}

-- MemoryOracleProviderAdapter
abbrev pub memory_adapter : Oracle → OracleProviderAdapter Bench
memory_adapter oracle = record {
  oracle_id = oracle.id;
  oracle_type = oracle.oracle_type;
  init = answer tt;
  destroy = answer tt;
  health_check = answer true;
  get_participant_fsp_id = get_participant_fsp_id;
  associate_participant = change_association;
  disassociate_participant = change_association;
  get_all_associations = answer (map association_of (take 1 mocked_oracle_associations));
  search_associations =
      λ fsp_id party_id party_type party_sub_type currency page_index page_size. throw base_error;
  get_search_keywords = throw base_error;
}

-- MemoryOracleProviderFactory
unfoldable pub create : Oracle → Result (OracleProviderAdapter Bench)
create oracle = elim oracle.oracle_type [
  | OracleType.builtin ↦ ok (memory_adapter oracle)
  | OracleType.remote_http ↦ ok (memory_adapter oracle)
  | OracleType.unsupported _ ↦ throw base_error
]

-- MemoryParticipantService
abbrev pub get_participant_info : String → Action Bench (Option Participant)
get_participant_info id = answer none

-- The aggregate's parts in a test, but for the random ids.
abbrev pub doubles : Action Bench String → Services Bench
doubles random_uuid = record {
  finder = memory_finder;
  create = create;
  get_participant_info = get_participant_info;
  random_uuid = random_uuid;
}
