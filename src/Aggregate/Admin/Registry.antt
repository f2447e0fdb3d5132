-- ===== src/Aggregate/Admin/Registry.antt =====
-- The registry of oracles: what the aggregate relies on in its services, and the invariant that
-- its adapters match the finder's oracles.
use account_lookup_bc.Common.{
  String, ◌≡◌, ◌≢◌, refl, ap, length, length-append, All-append, none, List, [], ◌∷◌, ◌++◌, map,
  find, ◌==◌, eq_iff, All, arith, ok,
}
use account_lookup_bc.Domain.Entities.{Oracle}
use account_lookup_bc.Domain.Ports.{Services, OracleProviderAdapter}
use account_lookup_bc.Domain.Contracts.{FinderLaws}
use account_lookup_bc.Aggregate.State.{Aggregate}

-- The finder keeps its contract, an adapter carries the id of the oracle that it was created for,
-- initialising it leaves the oracles alone, and a random id is not the id of a known oracle.
pub record ServiceLaws {W : Type 0} (env : Services W) (oracles : W → List Oracle) : Type 0 where
  pub finds : FinderLaws env.finder oracles
  pub created :
      (o : Oracle) (a : OracleProviderAdapter W) → env.create o ≡ ok a → a.oracle_id ≡ o.id
  pub init_keeps :
      (o : Oracle) (a : OracleProviderAdapter W) (w : W)
      → env.create o ≡ ok a
      → oracles (a.init w).1 ≡ oracles w
  pub fresh :
      (id : String) (w : W)
      → (env.random_uuid w).0 ≡ ok id
      → find (λ o. o.id == id) (oracles w) ≡ none
  pub uuid_keeps : (w : W) → oracles (env.random_uuid w).1 ≡ oracles w

abbrev pub oracle_ids : List Oracle → List String
oracle_ids os = map (λ (o : Oracle). o.id) os

abbrev pub adapter_ids : {W : Type 0} → List (OracleProviderAdapter W) → List String
adapter_ids {W} adapters = map (λ (a : OracleProviderAdapter W). a.oracle_id) adapters

abbrev pub AreDistinct : List String → Type 0
AreDistinct [] = Unit
AreDistinct (id ∷ ids) = All (λ j. j ≢ id) ids × AreDistinct ids

-- The adapters stand in the order of the finder's oracles, one for each, and no id occurs twice.
pub record InSync {W : Type 0} (oracles : W → List Oracle) (s : Aggregate W) : Type 0 where
  pub matched : adapter_ids s.adapters ≡ oracle_ids (oracles s.world)
  pub distinct : AreDistinct (oracle_ids (oracles s.world))

pub ids-append :
    (os : List Oracle) (o : Oracle) → oracle_ids (os ++ o ∷ []) ≡ oracle_ids os ++ o.id ∷ []
ids-append [] o = refl
ids-append (p ∷ os) o = rw (ids-append os o)

pub adapter_ids-append :
    {W : Type 0} (adapters : List (OracleProviderAdapter W)) (a : OracleProviderAdapter W)
    → adapter_ids (adapters ++ a ∷ []) ≡ adapter_ids adapters ++ a.oracle_id ∷ []
adapter_ids-append [] a = refl
adapter_ids-append (b ∷ adapters) a = rw (adapter_ids-append adapters a)

pub AreDistinct-append :
    (os : List Oracle) (o : Oracle)
    → AreDistinct (oracle_ids os)
    → find (λ p. p.id == o.id) os ≡ none
    → AreDistinct (oracle_ids (os ++ o ∷ []))
AreDistinct-append [] o h e = (tt, tt)
AreDistinct-append (p ∷ os) o (h, k) e = (
  rw (ids-append os o) (
      All-append (λ j. j ≢ p.id) (oracle_ids os) (o.id ∷ []) h
        (ground (arith, eq_iff p.id o.id), tt)),
  AreDistinct-append os o k (ground arith),
)

-- A registry stays in step when an oracle of a new id and its adapter are added to it.
pub InSync-append :
    {W : Type 0} (oracles : W → List Oracle) (s s' : Aggregate W) (o : Oracle)
    (a : OracleProviderAdapter W)
    → InSync oracles s
    → a.oracle_id ≡ o.id
    → find (λ p. p.id == o.id) (oracles s.world) ≡ none
    → s'.adapters ≡ s.adapters ++ a ∷ []
    → oracles s'.world ≡ oracles s.world ++ o ∷ []
    → InSync oracles s'
InSync-append oracles s s' o a h same unknown adapters registered = record {
  matched =
      ground (arith, adapter_ids-append s.adapters a, ids-append (oracles s.world) o, h.matched);
  distinct = rw registered (AreDistinct-append (oracles s.world) o h.distinct unknown);
}

-- With an oracle more and no adapter for it the registry is out of step.
pub InSync-not_of_extra :
    {W : Type 0} (oracles : W → List Oracle) (s s' : Aggregate W) (o : Oracle)
    → InSync oracles s
    → s'.adapters ≡ s.adapters
    → oracles s'.world ≡ oracles s.world ++ o ∷ []
    → ¬ InSync oracles s'
InSync-not_of_extra oracles s s' o h adapters registered h' =
    let longer : oracle_ids (oracles s.world) ≡ oracle_ids (oracles s.world) ++ o.id ∷ [] =
      ground (arith, ids-append (oracles s.world) o, h.matched, h'.matched) in
    omega (arith, ap length longer, length-append {0} (oracle_ids (oracles s.world)) (o.id ∷ []))
