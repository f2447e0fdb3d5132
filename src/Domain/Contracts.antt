-- ===== src/Domain/Contracts.antt =====
-- What the aggregate relies on in an oracle finder, over the list of oracles that the finder's
-- state stands for.
use account_lookup_bc.Common.{
  String, Nullable, ◌≡◌, Option, some, List, [], ◌∷◌, ◌++◌, ◌==◌, find, remove_first, Error, ok,
  throw,
}
use account_lookup_bc.Domain.Entities.{Oracle}
use account_lookup_bc.Domain.Ports.{OracleFinder}

pub record FinderLaws {W : Type 0} (f : OracleFinder W) (oracles : W → List Oracle) : Type 0 where
  pub all_reads :
      (w : W) (found : List Oracle) → (f.get_all_oracles w).0 ≡ ok found → found ≡ oracles w
  pub all_keeps : (w : W) → oracles (f.get_all_oracles w).1 ≡ oracles w
  pub by_id_reads :
      (id : String) (w : W) (found : Option Oracle)
      → (f.get_oracle_by_id id w).0 ≡ ok found
      → found ≡ find (λ o. o.id == id) (oracles w)
  pub by_id_keeps : (id : String) (w : W) → oracles (f.get_oracle_by_id id w).1 ≡ oracles w
  pub by_name_reads :
      (name : String) (w : W) (found : Option Oracle)
      → (f.get_oracle_by_name name w).0 ≡ ok found
      → found ≡ find (λ o. o.name == name) (oracles w)
  pub by_name_keeps : (name : String) (w : W) → oracles (f.get_oracle_by_name name w).1 ≡ oracles w
  pub choice_keeps :
      (party_type currency : Nullable) (w : W)
      → oracles (f.get_oracle party_type currency w).1 ≡ oracles w
  pub add_adds :
      (o : Oracle) (w : W)
      → (f.add_oracle o w).0 ≡ ok tt
      → oracles (f.add_oracle o w).1 ≡ oracles w ++ o ∷ []
  pub add_fails :
      (o : Oracle) (w : W) (e : Error)
      → (f.add_oracle o w).0 ≡ throw e
      → oracles (f.add_oracle o w).1 ≡ oracles w
  pub remove_removes :
      (id : String) (w : W) (o : Oracle)
      → find (λ p. p.id == id) (oracles w) ≡ some o
      → (f.remove_oracle id w).0 ≡ ok tt
      → oracles (f.remove_oracle id w).1 ≡ remove_first (λ o. o.id == id) (oracles w)
  pub remove_fails :
      (id : String) (w : W) (e : Error)
      → (f.remove_oracle id w).0 ≡ throw e
      → oracles (f.remove_oracle id w).1 ≡ oracles w
