-- ===== src/Aggregate/Admin/Start.antt =====
-- `init`: the adapters that it creates.
use account_lookup_bc.Common.{
  String, ◌≡◌, refl, ap, sym, ◌∙◌, inl, inr, List, [], ◌∷◌, ◌++◌, arith, ok, Result-cases,
}
use account_lookup_bc.Domain.Entities.{Oracle}
use account_lookup_bc.Domain.Ports.{Services}
use account_lookup_bc.Aggregate.State.{Aggregate}
use account_lookup_bc.Aggregate.Admin.{create_all, init}
use account_lookup_bc.Aggregate.Admin.Registry.{
  ServiceLaws, oracle_ids, adapter_ids, AreDistinct, InSync, adapter_ids-append,
}

append_moves :
    (xs : List String) (y : String) (ys : List String) → (xs ++ y ∷ []) ++ ys ≡ xs ++ y ∷ ys
append_moves [] y ys = refl
append_moves (x ∷ xs) y ys = ap (λ zs. x ∷ zs) (append_moves xs y ys)

append_nil : (xs : List String) → xs ≡ xs ++ []
append_nil [] = refl
append_nil (x ∷ xs) = ap (λ ys. x ∷ ys) (append_nil xs)

module _ {W : Type 0} (env : Services W) (oracles : W → List Oracle)
    (laws : ServiceLaws env oracles) where
  -- What creating the adapters of `os` adds to the state `s`.
  record Created (os : List Oracle) (s s' : Aggregate W) : Type 0 where
    ids : adapter_ids s'.adapters ≡ adapter_ids s.adapters ++ oracle_ids os
    kept : oracles s'.world ≡ oracles s.world

  create_all-Created :
      (os : List Oracle) (s : Aggregate W)
      → (create_all env os s).0 ≡ ok tt
      → Created os s (create_all env os s).1
  unfolding create_all
  create_all-Created [] s e = record { ids = append_nil (adapter_ids s.adapters); kept = refl }
  create_all-Created (o ∷ os) s e = elim (Result-cases (env.create o)) [
    | inr (x, thrown) ↦ absurd (ground arith)
    | inl (a, made) ↦ elim (Result-cases (a.init s.world).0) [
      | inr (x, thrown) ↦ absurd (ground arith)
      | inl (_, ready) ↦
          let t : Aggregate W = record {
            adapters = s.adapters ++ a ∷ [];
            world = (a.init s.world).1;
          } in
          let run : create_all env (o ∷ os) s ≡ create_all env os t = ground arith in
          let rest = create_all-Created os t (ground (arith, run)) in
          rw run (record {
            ids =
                rest.ids
                ∙ ap (λ ids. ids ++ oracle_ids os) (adapter_ids-append s.adapters a)
                ∙ append_moves (adapter_ids s.adapters) a.oracle_id (oracle_ids os)
                ∙ ap (λ id. adapter_ids s.adapters ++ id ∷ oracle_ids os) (laws.created o a made);
            kept = rest.kept ∙ laws.init_keeps o a s.world made;
          })
    ]
  ]

  -- Of services that keep ServiceLaws: an initialisation that succeeds, of an aggregate with no
  -- adapters and over a finder whose oracles have different ids and stay as they are while it
  -- connects, leaves the oracles as they are and brings the registry into step: one adapter for
  -- each oracle, in the same order.
  pub init-InSync :
      (s : Aggregate W)
      → s.adapters ≡ []
      → AreDistinct (oracle_ids (oracles s.world))
      → oracles (env.finder.init s.world).1 ≡ oracles s.world
      → (init env s).0 ≡ ok tt
      → (oracles (init env s).1.world ≡ oracles s.world) × InSync oracles (init env s).1
  unfolding init
  init-InSync s empty distinct connected e =
      let w1 = (env.finder.init s.world).1 in
      let w2 = (env.finder.get_all_oracles w1).1 in
      elim (Result-cases (env.finder.init s.world).0) [
        | inr (x, thrown) ↦ absurd (ground arith)
        | inl (_, ready) ↦ elim (Result-cases (env.finder.get_all_oracles w1).0) [
          | inr (x, thrown) ↦ absurd (ground arith)
          | inl (os, answered) ↦
              let t : Aggregate W = record s { world = w2 } in
              let run : init env s ≡ create_all env os t = ground arith in
              let made = create_all-Created os t (ground (arith, run)) in
              let listed : os ≡ oracles s.world = laws.finds.all_reads w1 os answered ∙ connected in
              let same = made.kept ∙ laws.finds.all_keeps w1 ∙ connected in
              rw run (
                same,
                record {
                  matched =
                      made.ids
                      ∙ ap (λ as'. adapter_ids as' ++ oracle_ids os) empty
                      ∙ ap oracle_ids listed
                      ∙ ap oracle_ids (sym same);
                  distinct = rw same distinct;
                },
              )
        ]
      ]
