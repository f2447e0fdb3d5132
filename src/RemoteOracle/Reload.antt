-- ===== src/RemoteOracle/Reload.antt =====
-- What becomes of the map when its associations are written to the file and loaded again.
use mathlib.Core.List.{append_assoc, append-nil}
use account_lookup_bc.Common.{
  String, ◌≡◌, ◌≢◌, refl, ◌∙◌, sym, ap, subst, Option, none, some, [], ◌∷◌, ◌++◌, All, arith,
  eq_iff, eq_refl,
}
use account_lookup_bc.Domain.Entities.{Association}
use account_lookup_bc.RemoteOracle.Table.{Dict, lookup, insert, values, HasDistinctKeys}
use account_lookup_bc.RemoteOracle.{create_key, key_of, read_record, add_record, add_records}
use account_lookup_bc.RemoteOracle.Indexed.{IsIndexed}

-- Every association as the loop of the load leaves it.
abbrev pub reread : Dict Association → Dict Association
reread [] = []
reread ((k, a) ∷ d) = (k, read_record a) ∷ reread d

key_of-read_record : (a : Association) → key_of (read_record a) ≡ key_of a
unfolding create_key
key_of-read_record a = ground arith

lookup-present :
    (acc d : Dict Association) (k : String) (a : Association) → lookup k (acc ++ (k, a) ∷ d) ≢ none
unfolding lookup
lookup-present [] d k a e = ground (arith, eq_refl k)
lookup-present ((j, b) ∷ acc) d k a e = ground (arith, lookup-present acc d k a)

lookup-middle :
    (acc d : Dict Association) (k : String) (a : Association)
    → HasDistinctKeys (acc ++ (k, a) ∷ d)
    → lookup k acc ≡ none
unfolding lookup
lookup-middle [] d k a h = refl
lookup-middle ((j, b) ∷ acc) d k a h =
    ground (arith, eq_iff j k, lookup-present acc d j a, lookup-middle acc d k a h.1)

insert-new :
    (acc : Dict Association) (k : String) (a : Association)
    → lookup k acc ≡ none
    → insert k a acc ≡ acc ++ (k, a) ∷ []
unfolding lookup insert
insert-new [] k a e = refl
insert-new ((j, b) ∷ acc) k a e = ground (arith, insert-new acc k a)

-- What a lookup finds, as the load leaves it.
abbrev pub reread_found : Option Association → Option Association
reread_found none = none
reread_found (some a) = some (read_record a)

pub lookup-reread :
    (k : String) (d : Dict Association) → lookup k (reread d) ≡ reread_found (lookup k d)
unfolding lookup
lookup-reread k [] = refl
lookup-reread k ((j, a) ∷ d) = ground (arith, lookup-reread k d)

reread-HasDistinctKeys : (d : Dict Association) → HasDistinctKeys d → HasDistinctKeys (reread d)
reread-HasDistinctKeys [] h = tt
reread-HasDistinctKeys ((j, a) ∷ d) h =
    (rw (lookup-reread j d) (ap reread_found h.0), reread-HasDistinctKeys d h.1)

add_record-new :
    (acc : Dict Association) (k : String) (a : Association)
    → k ≡ key_of a
    → lookup k acc ≡ none
    → add_record acc a ≡ acc ++ (k, read_record a) ∷ []
unfolding add_record
add_record-new acc k a keyed free =
    let same = key_of-read_record a ∙ sym keyed in
    ground (arith, same, free, insert-new acc k (read_record a) free)

add_records-values :
    (acc d : Dict Association)
    → HasDistinctKeys (acc ++ reread d)
    → All (λ e. e.0 ≡ key_of e.1) d
    → add_records acc (values d) ≡ acc ++ reread d
unfolding add_records add_record values
add_records-values acc [] distinct keyed = sym (append-nil acc)
add_records-values acc ((k, a) ∷ d) distinct keyed =
    let b = read_record a in
    let longer = acc ++ (k, b) ∷ [] in
    let free = lookup-middle acc (reread d) k b distinct in
    let same = append_assoc acc ((k, b) ∷ []) (reread d) in
    ap (λ old. add_records old (values d)) (add_record-new acc k a keyed.0 free)
    ∙ add_records-values longer d (subst HasDistinctKeys (sym same) distinct) keyed.1
    ∙ same

-- An indexed map is loaded as it was saved, but for the fields that the load fills in.
pub add_records-values-IsIndexed :
    (d : Dict Association) → IsIndexed d → add_records [] (values d) ≡ reread d
add_records-values-IsIndexed d h =
    add_records-values [] d (reread-HasDistinctKeys d h.distinct) h.keyed
