-- ===== src/RemoteOracle/Overlap.antt =====
-- Changes of RemoteOracle's map that overlap: while one waits for the file, others may run.
use account_lookup_bc.Common.{String, Nullable, ◌≡◌, true, none, List, [], ◌∷◌, ◌++◌, ok}
use account_lookup_bc.Domain.Entities.{Association}
use account_lookup_bc.RemoteOracle.Table.{Dict, values}
use account_lookup_bc.RemoteOracle.{File, RemoteOracle}
use account_lookup_bc.RemoteOracle.Indexed.{IsIndexed}
use account_lookup_bc.RemoteOracle.Changes.{Change, make_change}

-- The file: what it holds, and the writes that were begun and have not ended, oldest first.
pub record Disk : Type 0 where
  pub contents : String
  pub pending : List String

-- The file as a change sees it up to its `await`: `writeFile` has taken the text, and ends later.
abbrev pub begun : (List Association → String) → File Disk
begun encode = record {
  exists = λ w. (ok true, w);
  read = λ w. (ok w.contents, w);
  write = λ text w. (ok tt, record w { pending = w.pending ++ text ∷ [] });
  decode = λ text. ok none;
  encode = encode;
}

module _ (encode : List Association → String) where
  -- A change begins; or one of the writes ends, the oldest of them.
  pub data Step : RemoteOracle Disk → RemoteOracle Disk → Type 0 where
    begins :
        (c : Change) (fsp_id party_type party_id party_sub_type currency : Nullable)
        (s : RemoteOracle Disk)
        → Step s
            (make_change (begun encode) c fsp_id party_type party_id party_sub_type currency s).1
    ends :
        (d : Dict Association) (old text : String) (rest : List String)
        → Step
            (record { associations = d; world = record { contents = old; pending = text ∷ rest } })
            (record { associations = d; world = record { contents = text; pending = rest } })

  pub data Reach (s : RemoteOracle Disk) : RemoteOracle Disk → Type 0 where
    here : Reach s s
    next : {t u : RemoteOracle Disk} → Reach s t → Step t u → Reach s u

  -- The text that the file holds once all writes have ended in order.
  abbrev pub latest : String → List String → String
  latest contents [] = contents
  latest contents (text ∷ rest) = latest text rest

  pub record IsTracked (s : RemoteOracle Disk) : Type 0 where
    pub indexed : IsIndexed s.associations
    pub last : latest s.world.contents s.world.pending ≡ encode (values s.associations)
