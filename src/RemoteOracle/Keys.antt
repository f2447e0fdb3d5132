-- ===== src/RemoteOracle/Keys.antt =====
-- What the keys of RemoteOracle tell apart.
use Prim.Native.String.{◌++◌}
use text.Mathlib.TextLemmas.{append_assoc}
use account_lookup_bc.Common.{String, Nullable, str, ◌≡◌}
use account_lookup_bc.RemoteOracle.{File, RemoteOracle, create_key, get_participant_fsp_id}

create_key-joined :
    (x y z : String) (currency : Nullable)
    → create_key (str (x ++ ("-" ++ y))) (str z) currency
      ≡ create_key (str x) (str (y ++ ("-" ++ z))) currency
unfolding create_key
create_key-joined x y z currency = simp append_assoc

-- A lookup takes no account of the party sub type, and it takes a party id that ends in a dash and a
-- text for the same party as the shorter id with that text at the front of its party type.
pub get_participant_fsp_id_confuses :
    {W : Type 0} (file : File W) (x y z : String) (sub sub' currency : Nullable)
    (s : RemoteOracle W)
    → get_participant_fsp_id file (str z) (str (x ++ ("-" ++ y))) sub currency s
      ≡ get_participant_fsp_id file (str (y ++ ("-" ++ z))) (str x) sub' currency s
unfolding get_participant_fsp_id
get_participant_fsp_id_confuses file x y z sub sub' currency s =
    rw (create_key-joined x y z currency)
