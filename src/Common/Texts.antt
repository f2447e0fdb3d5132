-- ===== src/Common/Texts.antt =====
-- JavaScript's methods on texts: `trim()`, and `split(" ")`.
use Prim.Native.Char.{Char, code}
use Prim.Native.String.{String}
use mathlib.Core.Path.{◌≡◌, refl}
use mathlib.Core.Bool.{Bool, ◌&&◌, ◌||◌}
use mathlib.Core.List.{List, [], ◌∷◌}
use account_lookup_bc.Common.Tests.{if◌then◌else◌}
use account_lookup_bc.Common.Order.{leb, nat_beq}

-- White space and line ends, as the language defines them.
abbrev pub is_space : Char → Bool
is_space c =
    (leb 9 (code c) && leb (code c) 13)
    || nat_beq (code c) 32
    || nat_beq (code c) 160
    || nat_beq (code c) 5760
    || (leb 8192 (code c) && leb (code c) 8202)
    || nat_beq (code c) 8232
    || nat_beq (code c) 8233
    || nat_beq (code c) 8239
    || nat_beq (code c) 8287
    || nat_beq (code c) 12288
    || nat_beq (code c) 65279

trim_start : String → String
trim_start String.[] = ""
trim_start (String.◌∷◌ c s) = let rest = trim_start s in if is_space c then rest else String.◌∷◌ c s

-- A character before a text that is trimmed at its end.
before : Char → String → String
before c String.[] = if is_space c then "" else String.◌∷◌ c ""
before c (String.◌∷◌ d s) = String.◌∷◌ c (String.◌∷◌ d s)

trim_end : String → String
unfolding before
trim_end String.[] = ""
trim_end (String.◌∷◌ c s) = before c (trim_end s)

unfoldable pub trim : String → String
unfolding trim_start trim_end
trim s = trim_end (trim_start s)

onto_first : Char → List String → List String
onto_first c [] = String.◌∷◌ c "" ∷ []
onto_first c (word ∷ words) = String.◌∷◌ c word ∷ words

unfoldable pub split_at_spaces : String → List String
unfolding onto_first
split_at_spaces String.[] = "" ∷ []
split_at_spaces (String.◌∷◌ c s) =
    let rest = split_at_spaces s in if nat_beq (code c) 32 then "" ∷ rest else onto_first c rest

split_at_spaces-trim : split_at_spaces (trim " Bearer  abc ") ≡ "Bearer" ∷ "" ∷ "abc" ∷ []
unfolding split_at_spaces trim
split_at_spaces-trim = refl
