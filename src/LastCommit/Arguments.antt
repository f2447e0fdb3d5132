-- ===== src/LastCommit/Arguments.antt =====
-- The arguments of getLastCommit.js: `getArgs` and `processArgs`.
use Prim.Native.Char.{Char, code}
use Prim.Native.String.{◌++◌}
use text.Mathlib.TextLemmas.{nil-append, cons-append}
use account_lookup_bc.Common.{
  String, ◌≡◌, ◌≢◌, refl, ap, ◌∙◌, Bool, Option, none, some, List, [], ◌∷◌, if◌then◌else◌, ◌==◌,
  eq_iff, nat_beq, false, arith,
}
use account_lookup_bc.RemoteOracle.Table.{Dict, lookup, insert}
use account_lookup_bc.LastCommit.{Settings}

-- A value of the object of arguments: `true`, or a text.
pub data Argument : Type 0 where
  given : Argument
  valued : String → Argument

onto_first : Char → List String → List String
onto_first c [] = String.◌∷◌ c "" ∷ []
onto_first c (piece ∷ pieces) = String.◌∷◌ c piece ∷ pieces

-- `arg.split("=")`
unfoldable pub split_at_equals : String → List String
unfolding onto_first
split_at_equals String.[] = "" ∷ []
split_at_equals (String.◌∷◌ c s) =
    let rest = split_at_equals s in if nat_beq (code c) b'=' then "" ∷ rest else onto_first c rest

-- A long argument, without its two dashes: the flag, and its value up to the next `=`.
unfoldable pub add_long : List String → Dict Argument → Dict Argument
unfolding insert
add_long [] args = args
add_long (flag ∷ []) args = insert flag given args
add_long (flag ∷ value ∷ pieces) args = insert flag (valued value) args

-- Each character of a short argument is a flag.
unfoldable pub add_short : String → Dict Argument → Dict Argument
unfolding insert
add_short String.[] args = args
add_short (String.◌∷◌ c s) args = add_short s (insert (String.◌∷◌ c "") given args)

abbrev is_dash : Char → Bool
is_dash c = nat_beq (code c) b'-'

-- What stands behind the first dash.
unfoldable pub add_dashed : String → Dict Argument → Dict Argument
unfolding add_long add_short split_at_equals
add_dashed String.[] args = args
add_dashed (String.◌∷◌ c s) args =
    if is_dash c then add_long (split_at_equals s) args else add_short (String.◌∷◌ c s) args

unfoldable pub add_argument : String → Dict Argument → Dict Argument
unfolding add_dashed
add_argument String.[] args = args
add_argument (String.◌∷◌ c s) args = if is_dash c then add_dashed s args else args

-- `getArgs`
unfoldable pub get_args : List String → Dict Argument → Dict Argument
unfolding add_argument
get_args [] args = args
get_args (arg ∷ rest) args = get_args rest (add_argument arg args)

-- `!arg || typeof arg !== "string"` turned round; the third test of each condition is never true.
unfoldable pub text_argument : String → Dict Argument → Option String
unfolding lookup
text_argument name args = elim (lookup name args) [
  | none ↦ none
  | some given ↦ none
  | some (valued s) ↦ if s == "" then none else some s
]

-- `processArgs`, given the arguments: `none` where it ends the process.
unfoldable pub settings_of : Dict Argument → Option Settings
unfolding text_argument lookup insert
settings_of args = elim (text_argument "user" args) [
  | none ↦ none
  | some user ↦ elim (text_argument "repo" args) [
    | none ↦ none
    | some repo ↦ elim (text_argument "branch" args) [
      | none ↦ none
      | some branch ↦
          some (record { user = user; branch = branch; projectslug = "gh/mojaloop/" ++ repo })
    ]
  ]
]

unfoldable pub process_args : List String → Option Settings
unfolding get_args settings_of
process_args argv = settings_of (get_args argv [])

-- No character of the text is `=`.
abbrev pub HasNoEquals : String → Type 0
HasNoEquals String.[] = Unit
HasNoEquals (String.◌∷◌ c s) = (nat_beq (code c) b'=' ≡ false) × HasNoEquals s

split_whole : (s : String) → HasNoEquals s → split_at_equals s ≡ s ∷ []
unfolding split_at_equals
split_whole String.[] h = refl
split_whole (String.◌∷◌ c s) h = ground (arith, split_whole s h.1)

split_cut :
    (s rest : String)
    → HasNoEquals s
    → split_at_equals (s ++ ("=" ++ rest)) ≡ s ∷ split_at_equals rest
unfolding split_at_equals
split_cut String.[] rest h =
    rw (nil-append ("=" ++ rest), cons-append _ "" rest, nil-append rest) refl
split_cut (String.◌∷◌ c s) rest h =
    rw (cons-append c s ("=" ++ rest)) (ground (arith, split_cut s rest h.1))

-- A value, and what an argument may hold behind it.
abbrev pub followed : String → Option String → String
followed value none = value
followed value (some rest) = value ++ ("=" ++ rest)

abbrev pub long : (name value : String) → String
long name value = "--" ++ (name ++ ("=" ++ value))

split_followed :
    (value : String) (more : Option String)
    → HasNoEquals value
    → (pieces : List String) × (split_at_equals (followed value more) ≡ value ∷ pieces)
split_followed value none h = ([], split_whole value h)
split_followed value (some rest) h = (split_at_equals rest, split_cut value rest h)

add_argument-long :
    (name value : String) (more : Option String) (args : Dict Argument)
    → HasNoEquals name
    → HasNoEquals value
    → add_argument (long name (followed value more)) args ≡ insert name (valued value) args
unfolding add_argument
add_argument-long name value more args hn hv =
    let (pieces, split) = split_followed value more hv in
    let cut = split_cut name (followed value more) hn in
    rw
      (
        cons-append _ "-" (name ++ ("=" ++ followed value more)),
        cons-append _ "" (name ++ ("=" ++ followed value more)),
        nil-append (name ++ ("=" ++ followed value more)),
      )
      (ground (arith, split, cut))

-- The three arguments in their long form, with values that are not empty, are accepted; each value
-- is read up to its first `=`, and what stands behind that is dropped.
pub process_args_reads :
    (user repo branch : String) (more more' more'' : Option String)
    → HasNoEquals user
    → HasNoEquals repo
    → HasNoEquals branch
    → user ≢ ""
    → repo ≢ ""
    → branch ≢ ""
    → process_args (
        long "user" (followed user more)
        ∷ long "repo" (followed repo more')
        ∷ long "branch" (followed branch more'')
        ∷ [])
      ≡ some (record { user = user; branch = branch; projectslug = "gh/mojaloop/" ++ repo })
unfolding process_args
process_args_reads user repo branch more more' more'' hu hr hb nu nr nb =
    let set_user = insert "user" (valued user) [] in
    let set_repo = insert "repo" (valued repo) set_user in
    let first = add_argument-long "user" user more [] (refl, (refl, (refl, (refl, tt)))) hu in
    let second =
      add_argument-long "repo" repo more' set_user (refl, (refl, (refl, (refl, tt)))) hr in
    let third =
      add_argument-long "branch" branch more'' set_repo
        (refl, (refl, (refl, (refl, (refl, (refl, tt)))))) hb in
    let repo_argument = long "repo" (followed repo more') in
    let branch_argument = long "branch" (followed branch more'') in
    let read : get_args (long "user" (followed user more) ∷ repo_argument ∷ branch_argument ∷ []) []
        ≡ insert "branch" (valued branch) set_repo =
      ap (λ args. add_argument branch_argument (add_argument repo_argument args)) first
      ∙ ap (add_argument branch_argument) second
      ∙ third in
    ap settings_of read ∙ ground (arith, eq_iff user "", eq_iff repo "", eq_iff branch "")
