-- ===== src/Common/Values.antt =====
-- A value of JavaScript's type `string | null | undefined`, with `??`, `===` and the test of an
-- `if`.
use Prim.Native.String.{String}
use mathlib.Core.Path.{◌≡◌}
use mathlib.Core.Logic.{◌↔◌, ◌≢◌}
use mathlib.Core.Bool.{Bool, true, false}
use mathlib.Core.Option.{Option, none, some}
use native.Mathlib.Omega.{arith}
use text.Mathlib.Text.{◌==◌}
use text.Mathlib.TextEquality.{eq_iff}
use account_lookup_bc.Common.Tests.{if◌then◌else◌}

pub data Nullable : Type 0 where
  undefined null : Nullable
  str : String → Nullable

-- `x ?? null`
abbrev pub or_null : Nullable → Nullable
or_null undefined = null
or_null null = null
or_null (str s) = str s

-- The text of a value that is truthy: `null`, `undefined` and the empty text are not.
abbrev pub truthy : Nullable → Option String
truthy undefined = none
truthy null = none
truthy (str s) = if s == "" then none else some s

-- `${value}`
abbrev pub shown : Nullable → String
shown undefined = "undefined"
shown null = "null"
shown (str s) = s

-- `x === y`
abbrev pub strict_eq : Nullable → Nullable → Bool
strict_eq undefined undefined = true
strict_eq null null = true
strict_eq (str s) (str t) = s == t
strict_eq _ _ = false

pub strict_eq_iff : (x y : Nullable) → (strict_eq x y ≡ true) ↔ (x ≡ y)
strict_eq_iff undefined undefined = ground arith
strict_eq_iff undefined null = ground arith
strict_eq_iff undefined (str t) = ground arith
strict_eq_iff null undefined = ground arith
strict_eq_iff null null = ground arith
strict_eq_iff null (str t) = ground arith
strict_eq_iff (str s) undefined = ground arith
strict_eq_iff (str s) null = ground arith
strict_eq_iff (str s) (str t) = ground (arith, eq_iff s t)

pub texts-ne : (s t : String) → (s == t) ≡ false → s ≢ t
texts-ne s t e same = ground (arith, eq_iff s t)

pub truthy-eq-some_iff :
    (x : Nullable) (s : String) → (truthy x ≡ some s) ↔ ((x ≡ str s) × (s ≢ ""))
truthy-eq-some_iff undefined s = ground arith
truthy-eq-some_iff null s = ground arith
truthy-eq-some_iff (str t) s = ground (arith, eq_iff t "")
