-- ===== src/Base/Json.antt =====
-- The JSON values that pass between the agents, and what Python's `dict.get`, `or`, `bool()` and
-- `isinstance(x, (int, float))` do on them.
use mathlib.Core.Bool.{Bool, true, false, not}
use mathlib.Core.Option.{Option, none, some}
use mathlib.Core.List.{List, [], ◌∷◌}
use Prim.Native.Nat.{ℕ, ◌*◌}
use Prim.Native.String.{String}
use text.Mathlib.Text.{◌==◌ as str_eq}
use zion_terminal.Base.Tests.{if◌then◌else◌}
use zion_terminal.Base.Int.{ℤ, pos, eq_ℤ}

-- A number is an exact decimal with four places: `num z` is z / 10000.
mutual
  pub data Json : Type 0 where
    null : Json
    bool : Bool → Json
    num : ℤ → Json
    str : String → Json
    arr : Items → Json
    obj : Fields → Json

  pub data Items : Type 0 where
    nil : Items
    cons : Json → Items → Items

  pub data Fields : Type 0 where
    end : Fields
    field : String → Json → Fields → Fields

-- The number 1 in units of the representation.
abbrev pub one : ℕ
one = 10000

-- The Python int `n`.
abbrev pub int : ℕ → Json
int n = num (pos (n * one))

-- `d.get(k)`: a missing key and a null value both give `None`.
abbrev pub get : String → Fields → Json
get k end = null
get k (field j v d) = if str_eq j k then v else get k d

-- `k in d`
abbrev pub contains : String → Fields → Bool
contains k end = false
contains k (field j v d) = if str_eq j k then true else contains k d

-- `bool(x)`
abbrev pub truthy : Json → Bool
truthy null = false
truthy (bool b) = b
truthy (num z) = not (eq_ℤ z (pos 0))
truthy (str s) = not (str_eq s "")
truthy (arr nil) = false
truthy (arr (cons _ _)) = true
truthy (obj end) = false
truthy (obj (field _ _ _)) = true

-- `a or b`
abbrev pub or_else : Json → Json → Json
or_else a b = if truthy a then a else b

-- `x is not None`
abbrev pub is_set : Json → Bool
is_set null = false
is_set _ = true

-- The number that `x` is in arithmetic: `True` and `False` are ints.
abbrev pub number? : Json → Option ℤ
number? (num z) = some z
number? (bool true) = some (pos one)
number? (bool false) = some (pos 0)
number? _ = none

-- `x == "text"`
abbrev pub is_str : Json → String → Bool
is_str (str s) t = str_eq s t
is_str _ t = false

abbrev pub to_list : Items → List Json
to_list nil = []
to_list (cons x xs) = x ∷ to_list xs
