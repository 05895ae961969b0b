-- ===== src/Prelude/Maps.antt =====
-- Go's `map[string]V`, as an association list in which the newest binding of a key comes first.
-- A nil map reads as the empty one.
use Prim.Native.String.{String}
use mathlib.Core.List.{List, [], ◌∷◌}
use mathlib.Core.Option.{Option, none, some}
use text.Mathlib.Text.{◌==◌}
use carbonable_leaderboard_b.Prelude.Tests.{if◌then◌else◌}

module _ {ℓ} {V : Type ℓ} where
  -- `v, exists := m[k]`
  abbrev pub lookup : String → List (String × V) → Option V
  lookup key [] = none
  lookup key ((name, value) ∷ rest) =
      let further = lookup key rest in if name == key then some value else further

  -- `m[k] = v`
  abbrev pub put : String → V → List (String × V) → List (String × V)
  put k v m = (k, v) ∷ m

abbrev pub or_empty : Option String → String
or_empty none = ""
or_empty (some s) = s

-- `m[k]` of a `map[string]string`: the empty string for a key that is not there.
abbrev pub at_key : String → List (String × String) → String
at_key k m = or_empty (lookup k m)
