-- ===== src/Base/Dict.antt =====
-- Go maps with string keys as association lists. The program never depends on their order.
use mailgun_operator.Base.Tests.{if◌then◌else◌}
use Prim.Native.String.{String}
use mathlib.Core.Path.{◌≡◌, refl}
use mathlib.Core.Option.{Option, none, some}
use mathlib.Core.List.{List, [], ◌∷◌}
use native.Mathlib.Omega.{arith}
use text.Mathlib.Text.{◌==◌}
use text.Mathlib.TextEquality.{eq_iff}

abbrev pub Dict : Type 0 → Type 0
Dict V = List (String × V)

module _ {V : Type 0} where
  -- `v, ok := m[k]`
  unfoldable pub lookup : (key : String) (entries : Dict V) → Option V
  lookup key [] = none
  lookup key (entry ∷ rest) = if entry.0 == key then some entry.1 else lookup key rest

  -- `m[k] = v`: in the place of the entry with the key, or behind all others.
  unfoldable pub insert : (key : String) (value : V) (entries : Dict V) → Dict V
  insert key value [] = (key, value) ∷ []
  insert key value (entry ∷ rest) =
      if entry.0 == key then (key, value) ∷ rest else entry ∷ insert key value rest

  -- `delete(m, k)`
  unfoldable pub erase : (key : String) (entries : Dict V) → Dict V
  erase key [] = []
  erase key (entry ∷ rest) =
      let others = erase key rest in if entry.0 == key then others else entry ∷ others

  pub lookup-insert :
      (key asked : String) (value : V) (entries : Dict V)
      → lookup asked (insert key value entries)
        ≡ (if key == asked then some value else lookup asked entries)
  unfolding lookup insert
  lookup-insert key asked value [] = refl
  lookup-insert key asked value (entry ∷ rest) =
      let known = lookup-insert key asked value rest in
      ground (arith, known, eq_iff entry.0 key, eq_iff entry.0 asked, eq_iff key asked)

  pub lookup-erase :
      (key asked : String) (entries : Dict V)
      → lookup asked (erase key entries) ≡ (if key == asked then none else lookup asked entries)
  unfolding lookup erase
  lookup-erase key asked [] = ground arith
  lookup-erase key asked (entry ∷ rest) =
      let known = lookup-erase key asked rest in
      ground (arith, known, eq_iff entry.0 key, eq_iff entry.0 asked, eq_iff key asked)
