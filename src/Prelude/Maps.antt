-- ===== src/Prelude/Maps.antt =====
-- JavaScript's `Map` with text keys: an association list in insertion order. A write to a key that
-- is present keeps the key's place.
use Prim.Native.String.{String}
use mathlib.Core.Path.{◌≡◌, refl}
use mathlib.Core.Option.{Option, none, some}
use mathlib.Core.List.{List, [], ◌∷◌}
use native.Mathlib.Omega.{arith}
use text.Mathlib.Text.{◌==◌}
use text.Mathlib.TextEquality.{eq_iff}
use idm_mw.Prelude.Tests.{if◌then◌else◌}

abbrev pub Assoc {ℓ} : Type ℓ → Type ℓ
Assoc V = List (String × V)

module _ {ℓ} {V : Type ℓ} where
  -- `map.set(key, value)`
  abbrev pub insert : String → V → Assoc V → Assoc V
  insert key value [] = (key, value) ∷ []
  insert key value (entry ∷ rest) =
      if entry.0 == key then (key, value) ∷ rest else entry ∷ insert key value rest

  -- `map.get(key)`
  abbrev pub lookup : String → Assoc V → Option V
  lookup key [] = none
  lookup key (entry ∷ rest) = if entry.0 == key then some entry.1 else lookup key rest

  pub lookup-insert :
      (key asked : String) (value : V) (entries : Assoc V)
      → lookup asked (insert key value entries)
        ≡ (if key == asked then some value else lookup asked entries)
  lookup-insert key asked value [] = refl
  lookup-insert key asked value ((at, old) ∷ rest) =
      ground (
        arith,
        lookup-insert key asked value rest,
        eq_iff at asked,
        eq_iff at key,
        eq_iff key asked,
      )
