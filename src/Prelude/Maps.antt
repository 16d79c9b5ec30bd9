-- ===== src/Prelude/Maps.antt =====
-- Go maps with string keys, as association lists; a later write replaces an earlier one.
use Prim.Native.String.{String}
use mathlib.Core.Path.{◌≡◌, refl}
use mathlib.Core.Option.{Option, none, some}
use mathlib.Core.List.{List, [], ◌∷◌}
use native.Mathlib.Omega.{arith}
use text.Mathlib.Text.{◌==◌}
use text.Mathlib.TextEquality.{eq_iff}
use mcp_operator.Prelude.Tests.{if◌then◌else◌}

abbrev pub Dict {ℓ} : Type ℓ → Type ℓ
Dict V = List (String × V)

module _ {ℓ} {V : Type ℓ} where
  -- `m[key]`, with the test for presence.
  unfoldable pub lookup : (key : String) → Dict V → Option V
  lookup key [] = none
  lookup key (entry ∷ rest) =
      let later = lookup key rest in if entry.0 == key then some entry.1 else later

  -- `m[key] = value`.
  unfoldable pub insert : (key : String) → (value : V) → Dict V → Dict V
  insert key value [] = (key, value) ∷ []
  insert key value (entry ∷ rest) =
      let deeper = insert key value rest in
      if entry.0 == key then (key, value) ∷ rest else entry ∷ deeper

  -- `delete(m, key)`.
  unfoldable pub remove : (key : String) → Dict V → Dict V
  remove key [] = []
  remove key (entry ∷ rest) =
      let others = remove key rest in if entry.0 == key then others else entry ∷ others

  pub lookup-insert :
      (written read : String) (value : V) (dict : Dict V)
      → lookup read (insert written value dict)
        ≡ (if written == read then some value else lookup read dict)
  unfolding insert lookup
  lookup-insert written read value [] = refl
  lookup-insert written read value (entry ∷ rest) =
      let ih = lookup-insert written read value rest in
      ground (arith, ih, eq_iff entry.0 written, eq_iff entry.0 read, eq_iff written read)

  pub lookup-remove :
      (removed read : String) (dict : Dict V)
      → lookup read (remove removed dict) ≡ (if removed == read then none else lookup read dict)
  unfolding remove lookup
  lookup-remove removed read [] = ground arith
  lookup-remove removed read (entry ∷ rest) =
      let ih = lookup-remove removed read rest in
      ground (arith, ih, eq_iff entry.0 removed, eq_iff entry.0 read, eq_iff removed read)
