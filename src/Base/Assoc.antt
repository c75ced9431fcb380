-- ===== src/Base/Assoc.antt =====
-- Python's `dict` with string keys: the newest entry of a key counts.
use Prim.Native.String.{String}
use mathlib.Core.Option.{Option, none, some}
use mathlib.Core.List.{List, [], ◌∷◌, map}
use text.Mathlib.Text.{◌==◌}
use scene_api.Base.Tests.{if◌then◌else◌}
use scene_api.Base.Lists.{distinct}

abbrev pub Dict {ℓ} : Type ℓ → Type ℓ
Dict V = List (String × V)

module _ {ℓ} {V : Type ℓ} where
  -- `d.get(k)`
  abbrev pub get : String → Dict V → Option V
  get k [] = none
  get k ((j, v) ∷ d) = if j == k then some v else get k d

  -- `d[k] = v`
  abbrev pub put : String → V → Dict V → Dict V
  put k v d = (k, v) ∷ d

  -- `d.pop(k, None)`
  abbrev pub drop : String → Dict V → Dict V
  drop k [] = []
  drop k ((j, v) ∷ d) = let rest = drop k d in if j == k then rest else (j, v) ∷ rest

  -- `set(d)`
  abbrev pub keys : Dict V → List String
  keys d = distinct (map (λ e. e.0) d)
