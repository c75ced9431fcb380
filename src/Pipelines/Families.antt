-- ===== src/Pipelines/Families.antt =====
-- The processor of a capability is that of the longest family that the capability is in.
use mathlib.Core.List.Memᴰ
use mathlib.Core.List.{Memᴰ}
use scene_api.Base.{String, ◌≡◌, true, false, not, ◌||◌, Option, none, some, List, All, Dict, get}
use scene_api.Pipelines.Processors.{in_family, longer_first}

module _ (table : Dict String) (capability : String) where
  -- A family of the table that the capability is in, and no longer one of the families is one.
  abbrev pub Longest : List String → Option String → Type 0
  Longest families none = All (λ f. in_family capability f ≡ false) families
  Longest families (some p) =
      (f : String) × (get f table ≡ some p)
      × (in_family capability f ≡ true)
      × All (λ g. (not (in_family capability g) || longer_first f g) ≡ true) families
