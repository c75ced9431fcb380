-- ===== src/Number.antt =====
-- The numbers of JSON as Python holds them: an `int`, or a finite `float`, which is a whole number
-- divided by a power of two. Comparison of the two is exact.
use scene_api.Base.{ℕ, ◌+◌, ◌*◌, ◌^◌, Bool, true, false, ltb}

pub record Number : Type 0 where
  pub is_float : Bool
  pub negative : Bool
  pub magnitude : ℕ
  pub halvings : ℕ

-- The magnitudes over a common denominator.
abbrev pub scaled : Number → Number → ℕ
scaled a b = a.magnitude * 2 ^ b.halvings

-- `a < b`
unfoldable pub less : Number → Number → Bool
less a b = elim a.negative [
  | false ↦ elim b.negative [ false ↦ ltb (scaled a b) (scaled b a) | true ↦ false ]
  | true ↦ elim b.negative [
    | false ↦ ltb 0 (a.magnitude + b.magnitude)
    | true ↦ ltb (scaled b a) (scaled a b)
  ]
]
