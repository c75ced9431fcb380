-- ===== src/Conversion/Search.antt =====
-- `_find_conversion_path` (sceneapi/server/services/artifact_conversion_service.py): a round keeps
-- what is known of the depths, and uses up fuel.
use mathlib.Core.List.Memᴰ
use mathlib.Core.List.{Memᴰ}
use scene_api.Base.{
  ℕ, suc, ◌+◌, ◌≤◌, String, ◌≡◌, refl, sym, subst, inl, inr, Bool, true, false, not, List, [], ◌∷◌,
  ◌++◌, arith, ◌==◌, eq_iff, eq_refl, Bool-cases, length, count, All, contains,
}
use scene_api.Conversion.{ConversionStep, Steps, Round, reached, going, scan, edges_of}
use scene_api.Conversion.Chains.{Walk, Walk-snoc, length-snoc}
use scene_api.Conversion.Scan.{Queue, Depth, Kept, Kept-skip, Kept-add}
use scene_api.JobService.Cache.{hit}

-- The step leads to a format that was not visited.
abbrev pub unseen : List String → ConversionStep → Bool
unseen visited s = not (contains s.to_format visited)

-- How many more rounds there can be.
abbrev pub rounds_left : Steps → List String → Queue → ℕ
rounds_left edges visited queue = length queue + count (unseen visited) edges

count-visit_le :
    (g : String) (visited : List String) (edges : Steps)
    → count (unseen (g ∷ visited)) edges ≤ count (unseen visited) edges
count-visit_le g visited [] = omega arith
count-visit_le g visited (s ∷ edges) = elim (Bool-cases (g == s.to_format)) [
  | inl same ↦ elim (Bool-cases (contains s.to_format visited)) [
    | inl there ↦ rw (same, there) (count-visit_le g visited edges)
    | inr new ↦ rw (same, new) (omega (arith, count-visit_le g visited edges))
  ]
  | inr other ↦ elim (Bool-cases (contains s.to_format visited)) [
    | inl there ↦ rw (other, there) (count-visit_le g visited edges)
    | inr new ↦ rw (other, new) (omega (arith, count-visit_le g visited edges))
  ]
]

count-visit :
    (s : ConversionStep) (visited : List String) (edges : Steps)
    → Memᴰ s edges
    → contains s.to_format visited ≡ false
    → suc (count (unseen (s.to_format ∷ visited)) edges) ≤ count (unseen visited) edges
count-visit s visited [] m new = absurd (Memᴰ.not-nil m)
count-visit s visited (x ∷ edges) m new = elim (Memᴰ.cases_cons m) [
  | inl e ↦
      subst
        (λ z.
          suc (count (unseen (s.to_format ∷ visited)) (z ∷ edges))
          ≤ count (unseen visited) (z ∷ edges))
        e (rw (eq_refl s.to_format, new) (omega (arith, count-visit_le s.to_format visited edges)))
  | inr m' ↦ elim (Bool-cases (s.to_format == x.to_format)) [
    | inl same ↦
        rw (same, sym ((eq_iff s.to_format x.to_format).0 same), new)
          (omega (arith, count-visit s visited edges m' new))
    | inr other ↦ elim (Bool-cases (contains x.to_format visited)) [
      | inl there ↦ rw (other, there) (count-visit s visited edges m' new)
      | inr fresh ↦ rw (other, fresh) (omega (arith, count-visit s visited edges m' new))
    ]
  ]
]

module _ (targets : List String) (edges : Steps) (source : String) where
  -- How a round at the end of the path ends.
  abbrev pub RoundEnds : Steps → ℕ → Round → Type 0
  RoundEnds path fuel (reached goal chain) =
      (contains goal targets ≡ true)
      × Walk edges source chain goal
      × (length chain ≡ suc (length path))
  RoundEnds path fuel (going visited queue) =
      (depths : List Depth) × Kept targets edges source depths visited queue (length path) []
      × (rounds_left edges visited queue ≤ fuel)

  -- The step starts where the path ends.
  abbrev pub Next : String → ConversionStep → Type 0
  Next current s = Memᴰ s edges × (s.from_format ≡ current)

  pub scan-RoundEnds :
      (path : Steps) (current : String) (fuel : ℕ) (steps : Steps) (visited : List String)
      (queue : Queue) (depths : List Depth)
      → Walk edges source path current
      → All (Next current) steps
      → Kept targets edges source depths visited queue (length path) steps
      → rounds_left edges visited queue ≤ fuel
      → RoundEnds path fuel (scan targets path steps visited queue)
  unfolding scan
  scan-RoundEnds path current fuel [] visited queue depths w a k low = (depths, k, low)
  scan-RoundEnds path current fuel (x ∷ steps) visited queue depths w a k low =
      let walk : Walk edges source path x.from_format =
        subst (λ g. Walk edges source path g) (sym a.0.1) w in
      elim (Bool-cases (contains x.to_format visited)) [
        | inl there ↦ rw there (
            scan-RoundEnds path current fuel steps visited queue depths w a.1
              (Kept-skip targets edges source depths visited queue (length path) x steps k there)
              low)
        | inr new ↦ elim (Bool-cases (contains x.to_format targets)) [
          | inl hit ↦
              rw (new, hit) (hit, Walk-snoc edges source path x walk a.0.0, length-snoc path x)
          | inr miss ↦
              rw (new, miss)
                (scan-RoundEnds path current fuel steps (x.to_format ∷ visited)
                  (queue ++ (x.to_format, path ++ x ∷ []) ∷ [])
                  ((x.to_format, suc (length path)) ∷ depths) w a.1
                  (Kept-add targets edges source depths visited queue path x steps k walk a.0.0
                    miss)
                  (omega (
                    arith,
                    low,
                    count-visit x visited edges a.0.0 new,
                    length-snoc queue (x.to_format, path ++ x ∷ []),
                  )))
        ]
      ]

  pub edges_of-Next :
      (current : String) (steps : Steps)
      → ((s : ConversionStep) → Memᴰ s steps → Memᴰ s edges)
      → All (Next current) (edges_of current steps)
  edges_of-Next current [] sub = tt
  edges_of-Next current (s ∷ steps) sub = elim (Bool-cases (s.from_format == current)) [
    | inl from ↦ rw from (
      (sub s (Memᴰ.head refl), (eq_iff s.from_format current).0 from),
      edges_of-Next current steps (λ x m. sub x (Memᴰ.tail m)),
    )
    | inr other ↦ rw other (edges_of-Next current steps (λ x m. sub x (Memᴰ.tail m)))
  ]
