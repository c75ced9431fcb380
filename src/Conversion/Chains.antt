-- ===== src/Conversion/Chains.antt =====
-- Chains of conversion steps (sceneapi/server/services/artifact_conversion_service.py), and what it
-- is to answer a search for one.
use mathlib.Core.Option.{some}
use scene_api.Base.{
  suc, ◌≤◌, String, ◌≡◌, refl, sym, ap, true, none, List, [], ◌∷◌, ◌++◌, length, contains,
}
use scene_api.Conversion.{ConversionStep, Steps, Found}
use mathlib.Core.List.{Memᴰ}

module _ (edges : Steps) where
  -- The steps lead from the first format to the last, and each one may be used.
  abbrev pub Walk : String → Steps → String → Type 0
  Walk source [] goal = source ≡ goal
  Walk source (s ∷ steps) goal =
      (s.from_format ≡ source) × Memᴰ s edges × Walk s.to_format steps goal

  -- No chain leads from the format to a target.
  abbrev pub Unreachable : List String → String → Type 0
  Unreachable targets source =
      (t : String) (chain : Steps) → contains t targets ≡ true → Walk source chain t → ⊥

  -- A target, and a chain to it that is no longer than any chain to any target; or none, as there
  -- is no chain.
  abbrev pub Answers : List String → String → Found → Type 0
  Answers targets source none = Unreachable targets source
  Answers targets source (some (goal, chain)) =
      (contains goal targets ≡ true)
      × Walk source chain goal
      × ((t : String) (other : Steps)
          → contains t targets ≡ true
          → Walk source other t
          → length chain ≤ length other)

  pub Walk-snoc :
      (source : String) (chain : Steps) (s : ConversionStep)
      → Walk source chain s.from_format
      → Memᴰ s edges
      → Walk source (chain ++ s ∷ []) s.to_format
  Walk-snoc source [] s w m = (sym w, m, refl)
  Walk-snoc source (x ∷ chain) s w m = (w.0, w.1, Walk-snoc x.to_format chain s w.2 m)

pub length-snoc {ℓ} : {A : Type ℓ} (xs : List A) (x : A) → length (xs ++ x ∷ []) ≡ suc (length xs)
length-snoc [] x = refl
length-snoc (y ∷ ys) x = ap (λ n. suc n) (length-snoc ys x)
