-- ===== src/Pipelines/Supplies.antt =====
-- Where the supplies of a wiring come from, and what `inferred_step_dependencies` returns for a step.
use mathlib.Core.List.Memᴰ
use mathlib.Core.List.{Memᴰ}
use mathlib.Core.Bool.{false≢true}
use mathlib.Core.Option.{some-injective}
use scene_api.Base.{
  String, ◌≡◌, refl, sym, ap, ◌∙◌, subst, ◌⊎◌, inl, inr, Bool, true, false, ◌||◌, Option, none,
  some, List, [], ◌∷◌, ◌++◌, map, arith, ◌==◌, eq_iff, eq_refl, if◌then◌else◌, Bool-cases, contains,
  Dict, get, put,
}
use scene_api.Pipelines.{
  Processor, PipelineStep, Supply, Wiring, wire_ref, indexed, input_supply, initial_wiring,
  step_supply,
}
use scene_api.Pipelines.Inferred.{
  inferred_from, step_deps, next_wiring, wiring_after, add_dep, add_deps,
}

abbrev pub step_refs : List PipelineStep → List String
step_refs steps = map (λ s. s.ref) steps

-- Each supply that can be named or taken has the property.
abbrev pub Holds : (Supply → Type 0) → Wiring → Type 0
Holds P w =
    ((s : Supply) → Memᴰ s w.available → P s)
    × ((k : String) (s : Supply) → get k w.by_wire ≡ some s → P s)

indexed-holds :
    (P : Supply → Type 0) (ss : List Supply) (d : Dict Supply)
    → ((s : Supply) → Memᴰ s ss → P s)
    → ((k : String) (s : Supply) → get k d ≡ some s → P s)
    → (k : String) (s : Supply) → get k (indexed ss d) ≡ some s
    → P s
indexed-holds P [] d new old k s e = old k s e
indexed-holds P (x ∷ xs) d new old k s e =
    indexed-holds P xs (put (wire_ref x) x d) (λ t m. new t (Memᴰ.tail m))
      (λ j t found. elim (Bool-cases (wire_ref x == j)) [
        | inl same ↦ subst P (some-injective _ _ (rw same at found)) (new x (Memᴰ.head refl))
        | inr other ↦ old j t (rw other at found)
      ])
      k s e

get-put-other :
    (k j : String) (v : List String) (d : Dict (List String))
    → (j == k) ≡ false
    → get k (put j v d) ≡ get k d
get-put-other k j v d h = rw h refl

module _ (lookup : String → Option Processor) where
  -- The wiring after some steps.
  abbrev pub wiring_of : Wiring → List PipelineStep → Wiring
  wiring_of w [] = w
  wiring_of w (step ∷ steps) = wiring_of (next_wiring lookup w step) steps

  -- An initial input, or what one of the steps supplies.
  abbrev pub Produced : List String → List PipelineStep → Supply → Type 0
  Produced inputs steps s =
      Memᴰ s (map (λ d. input_supply d) inputs)
      ⊎ ((e : PipelineStep) × (p : Processor) × Memᴰ e steps
          × (lookup e.processor ≡ some p)
          × Memᴰ s (map (step_supply e) p.supplier))

  module _ (P : Supply → Type 0) where
    supplied-Holds :
        (w : Wiring) (step : PipelineStep) (o : Option Processor)
        → ((p : Processor)
            → o ≡ some p
            → (s : Supply) → Memᴰ s (map (step_supply step) p.supplier)
            → P s)
        → Holds P w
        → Holds P (wiring_after o w step)
    supplied-Holds w step none new h = h
    supplied-Holds w step (some p) new h = (
      λ s m. elim (Memᴰ.append_cases w.available m) [
        | inl old ↦ h.0 s old
        | inr made ↦ new p refl s made
      ],
      indexed-holds P (map (step_supply step) p.supplier) w.by_wire (new p refl) h.1,
    )

    wiring_of-Holds :
        (w : Wiring) (steps : List PipelineStep)
        → ((e : PipelineStep)
            → Memᴰ e steps
            → (p : Processor) → lookup e.processor ≡ some p
            → (s : Supply) → Memᴰ s (map (step_supply e) p.supplier)
            → P s)
        → Holds P w
        → Holds P (wiring_of w steps)
    unfolding next_wiring
    wiring_of-Holds w [] new h = h
    wiring_of-Holds w (step ∷ steps) new h =
        wiring_of-Holds (next_wiring lookup w step) steps (λ e m. new e (Memᴰ.tail m))
          (supplied-Holds w step (lookup step.processor) (new step (Memᴰ.head refl)) h)

  pub wiring_of-Produced :
      (inputs : List String) (steps : List PipelineStep)
      → Holds (Produced inputs steps) (wiring_of (initial_wiring inputs) steps)
  wiring_of-Produced inputs steps =
      wiring_of-Holds (Produced inputs steps) (initial_wiring inputs) steps
        (λ e m p found s made. inr (e, p, m, found, made))
        (
          λ s m. inl m,
          indexed-holds (Produced inputs steps) (map (λ d. input_supply d) inputs) [] (λ s m. inl m)
              (λ k s e. cc),
        )

  get-later :
      (k : String) (w : Wiring) (steps : List PipelineStep) (out : Dict (List String))
      → contains k (step_refs steps) ≡ false
      → get k (inferred_from lookup w steps out) ≡ get k out
  unfolding inferred_from
  get-later k w [] out h = refl
  get-later k w (step ∷ steps) out h =
      get-later k (next_wiring lookup w step) steps (put step.ref (step_deps lookup w step) out)
        (ground arith)
      ∙ get-put-other k step.ref _ out (ground arith)

  -- The entry of a step whose name no later step has.
  pub get-inferred :
      (w : Wiring) (before rest : List PipelineStep) (step : PipelineStep)
      (out : Dict (List String))
      → contains step.ref (step_refs rest) ≡ false
      → get step.ref (inferred_from lookup w (before ++ step ∷ rest) out)
        ≡ some (step_deps lookup (wiring_of w before) step)
  unfolding inferred_from
  get-inferred w [] rest step out h =
      get-later step.ref (next_wiring lookup w step) rest
        (put step.ref (step_deps lookup w step) out) h
      ∙ rw (eq_refl step.ref) refl
  get-inferred w (e ∷ es) rest step out h =
      get-inferred (next_wiring lookup w e) es rest step (put e.ref (step_deps lookup w e) out) h

-- The dependencies that are added.
contains-Memᴰ : (x : String) (xs : List String) → contains x xs ≡ true → Memᴰ x xs
contains-Memᴰ x [] h = absurd (false≢true h)
contains-Memᴰ x (y ∷ ys) h = elim (Bool-cases (y == x)) [
  | inl same ↦ Memᴰ.head (sym ((eq_iff y x).0 same))
  | inr other ↦ Memᴰ.tail (contains-Memᴰ x ys (ground (arith, other, h)))
]

pub Memᴰ-add_deps-old :
    (x : String) (deps refs : List String) → Memᴰ x deps → Memᴰ x (add_deps deps refs)
Memᴰ-add_deps-old x deps [] m = m
Memᴰ-add_deps-old x deps (r ∷ rs) m =
    Memᴰ-add_deps-old x (add_dep deps r) rs (kept (r == "inputs" || contains r deps))
  where
    kept : (known : Bool) → Memᴰ x (if known then deps else deps ++ r ∷ [])
    kept true = m
    kept false = Memᴰ.append_left (r ∷ []) m

add_dep-new : (x : String) (deps : List String) → (x ≡ "inputs") ⊎ Memᴰ x (add_dep deps x)
add_dep-new x deps = elim (Bool-cases (x == "inputs")) [
  | inl source ↦ inl ((eq_iff x "inputs").0 source)
  | inr step ↦ elim (Bool-cases (contains x deps)) [
    | inl known ↦ inr (rw (step, known) (contains-Memᴰ x deps known))
    | inr new ↦ inr (rw (step, new) (Memᴰ.append_right deps (Memᴰ.head refl)))
  ]
]

pub Memᴰ-add_deps :
    (x : String) (deps refs : List String)
    → Memᴰ x refs
    → (x ≡ "inputs") ⊎ Memᴰ x (add_deps deps refs)
Memᴰ-add_deps x deps [] m = absurd (Memᴰ.not-nil m)
Memᴰ-add_deps x deps (r ∷ rs) (Memᴰ.tail m) = Memᴰ-add_deps x (add_dep deps r) rs m
Memᴰ-add_deps x deps (r ∷ rs) (Memᴰ.head e) = elim (add_dep-new r deps) [
  | inl source ↦ inl (e ∙ source)
  | inr new ↦ inr (Memᴰ-add_deps-old x (add_dep deps r) rs (Memᴰ.cast e new))
]

-- A name that is added is one of the references, and it is no input.
add_dep-from :
    (x r : String) (deps : List String)
    → Memᴰ x (add_dep deps r)
    → Memᴰ x deps ⊎ ((x ≡ r) × ((r == "inputs") ≡ false))
add_dep-from x r deps m = elim (Bool-cases (r == "inputs")) [
  | inl source ↦ inl (rw source at m)
  | inr step ↦ elim (Bool-cases (contains r deps)) [
    | inl known ↦ inl (rw (step, known) at m)
    | inr new ↦ elim (Memᴰ.append_cases deps (rw (step, new) at m)) [
      | inl old ↦ inl old
      | inr one ↦ inr (Memᴰ.eq_of_singleton one, step)
    ]
  ]
]

pub Memᴰ-add_deps-from :
    (x : String) (deps refs : List String)
    → Memᴰ x (add_deps deps refs)
    → Memᴰ x deps ⊎ (Memᴰ x refs × ((x == "inputs") ≡ false))
Memᴰ-add_deps-from x deps [] m = inl m
Memᴰ-add_deps-from x deps (r ∷ rs) m = elim (Memᴰ-add_deps-from x (add_dep deps r) rs m) [
  | inr (later, step) ↦ inr (Memᴰ.tail later, step)
  | inl early ↦ elim (add_dep-from x r deps early) [
    | inl old ↦ inl old
    | inr (e, step) ↦ inr (Memᴰ.head e, ap (λ z. z == "inputs") e ∙ step)
  ]
]
