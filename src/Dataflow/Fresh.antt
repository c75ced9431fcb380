-- ===== src/Dataflow/Fresh.antt =====
-- Names that occur once, as the validators of sfm_hub/models/dataflow.py demand, are new to a loop
-- that keeps the names it has seen.
use mathlib.Core.List.{cons≢nil}
use mathlib.Core.Bool.{false≢true}
use scene_api.Base.{
  ℕ, ◌≤◌, String, ◌≡◌, refl, sym, ◌∙◌, inl, inr, Bool, true, false, not, ◌||◌, List, [], ◌∷◌, arith,
  ◌==◌, eq_iff, eq_refl, ltb, Bool-cases, select, All, occurs, contains, All-map,
}
use scene_api.Dataflow.Manifests.{has_duplicates}
use scene_api.Pipelines.Strict.{is_empty}

-- No name stands again later in the list.
abbrev pub Apart : List String → Type 0
Apart [] = Unit
Apart (x ∷ xs) = (contains x xs ≡ false) × Apart xs

pub is_empty-nil {ℓ} : {A : Type ℓ} (xs : List A) → not (is_empty xs) ≡ false → xs ≡ []
is_empty-nil [] e = refl
is_empty-nil (x ∷ xs) e = absurd (false≢true (sym e))

select-All {ℓ} :
    {A : Type ℓ} (p : A → Bool) (xs : List A) → select p xs ≡ [] → All (λ x. p x ≡ false) xs
select-All p [] e = tt
select-All p (x ∷ xs) e = elim (Bool-cases (p x)) [
  | inl matched ↦ absurd (cons≢nil (rw matched at e))
  | inr miss ↦ (miss, select-All p xs (rw miss at e))
]

occurs-contains : (x : String) (xs : List String) → contains x xs ≡ true → 1 ≤ occurs x xs
occurs-contains x [] e = absurd (false≢true e)
occurs-contains x (y ∷ ys) e = elim (Bool-cases (y == x)) [
  | inl same ↦ rw same (omega arith)
  | inr other ↦ rw other (occurs-contains x ys (ground (arith, other, e)))
]

occurs-more : (x y : String) (ys : List String) → occurs x ys ≤ occurs x (y ∷ ys)
occurs-more x y ys = elim (Bool-cases (y == x)) [
  | inl same ↦ rw same (omega arith)
  | inr other ↦ rw other (omega arith)
]

once-Apart : (xs : List String) → All (λ x. ltb 1 (occurs x xs) ≡ false) xs → Apart xs
once-Apart [] a = tt
once-Apart (x ∷ xs) a = (
  elim (Bool-cases (contains x xs)) [
    | inl again ↦ absurd (ground (arith, eq_refl x, a.0, occurs-contains x xs again))
    | inr new ↦ new
  ],
  once-Apart xs (
      All-map (λ y. ltb 1 (occurs y (x ∷ xs)) ≡ false) (λ y. ltb 1 (occurs y xs) ≡ false) xs
        (λ y h. fewer (occurs y xs) (occurs y (x ∷ xs)) (occurs-more y x xs) h) a.1),
)
  where
    fewer : (m n : ℕ) → m ≤ n → ltb 1 n ≡ false → ltb 1 m ≡ false
    fewer m n le h = ground (arith, le, h)

pub has_duplicates-Apart : (xs : List String) → has_duplicates xs ≡ false → Apart xs
has_duplicates-Apart xs e =
    once-Apart xs (select-All (λ x. ltb 1 (occurs x xs)) xs (is_empty-nil _ e))

pub fresh-later :
    (x : String) (seen xs : List String)
    → contains x xs ≡ false
    → All (λ y. contains y seen ≡ false) xs
    → All (λ y. contains y (x ∷ seen) ≡ false) xs
fresh-later x seen [] new a = tt
fresh-later x seen (y ∷ ys) new a = (
  elim (Bool-cases (x == y)) [
    | inl same ↦ absurd (
        false≢true (
          sym (left-false (y == x) (contains x ys) new)
          ∙ (eq_iff y x).1 (sym ((eq_iff x y).0 same))))
    | inr other ↦ rw other a.0
  ],
  fresh-later x seen ys (ground (arith, new)) a.1,
)
  where
    left-false : (a b : Bool) → (a || b) ≡ false → a ≡ false
    left-false a b h = ground (arith, h)
