-- ===== src/Base/Sort.antt =====
-- Python's `sorted`, which is stable, and the order of texts.
use Prim.Native.String
use Prim.Native.Nat.{suc}
use Prim.Native.String.{String}
use mathlib.Core.Path.{◌≡◌, refl, ap, ◌∙◌}
use mathlib.Core.Logic.{◌≢◌, ◌⊎◌, inl, inr}
use mathlib.Core.List.Memᴰ
use mathlib.Core.List.{Memᴰ}
use mathlib.Core.Bool.{Bool, true, false, not}
use mathlib.Core.List.{List, [], ◌∷◌, cons≢nil}
use text.Mathlib.Text.{is_lt}
use scene_api.Base.Tests.{if◌then◌else◌, Bool-cases}
use scene_api.Base.Lists.{All, All-map, length}

module _ {ℓ} {A : Type ℓ} (le : A → A → Bool) where
  abbrev pub insert_by : A → List A → List A
  insert_by x [] = x ∷ []
  insert_by x (y ∷ ys) = let later = insert_by x ys in if le x y then x ∷ y ∷ ys else y ∷ later

  abbrev pub sort_by : List A → List A
  sort_by [] = []
  sort_by (x ∷ xs) = insert_by x (sort_by xs)

  insert_by-ne-nil : (x : A) (ys : List A) → insert_by x ys ≢ []
  insert_by-ne-nil x [] = cons≢nil
  insert_by-ne-nil x (y ∷ ys) = elim (Bool-cases (le x y)) [
    | inl first ↦ rw first cons≢nil
    | inr later ↦ rw later cons≢nil
  ]

  pub sort_by-nil : (xs : List A) → sort_by xs ≡ [] → xs ≡ []
  sort_by-nil [] e = refl
  sort_by-nil (x ∷ xs) e = absurd (insert_by-ne-nil x (sort_by xs) e)

  pub All-insert_by :
      (P : A → Type 0) (x : A) (ys : List A) → P x → All P ys → All P (insert_by x ys)
  All-insert_by P x [] p a = (p, tt)
  All-insert_by P x (y ∷ ys) p a = elim (Bool-cases (le x y)) [
    | inl first ↦ rw first (p, a)
    | inr later ↦ rw later (a.0, All-insert_by P x ys p a.1)
  ]

  pub All-sort_by : (P : A → Type 0) (xs : List A) → All P xs → All P (sort_by xs)
  All-sort_by P [] a = tt
  All-sort_by P (x ∷ xs) a = All-insert_by P x (sort_by xs) a.0 (All-sort_by P xs a.1)

-- The order of texts, by code points.
abbrev pub text_le : String → String → Bool
text_le a b = not (is_lt (String.compare b a))

module _ {ℓ} {A : Type ℓ} (le : A → A → Bool) where
  -- Each element comes before all the later ones.
  abbrev pub Sorted : List A → Type 0
  Sorted [] = Unit
  Sorted (x ∷ xs) = All (λ y. le x y ≡ true) xs × Sorted xs

  module _ (total : (x y : A) → le x y ≡ false → le y x ≡ true)
      (trans : (x y z : A) → le x y ≡ true → le y z ≡ true → le x z ≡ true) where
    insert_by-Sorted : (x : A) (ys : List A) → Sorted ys → Sorted (insert_by le x ys)
    insert_by-Sorted x [] s = (tt, tt)
    insert_by-Sorted x (y ∷ ys) s = elim (Bool-cases (le x y)) [
      | inl first ↦ rw first ((first, All-map _ _ ys (λ z h. trans x y z first h) s.0), s)
      | inr later ↦ rw later (
        All-insert_by le (λ z. le y z ≡ true) x ys (total x y later) s.0,
        insert_by-Sorted x ys s.1,
      )
    ]

    pub sort_by-Sorted : (xs : List A) → Sorted (sort_by le xs)
    sort_by-Sorted [] = tt
    sort_by-Sorted (x ∷ xs) = insert_by-Sorted x (sort_by le xs) (sort_by-Sorted xs)

  Memᴰ-insert_by : (x z : A) (ys : List A) → (z ≡ x) ⊎ Memᴰ z ys → Memᴰ z (insert_by le x ys)
  Memᴰ-insert_by x z [] (inl e) = Memᴰ.head e
  Memᴰ-insert_by x z [] (inr m) = absurd (Memᴰ.not-nil m)
  Memᴰ-insert_by x z (y ∷ ys) (inl e) = elim (Bool-cases (le x y)) [
    | inl first ↦ rw first (Memᴰ.head e)
    | inr later ↦ rw later (Memᴰ.tail (Memᴰ-insert_by x z ys (inl e)))
  ]
  Memᴰ-insert_by x z (y ∷ ys) (inr m) = elim (Bool-cases (le x y)) [
    | inl first ↦ rw first (Memᴰ.tail m)
    | inr later ↦ rw later (elim (Memᴰ.cases_cons m) [
      | inl e ↦ Memᴰ.head e
      | inr m' ↦ Memᴰ.tail (Memᴰ-insert_by x z ys (inr m'))
    ])
  ]

  pub Memᴰ-sort_by : (z : A) (xs : List A) → Memᴰ z xs → Memᴰ z (sort_by le xs)
  Memᴰ-sort_by z [] m = absurd (Memᴰ.not-nil m)
  Memᴰ-sort_by z (x ∷ xs) m = elim (Memᴰ.cases_cons m) [
    | inl e ↦ Memᴰ-insert_by x z (sort_by le xs) (inl e)
    | inr m' ↦ Memᴰ-insert_by x z (sort_by le xs) (inr (Memᴰ-sort_by z xs m'))
  ]

module _ {ℓ} {A : Type ℓ} (le : A → A → Bool) where
  length-insert_by : (x : A) (ys : List A) → length (insert_by le x ys) ≡ suc (length ys)
  length-insert_by x [] = refl
  length-insert_by x (y ∷ ys) = elim (Bool-cases (le x y)) [
    | inl first ↦ rw first refl
    | inr later ↦ rw later (ap suc (length-insert_by x ys))
  ]

  pub length-sort_by : (xs : List A) → length (sort_by le xs) ≡ length xs
  length-sort_by [] = refl
  length-sort_by (x ∷ xs) = length-insert_by x (sort_by le xs) ∙ ap suc (length-sort_by xs)
