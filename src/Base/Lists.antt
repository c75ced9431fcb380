-- ===== src/Base/Lists.antt =====
-- Lists measured by native numbers, the loops `any` and `all`, and predicates over lists.
use Prim.Native.Nat.{ℕ, suc, ◌+◌}
use mathlib.Core.Bool.{Bool, true, false, not, ◌&&◌, ◌||◌}
use mathlib.Core.Path.{◌≡◌, subst, sym, ap, ◌∙◌}
use mathlib.Core.List.Memᴰ
use mathlib.Core.List.{Memᴰ}
use mathlib.Core.Logic.{inl, inr}
use mathlib.Core.Option.{Option, none, some}
use mathlib.Core.List.{List, [], ◌∷◌, ◌++◌}
use Prim.Native.String.{String}
use text.Mathlib.Text.{◌==◌}
use native.Mathlib.Omega.{arith}
use scene_api.Base.Tests.{if◌then◌else◌, Bool-cases}

module _ {ℓ} {A : Type ℓ} where
  abbrev pub length : List A → ℕ
  length [] = 0
  length (x ∷ xs) = suc (length xs)

  abbrev pub any : (A → Bool) → List A → Bool
  any p [] = false
  any p (x ∷ xs) = p x || any p xs

  abbrev pub all : (A → Bool) → List A → Bool
  all p [] = true
  all p (x ∷ xs) = p x && all p xs

  -- How many elements pass the test: the row count of an UPDATE.
  abbrev pub count : (A → Bool) → List A → ℕ
  count p [] = 0
  count p (x ∷ xs) = let rest = count p xs in if p x then suc rest else rest

  -- `[x for x in xs if p(x)]`.
  abbrev pub select : (A → Bool) → List A → List A
  select p [] = []
  select p (x ∷ xs) = let rest = select p xs in if p x then x ∷ rest else rest

  -- The first element that passes the test.
  abbrev pub first : (A → Bool) → List A → Option A
  first p [] = none
  first p (x ∷ xs) = let rest = first p xs in if p x then some x else rest

  -- UPDATE … SET … WHERE: changes the rows that pass the test.
  abbrev pub update_where : (A → Bool) → (A → A) → List A → List A
  update_where p f [] = []
  update_where p f (x ∷ xs) = (if p x then f x else x) ∷ update_where p f xs

  abbrev pub All {κ} : (A → Type κ) → List A → Type κ
  All P [] = Unit
  All P (x ∷ xs) = P x × All P xs

  -- Two lists of the same length whose elements are related one by one.
  abbrev pub Zip : (A → A → Type 0) → List A → List A → Type 0
  Zip R [] [] = Unit
  Zip R (x ∷ xs) (y ∷ ys) = R x y × Zip R xs ys
  Zip R [] (y ∷ ys) = ⊥
  Zip R (x ∷ xs) [] = ⊥

abbrev pub without : String → List String → List String
without id ids = select (λ j. not (j == id)) ids

-- How often a text occurs: `xs.count(x)`.
abbrev pub occurs : String → List String → ℕ
occurs x [] = 0
occurs x (y ∷ ys) = let rest = occurs x ys in if y == x then suc rest else rest

-- `list(dict.fromkeys(ids))`
abbrev pub distinct : List String → List String
distinct [] = []
distinct (id ∷ ids) = id ∷ without id (distinct ids)

-- `x in xs`, on texts
abbrev pub contains : String → List String → Bool
contains x xs = any (λ y. y == x) xs

pub All-map {ℓ} :
    {A : Type ℓ} (P Q : A → Type 0) (xs : List A) → ((x : A) → P x → Q x) → All P xs → All Q xs
All-map P Q [] f a = tt
All-map P Q (x ∷ xs) f a = (f x a.0, All-map P Q xs f a.1)

pub All-Memᴰ {ℓ} : {A : Type ℓ} (P : A → Type 0) (xs : List A) (x : A) → All P xs → Memᴰ x xs → P x
All-Memᴰ P [] x a m = absurd (Memᴰ.not-nil m)
All-Memᴰ P (y ∷ ys) x a (Memᴰ.head e) = subst P (sym e) a.0
All-Memᴰ P (y ∷ ys) x a (Memᴰ.tail m) = All-Memᴰ P ys x a.1 m

pub Memᴰ-select {ℓ} :
    {A : Type ℓ} (p : A → Bool) (rows : List A) (t : A)
    → Memᴰ t (select p rows)
    → Memᴰ t rows × (p t ≡ true)
Memᴰ-select p [] t m = absurd (Memᴰ.not-nil m)
Memᴰ-select p (x ∷ xs) t m = elim (Bool-cases (p x)) [
  | inl e ↦ elim (Memᴰ.cases_cons (rw e at m)) [
    | inl same ↦ (Memᴰ.head same, ap p same ∙ e)
    | inr later ↦ let (m', h) = Memᴰ-select p xs t later in (Memᴰ.tail m', h)
  ]
  | inr e ↦ let (m', h) = Memᴰ-select p xs t (rw e at m) in (Memᴰ.tail m', h)
]

pub any-of {ℓ} :
    {A : Type ℓ} (p : A → Bool) (a : A) (xs : List A) → Memᴰ a xs → p a ≡ true → any p xs ≡ true
any-of p a [] m h = absurd (Memᴰ.not-nil m)
any-of p a (x ∷ xs) (Memᴰ.head e) h = ground (arith, ap p e, h)
any-of p a (x ∷ xs) (Memᴰ.tail m) h = ground (arith, any-of p a xs m h)

pub length-append {ℓ} : {A : Type ℓ} (xs ys : List A) → length (xs ++ ys) ≡ length xs + length ys
length-append [] ys = omega arith
length-append (x ∷ xs) ys = omega (arith, length-append xs ys)

pub All-select {ℓ} :
    {A : Type ℓ} (p : A → Bool) (P : A → Type 0) (xs : List A) → All P xs → All P (select p xs)
All-select p P [] a = tt
All-select p P (x ∷ xs) a = elim (Bool-cases (p x)) [
  | inl kept ↦ rw kept (a.0, All-select p P xs a.1)
  | inr left ↦ rw left (All-select p P xs a.1)
]

pub Memᴰ-select-of {ℓ} :
    {A : Type ℓ} (p : A → Bool) (x : A) (xs : List A)
    → Memᴰ x xs
    → p x ≡ true
    → Memᴰ x (select p xs)
Memᴰ-select-of p x [] m h = absurd (Memᴰ.not-nil m)
Memᴰ-select-of p x (y ∷ ys) (Memᴰ.head e) h = rw (sym (ap p e) ∙ h) (Memᴰ.head e)
Memᴰ-select-of p x (y ∷ ys) (Memᴰ.tail m) h = elim (Bool-cases (p y)) [
  | inl yes_p ↦ rw yes_p (Memᴰ.tail (Memᴰ-select-of p x ys m h))
  | inr no_p ↦ rw no_p (Memᴰ-select-of p x ys m h)
]

pub All-append {ℓ} :
    {A : Type ℓ} (P : A → Type 0) (xs ys : List A) → All P xs → All P ys → All P (xs ++ ys)
All-append P [] ys a b = b
All-append P (x ∷ xs) ys a b = (a.0, All-append P xs ys a.1 b)

pub All-split {ℓ} :
    {A : Type ℓ} (P : A → Type 0) (xs ys : List A) → All P (xs ++ ys) → All P xs × All P ys
All-split P [] ys a = (tt, a)
All-split P (x ∷ xs) ys a = let (l, r) = All-split P xs ys a.1 in ((a.0, l), r)

pub all-All {ℓ} :
    {A : Type ℓ} (p : A → Bool) (xs : List A) → all p xs ≡ true → All (λ x. p x ≡ true) xs
all-All p [] e = tt
all-All p (x ∷ xs) e = (ground (arith, e), all-All p xs (ground (arith, e)))
