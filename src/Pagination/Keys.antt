-- ===== src/Pagination/Keys.antt =====
-- The rows of a listing in the strict order of their keys.

use mathlib.Core.Bool.{false≢true}
use scene_api.Base.{
  String, ◌≡◌, refl, sym, ◌∙◌, inl, inr, Bool, true, false, not, List, [], ◌∷◌, ◌++◌, ◌==◌, eq_iff,
  Bool-cases, select, first, All, All-map, insert_by, All-insert_by, All-sort_by, Sorted,
  text_lt-asym, text_lt_trans, text_lt-total,
}
use scene_api.Pagination.{ahead, ordered}

ahead-asym :
    (descending : Bool) (a b : String) → ahead descending a b ≡ true → ahead descending b a ≡ false
ahead-asym true a b h = text_lt-asym b a h
ahead-asym false a b h = text_lt-asym a b h

ahead_trans :
    (descending : Bool) (a b c : String)
    → ahead descending a b ≡ true
    → ahead descending b c ≡ true
    → ahead descending a c ≡ true
ahead_trans true a b c h k = text_lt_trans c b a k h
ahead_trans false a b c h k = text_lt_trans a b c h k

ahead-total :
    (descending : Bool) (a b : String)
    → (a == b) ≡ false
    → ahead descending b a ≡ false
    → ahead descending a b ≡ true
ahead-total true a b e h = text_lt-total a b e h
ahead-total false a b e h = text_lt-total b a (other a b e) h
  where
    other : (a b : String) → (a == b) ≡ false → (b == a) ≡ false
    other a b e = elim (Bool-cases (b == a)) [
      | inl same ↦ absurd (false≢true (sym e ∙ (eq_iff a b).1 (sym ((eq_iff b a).0 same))))
      | inr differ ↦ differ
    ]

module _ {ℓ} {A : Type ℓ} (pk : A → String) (descending : Bool) where
  abbrev pub InOrder : List A → Type 0
  InOrder xs = Sorted (λ x y. ahead descending (pk x) (pk y)) xs

  -- No two rows have the same key, and no key is empty.
  abbrev pub Keyed : List A → Type 0
  Keyed [] = Unit
  Keyed (x ∷ xs) = ((pk x == "") ≡ false) × All (λ y. (pk x == pk y) ≡ false) xs × Keyed xs

  insert_by-InOrder :
      (x : A) (ys : List A)
      → All (λ y. (pk x == pk y) ≡ false) ys
      → InOrder ys
      → InOrder (insert_by (λ x y. not (ahead descending (pk y) (pk x))) x ys)
  insert_by-InOrder x [] a s = (tt, tt)
  insert_by-InOrder x (y ∷ ys) a s = elim (Bool-cases (ahead descending (pk y) (pk x))) [
    | inl later ↦ rw later (
      All-insert_by (λ x y. not (ahead descending (pk y) (pk x)))
          (λ z. ahead descending (pk y) (pk z) ≡ true) x ys later s.0,
      insert_by-InOrder x ys a.1 s.1,
    )
    | inr first ↦
        let xy = ahead-total descending (pk x) (pk y) a.0 first in
        rw first
          ((xy, All-map _ _ ys (λ z h. ahead_trans descending (pk x) (pk y) (pk z) xy h) s.0), s)
  ]

  pub ordered-InOrder : (rows : List A) → Keyed rows → InOrder (ordered pk descending rows)
  ordered-InOrder [] k = tt
  ordered-InOrder (x ∷ xs) k =
      insert_by-InOrder x (ordered pk descending xs)
        (All-sort_by _ (λ y. (pk x == pk y) ≡ false) xs k.1) (ordered-InOrder xs k.2)

  abbrev pub Filled : List A → Type 0
  Filled rows = All (λ x. (pk x == "") ≡ false) rows

  pub Keyed-Filled : (rows : List A) → Keyed rows → Filled rows
  Keyed-Filled [] k = tt
  Keyed-Filled (x ∷ xs) k = (k.0, Keyed-Filled xs k.2)

  select_whole :
      (k : String) (xs : List A)
      → All (λ y. ahead descending k (pk y) ≡ true) xs
      → select (λ y. ahead descending k (pk y)) xs ≡ xs
  select_whole k [] a = refl
  select_whole k (x ∷ xs) a = rw (a.0, select_whole k xs a.1) refl

  not-ahead : (a : String) → ahead descending a a ≡ false
  not-ahead a = elim (Bool-cases (ahead descending a a)) [
    | inl h ↦ absurd (false≢true (sym (ahead-asym descending a a h) ∙ h))
    | inr h ↦ h
  ]

  pub All-middle : (P : A → Type 0) (pre rest : List A) (x : A) → All P (pre ++ x ∷ rest) → P x
  All-middle P [] rest x a = a.0
  All-middle P (y ∷ ys) rest x a = All-middle P ys rest x a.1

  -- The rows beyond the key of a row are those after it.
  pub select-cut :
      (pre rest : List A) (x : A)
      → InOrder (pre ++ x ∷ rest)
      → select (λ y. ahead descending (pk x) (pk y)) (pre ++ x ∷ rest) ≡ rest
  select-cut [] rest x s = rw (not-ahead (pk x)) (select_whole (pk x) rest s.0)
  select-cut (y ∷ ys) rest x s =
      rw
        (ahead-asym descending (pk y) (pk x)
          (All-middle (λ z. ahead descending (pk y) (pk z) ≡ true) ys rest x s.0))
        (select-cut ys rest x s.1)
