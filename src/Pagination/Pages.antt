-- ===== src/Pagination/Pages.antt =====
-- Following the page tokens visits every row of a listing once, in its order.
use mathlib.Core.List.{append_assoc}
use scene_api.Base.{
  ℕ, zero, suc, ◌+◌, ◌-◌, ◌≤◌, ◌<◌, String, ◌≡◌, refl, sym, ap, ◌∙◌, subst, ◌≢◌, inl, inr, Bool,
  true, false, Option, none, some, List, [], ◌∷◌, ◌++◌, arith, ◌==◌, ltb, eqb, Bool-cases, length,
  select, length-append, All-sort_by, length-sort_by,
}
use scene_api.Pagination.{
  take, get_elem?, paginate_sequence, ahead, beyond, all_pages, asked, ordered, paginate_keyset,
  followed,
}
use scene_api.Pagination.Keys.{
  select-cut, InOrder, All-middle, Filled, Keyed, ordered-InOrder, Keyed-Filled,
}

module _ {ℓ} {A : Type ℓ} where
  length-front : (init : List A) (x y : A) → length (init ++ x ∷ y ∷ []) ≡ suc (suc (length init))
  length-front [] x y = refl
  length-front (z ∷ zs) x y = ap suc (length-front zs x y)

  take-front :
      (init rest : List A) (x : A) → take (suc (length init)) (init ++ x ∷ rest) ≡ init ++ x ∷ []
  take-front [] rest x = refl
  take-front (z ∷ zs) rest x = ap (λ t. z ∷ t) (take-front zs rest x)

  get-front : (init rest : List A) (x : A) → get_elem? (init ++ x ∷ rest) (length init) ≡ some x
  get-front [] rest x = refl
  get-front (z ∷ zs) rest x = get-front zs rest x

  take-two :
      (init rest : List A) (x y : A)
      → take (suc (suc (length init))) (init ++ x ∷ y ∷ rest) ≡ init ++ x ∷ y ∷ []
  take-two [] rest x y = refl
  take-two (z ∷ zs) rest x y = ap (λ t. z ∷ t) (take-two zs rest x y)

  take-all : (n : ℕ) (xs : List A) → length xs ≤ n → take n xs ≡ xs
  take-all zero [] h = refl
  take-all (suc n) [] h = refl
  take-all zero (x ∷ xs) h = absurd (omega (arith, h))
  take-all (suc n) (x ∷ xs) h = ap (λ t. x ∷ t) (take-all n xs (omega (arith, h)))

  -- A list that is longer than a page is the page, a last row of it, and one row more at least.
  cut :
      (j : ℕ) (xs : List A)
      → j + 1 < length xs
      → (init : List A) × (x : A) × (y : A) × (rest : List A) × (xs ≡ init ++ x ∷ y ∷ rest)
        × (length init ≡ j)
  cut j [] h = absurd (omega (arith, h))
  cut j (x ∷ []) h = absurd (omega (arith, h))
  cut zero (x ∷ y ∷ rest) h = ([], x, y, rest, refl, refl)
  cut (suc j) (x ∷ y ∷ rest) h =
      let (init, u, v, later, e, size) = cut j (y ∷ rest) (omega (arith, h)) in
      (x ∷ init, u, v, later, ap (λ t. x ∷ t) e, ap suc size)

  one_page :
      (xs : List A) (n : ℕ) (pk : A → String)
      → length xs ≤ n
      → paginate_sequence xs n pk ≡ (xs, none)
  unfolding paginate_sequence
  one_page xs n pk h =
      let short : ltb n (length xs) ≡ false = ground arith in
      rw (take-all (n + 1) xs (omega (arith, h)), short) refl

  full_page :
      (init rest : List A) (x y : A) (pk : A → String)
      → paginate_sequence (init ++ x ∷ y ∷ rest) (suc (length init)) pk
        ≡ (init ++ x ∷ [], some (pk x))
  unfolding paginate_sequence
  full_page init rest x y pk =
      let two : suc (length init) + 1 ≡ suc (suc (length init)) = omega arith in
      let more : ltb (suc (length init)) (suc (suc (length init))) ≡ true = ground arith in
      let some_page : eqb (suc (length init)) 0 ≡ false = ground arith in
      let last : suc (length init) - 1 ≡ length init = omega arith in
      rw
        (
          two,
          take-two init rest x y,
          length-front init x y,
          more,
          some_page,
          last,
          take-front init (y ∷ []) x,
          get-front init (y ∷ []) x,
        )
        refl

  module _ (pk : A → String) (descending : Bool) (xs : List A) (strict : InOrder pk descending xs)
      (filled : Filled pk descending xs) where
    abbrev paged : ℕ → Option String → List A × Option String
    paged n token = paginate_sequence (beyond pk descending token xs) n pk

    beyond-cut :
        (pre rest : List A) (x : A)
        → xs ≡ pre ++ x ∷ rest
        → beyond pk descending (some (pk x)) xs ≡ rest
    beyond-cut pre rest x e =
        let named : (pk x == "") ≡ false =
          All-middle pk descending (λ z. (pk z == "") ≡ false) pre rest x
            (subst (Filled pk descending) e filled) in
        rw named (
          ap (select (λ y. ahead descending (pk x) (pk y))) e
          ∙ select-cut pk descending pre rest x (subst (InOrder pk descending) e strict))

    asked-with :
        (n k : ℕ) (token : Option String) (r : List A × Option String)
        → paged k token ≡ r
        → all_pages (paged k) (suc n) token ≡ asked (λ t. all_pages (paged k) n t) r
    unfolding all_pages
    asked-with n k token r e = ap (asked (λ t. all_pages (paged k) n t)) e

    page_then :
        (n : ℕ) (init rest : List A) (x y : A) (rows : List A) (token : Option String)
        → beyond pk descending token xs ≡ rows
        → rows ≡ init ++ x ∷ y ∷ rest
        → all_pages (paged (suc (length init))) n (some (pk x)) ≡ some (y ∷ rest)
        → all_pages (paged (suc (length init))) (suc n) token ≡ some rows
    page_then n init rest x y rows token here parts later =
        asked-with n (suc (length init)) token (init ++ x ∷ [], some (pk x))
          (ap (λ r. paginate_sequence r (suc (length init)) pk) (here ∙ parts)
            ∙ full_page init rest x y pk)
        ∙ ap (followed (init ++ x ∷ [])) later
        ∙ ap some (append_assoc init (x ∷ []) (y ∷ rest) ∙ sym parts)

    abbrev Visits : ℕ → ℕ → List A → Option String → Type ℓ
    Visits n j rows token = all_pages (paged (suc j)) n token ≡ some rows

    pages_from :
        (n j : ℕ) (pre rows : List A) (token : Option String)
        → xs ≡ pre ++ rows
        → beyond pk descending token xs ≡ rows
        → length rows ≤ n
        → Visits (suc n) j rows token
    pages_from zero j pre rows token e here enough =
        asked-with zero (suc j) token (rows, none)
          (ap (λ r. paginate_sequence r (suc j) pk) here
            ∙ one_page rows (suc j) pk (omega (arith, enough)))
    pages_from (suc n) j pre rows token e here enough =
        elim (Bool-cases (ltb (suc j) (length rows))) [
          | inr short ↦
              asked-with (suc n) (suc j) token (rows, none)
                (ap (λ r. paginate_sequence r (suc j) pk) here
                  ∙ one_page rows (suc j) pk (ground arith))
          | inl long ↦
              let (init, x, y, rest, parts, size) = cut j rows (ground arith) in
              let split =
                e ∙ ap (λ r. pre ++ r) parts ∙ sym (append_assoc pre init (x ∷ y ∷ rest)) in
              let fewer : length (y ∷ rest) ≤ n =
                omega (arith, enough, ap length parts, length-append init (x ∷ y ∷ rest)) in
              let later =
                pages_from n j ((pre ++ init) ++ x ∷ []) (y ∷ rest) (some (pk x))
                  (split ∙ sym (append_assoc (pre ++ init) (x ∷ []) (y ∷ rest)))
                  (beyond-cut (pre ++ init) (y ∷ rest) x split) fewer in
              subst (λ i. Visits (suc (suc n)) i rows token) size
                (page_then (suc n) init rest x y rows token here parts
                  (subst (λ i. Visits (suc n) i (y ∷ rest) (some (pk x))) (sym size) later))
        ]

-- Following the tokens of pages that are not empty visits each row of a listing once, in the
-- order of the listing, in at most one request more than there are rows, where the keys are
-- different texts that are not empty.
pub all_pages-paginate_keyset {ℓ} :
    {A : Type ℓ} (rows : List A) (pk : A → String) (descending : Bool) (page_size n : ℕ)
    → Keyed pk descending rows
    → page_size ≢ 0
    → length rows ≤ n
    → all_pages (λ token. paginate_keyset rows pk page_size token descending) (n + 1) none
      ≡ some (ordered pk descending rows)
unfolding paginate_keyset
all_pages-paginate_keyset rows pk descending zero n keyed filled enough = absurd (filled refl)
all_pages-paginate_keyset rows pk descending (suc j) n keyed filled enough =
    let xs = ordered pk descending rows in
    let fuel : n + 1 ≡ suc n = omega arith in
    rw fuel (
      pages_from pk descending xs (ordered-InOrder pk descending rows keyed)
        (All-sort_by _ (λ x. (pk x == "") ≡ false) rows (Keyed-Filled pk descending rows keyed)) n j
        [] xs none refl refl (subst (λ k. k ≤ n) (sym (length-sort_by _ rows)) enough))
