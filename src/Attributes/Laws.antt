-- ===== src/Attributes/Laws.antt =====
-- What values `validate_attributes` accepts, and that the default of a declaration is one of them.
use mathlib.Core.List.{cons≢nil}
use mathlib.Core.Bool.{false≢true}
use scene_api.Base.{
  String, ◌≡◌, refl, sym, ◌∙◌, ◌↔◌, inl, inr, Bool, true, false, not, Option, none, some, List, [],
  ◌∷◌, ◌++◌, map, arith, eq_refl, Bool-cases, select, All, contains, sort_by, sort_by-nil, text_le,
  Dict, get, keys,
}
use scene_api.Db.{Json}
use scene_api.Attributes.{
  Attribute, below, above, is_null, type_ok, value_errors, names, all_errors, unknown_names,
  unknown_errors, is_declared, validate_attributes, is_none_of, is_numeric,
}
use scene_api.Number.{Number}

pub parts-nil {ℓ} : {A : Type ℓ} (xs ys : List A) → xs ++ ys ≡ [] → (xs ≡ []) × (ys ≡ [])
parts-nil [] ys e = (refl, e)
parts-nil (x ∷ xs) ys e = absurd (cons≢nil e)

select-nil {ℓ} :
    {A : Type ℓ} (p : A → Bool) (xs : List A)
    → (select (λ x. not (p x)) xs ≡ []) ↔ All (λ x. p x ≡ true) xs
select-nil p [] = (λ e. tt, λ a. refl)
select-nil p (x ∷ xs) = elim (Bool-cases (p x)) [
  | inl yes_p ↦
      (λ e. (yes_p, (select-nil p xs).0 (rw yes_p at e)), λ a. rw yes_p ((select-nil p xs).1 a.1))
  | inr no_p ↦ (λ e. absurd (cons≢nil (rw no_p at e)), λ a. absurd (false≢true (sym no_p ∙ a.0)))
]

map-nil {ℓ κ} : {A : Type ℓ} {B : Type κ} (f : A → B) (xs : List A) → map f xs ≡ [] → xs ≡ []
map-nil f [] e = refl
map-nil f (x ∷ xs) e = absurd (cons≢nil e)

module _ (is_data_type : String → Bool) (lookup : Option (String → Bool)) where
  -- The binding of one attribute is acceptable: missing and not required, or a value of its type
  -- that is not null and within its bounds.
  abbrev pub Binds : Attribute → Option Json → Type 0
  Binds a none = a.required ≡ false
  Binds a (some v) =
      (is_null v ≡ false)
      × (type_ok is_data_type lookup a v ≡ true)
      × (below v a.min ≡ false)
      × (above v a.max ≡ false)

  abbrev pub Accepts : List Attribute → Dict Json → Type 0
  Accepts attributes values =
      All (λ k. contains k (names attributes) ≡ true) (keys values)
      × All (λ a. Binds a (get a.name values)) attributes

  value_errors-Binds :
      (a : Attribute) (o : Option Json) → (value_errors is_data_type lookup a o ≡ []) ↔ Binds a o
  unfolding value_errors
  value_errors-Binds a none = ground arith
  value_errors-Binds a (some v) = ground arith

  all_errors-Binds :
      (attributes : List Attribute) (values : Dict Json)
      → (all_errors is_data_type lookup attributes values ≡ [])
        ↔ All (λ a. Binds a (get a.name values)) attributes
  all_errors-Binds [] values = (λ e. tt, λ a. refl)
  all_errors-Binds (a ∷ rest) values = (
    λ e.
        let (now, later) = parts-nil _ _ e in
        ((value_errors-Binds a _).0 now, (all_errors-Binds rest values).0 later),
    λ h. rw ((value_errors-Binds a _).1 h.0, (all_errors-Binds rest values).1 h.1),
  )

  unknown-nil :
      (attributes : List Attribute) (values : Dict Json)
      → (unknown_errors (sort_by text_le (unknown_names attributes values)) ≡ [])
        ↔ All (λ k. contains k (names attributes) ≡ true) (keys values)
  unknown-nil attributes values = (
    λ e. (select-nil _ (keys values)).0 (sort_by-nil text_le _ (map-nil _ _ e)),
    λ a. rw ((select-nil _ (keys values)).1 a),
  )

  -- Validation reports nothing exactly for the values that are acceptable: each of them is declared,
  -- and each attribute is bound to a value of its type within its bounds, or is missing and not
  -- required.
  pub validate_attributes-Accepts :
      (attributes : List Attribute) (values : Dict Json)
      → (validate_attributes is_data_type lookup attributes values ≡ []) ↔ Accepts attributes values
  unfolding validate_attributes
  validate_attributes-Accepts attributes values = (
    λ e.
        let (known, bound) = parts-nil _ _ e in
        ((unknown-nil attributes values).0 known, (all_errors-Binds attributes values).0 bound),
    λ h. rw ((unknown-nil attributes values).1 h.0, (all_errors-Binds attributes values).1 h.1),
  )

-- The type test on a default looks its own lookup up in both places.
pub type_ok-own :
    (is_data_type : String → Bool) (a : Attribute) (v : Json)
    → type_ok is_data_type a.datatype_lookup a v ≡ type_ok is_data_type none a v
unfolding type_ok
type_ok-own is_data_type a v = ground arith

unbounded_below :
    (n : Number) (o : Option Number) → is_none_of o ≡ true → below (Json.number n) o ≡ false
unbounded_below n none h = refl
unbounded_below n (some bound) h = absurd (false≢true h)

unbounded_above :
    (n : Number) (o : Option Number) → is_none_of o ≡ true → above (Json.number n) o ≡ false
unbounded_above n none h = refl
unbounded_above n (some bound) h = absurd (false≢true h)

default-bounds :
    (is_data_type : String → Bool) (a : Attribute) (v : Json)
    → is_declared is_data_type a ≡ true
    → a.default ≡ some v
    → (below v a.min ≡ false) × (above v a.max ≡ false)
unfolding is_declared
default-bounds is_data_type a (Json.number n) declared e = elim (Bool-cases (is_numeric a.kind)) [
  | inl numeric ↦
      (ground (arith, numeric, rw e at declared), ground (arith, numeric, rw e at declared))
  | inr other ↦ (
    unbounded_below n a.min (ground (arith, other, declared)),
    unbounded_above n a.max (ground (arith, other, declared)),
  )
]
default-bounds is_data_type a v declared e = (refl, refl)

default-Binds :
    (is_data_type : String → Bool) (a : Attribute) (v : Json)
    → is_declared is_data_type a ≡ true
    → a.default ≡ some v
    → Binds is_data_type none a (some v)
unfolding is_declared
default-Binds is_data_type a v declared e = (
  ground (arith, rw e at declared),
  sym (type_ok-own is_data_type a v) ∙ ground (arith, rw e at declared),
  (default-bounds is_data_type a v declared e).0,
  (default-bounds is_data_type a v declared e).1,
)

-- A declaration's own default is a value that its validation accepts.
pub validate-default :
    (is_data_type : String → Bool) (a : Attribute) (v : Json)
    → is_declared is_data_type a ≡ true
    → a.default ≡ some v
    → validate_attributes is_data_type none (a ∷ []) ((a.name, v) ∷ []) ≡ []
validate-default is_data_type a v declared e =
    (validate_attributes-Accepts is_data_type none (a ∷ []) ((a.name, v) ∷ [])).1 (
      (ground (arith, eq_refl a.name), tt),
      (rw (eq_refl a.name) (default-Binds is_data_type a v declared e), tt),
    )
