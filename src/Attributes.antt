-- ===== src/Attributes.antt =====
-- sceneapi/server/core/attributes.py: the attributes of a processor, as they are declared and as a
-- step binds them. Texts of messages are left out; `is_data_type` is a parameter.
pub mod Laws
use scene_api.Base.{
  String, Bool, true, false, not, ◌&&◌, ◌||◌, Option, none, some, List, [], ◌∷◌, ◌++◌, map, eqb,
  if◌then◌else◌, length, select, distinct, contains, sort_by, text_le, Dict, get, keys,
}
use scene_api.Number.{Number, less}
use scene_api.Db.{Json}

-- `ATTRIBUTE_TYPES`; `Attribute.type` is checked to be one of them.
pub data AttributeType : Type 0 where
  int float bool str enum datatype_ref object : AttributeType

-- `default` stands for `default` with `has_default`.
pub record Attribute : Type 0 where
  pub name : String
  pub kind : AttributeType
  pub required : Bool
  pub default : Option Json
  pub enum : List String
  pub min : Option Number
  pub max : Option Number
  pub datatype_lookup : Option (String → Bool)

-- The `reason` of an error, and the attribute that its `path` ends in.
pub data Reason : Type 0 where
  unknown_attribute missing_required_attribute invalid_attribute : Reason

pub record AttributeError : Type 0 where
  pub reason : Reason
  pub name : String

abbrev pub is_int : Json → Bool
is_int (Json.number n) = not n.is_float
is_int _ = false

abbrev pub is_number : Json → Bool
is_number (Json.number n) = true
is_number _ = false

-- `value < bound`, on a value that passed the test of its type
abbrev pub below : Json → Option Number → Bool
below (Json.number n) (some bound) = less n bound
below _ _ = false

-- `value > bound`
abbrev pub above : Json → Option Number → Bool
above (Json.number n) (some bound) = less bound n
above _ _ = false

abbrev pub is_none_of : Option Number → Bool
is_none_of none = true
is_none_of (some n) = false

abbrev pub is_null : Json → Bool
is_null Json.null = true
is_null _ = false

abbrev pub is_numeric : AttributeType → Bool
is_numeric AttributeType.int = true
is_numeric AttributeType.float = true
is_numeric _ = false

abbrev pub is_enum : AttributeType → Bool
is_enum AttributeType.enum = true
is_enum _ = false

abbrev is_empty : List String → Bool
is_empty [] = true
is_empty (x ∷ xs) = false

abbrev pub crossed : Option Number → Option Number → Bool
crossed (some lo) (some hi) = less hi lo
crossed _ _ = false

abbrev has : Option Json → Bool
has none = false
has (some v) = true

abbrev invalid : Attribute → AttributeError
invalid a = record { reason = Reason.invalid_attribute; name = a.name }

abbrev if_error : Bool → AttributeError → List AttributeError
if_error true e = e ∷ []
if_error false e = []

abbrev names : List Attribute → List String
names attributes = map (λ a. a.name) attributes

abbrev unknown_names : List Attribute → Dict Json → List String
unknown_names attributes values = select (λ k. not (contains k (names attributes))) (keys values)

abbrev unknown_errors : List String → List AttributeError
unknown_errors ks = map (λ k. record { reason = Reason.unknown_attribute; name = k }) ks

module _ (is_data_type : String → Bool) where
  -- `datatype_lookup or attr.datatype_lookup or is_data_type`
  abbrev chosen : Option (String → Bool) → Option (String → Bool) → String → Bool
  chosen (some f) own = f
  chosen none (some f) = f
  chosen none none = is_data_type

  unfoldable pub type_ok : Option (String → Bool) → Attribute → Json → Bool
  type_ok lookup a value = elim a.kind [
    | AttributeType.bool ↦ elim value [ Json.bool b ↦ true | _ ↦ false ]
    | AttributeType.int ↦ is_int value
    | AttributeType.float ↦ is_number value
    | AttributeType.str ↦ elim value [ Json.text s ↦ true | _ ↦ false ]
    | AttributeType.enum ↦ elim value [ Json.text s ↦ contains s a.enum | _ ↦ false ]
    | AttributeType.datatype_ref ↦ elim value [
      | Json.text s ↦ chosen lookup a.datatype_lookup s
      | _ ↦ false
    ]
    | AttributeType.object ↦ elim value [ Json.object o ↦ true | _ ↦ false ]
  ]

  -- The tests on a default, the last two of them for numbers.
  abbrev pub default_ok : Attribute → Option Json → Bool
  default_ok a none = true
  default_ok a (some v) =
      not (is_null v)
      && (type_ok a.datatype_lookup a v
          && not (is_numeric a.kind && is_number v && (below v a.min || above v a.max)))

  -- `__post_init__` raises nothing.
  unfoldable pub is_declared : Attribute → Bool
  is_declared a =
      not (is_enum a.kind && is_empty a.enum)
      && (not (not (is_enum a.kind) && not (is_empty a.enum))
          && (eqb (length (distinct a.enum)) (length a.enum)
              && (not
                    (not (is_numeric a.kind) && (not (is_none_of a.min) || not (is_none_of a.max)))
                  && (not (crossed a.min a.max)
                      && (not (a.required && has a.default) && default_ok a a.default)))))

  -- What the loop body adds for an attribute whose value was looked up.
  unfoldable pub value_errors :
      Option (String → Bool) → Attribute → Option Json → List AttributeError
  value_errors lookup a none =
      if_error a.required (record { reason = Reason.missing_required_attribute; name = a.name })
  value_errors lookup a (some v) =
      if is_null v || not (type_ok lookup a v)
      then invalid a ∷ []
      else if_error (below v a.min) (invalid a) ++ if_error (above v a.max) (invalid a)

  abbrev all_errors : Option (String → Bool) → List Attribute → Dict Json → List AttributeError
  all_errors lookup [] values = []
  all_errors lookup (a ∷ attributes) values =
      value_errors lookup a (get a.name values) ++ all_errors lookup attributes values

  unfoldable pub validate_attributes :
      Option (String → Bool) → List Attribute → Dict Json → List AttributeError
  validate_attributes lookup attributes values =
      unknown_errors (sort_by text_le (unknown_names attributes values))
      ++ all_errors lookup attributes values
