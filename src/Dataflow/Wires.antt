-- ===== src/Dataflow/Wires.antt =====
-- A port with a wire: what the hub's check (sfm_hub/models/dataflow.py) lets pass, the server's
-- (sceneapi/server/core/pipelines.py) does too.
use mathlib.Core.Option.{none-ne-some}
use scene_api.Base.{
  ℕ, suc, String, ◌≡◌, refl, sym, ap, ◌∙◌, subst, inl, inr, Bool, true, false, not, ◌&&◌, Option,
  none, some, List, [], ◌∷◌, map, arith, ◌==◌, ltb, eqb, Bool-cases, length, All, distinct, Dict,
  get,
}
use scene_api.Db.{Json}
use scene_api.Pipelines.{
  PortSpec, Supply, Wiring, Place, wire_ref, dotted, parse_wire_ref, is_list, wire_values,
}
use scene_api.Pipelines.Strict.{
  checked_supply, value_errors_at, key_first, wire_keys, has_one, fan_in_errors, wired_errors,
  is_empty,
}
use scene_api.Dataflow.{
  Check, GraphError, raise_if, ◌also◌, each_of, supply_check, wire_check, key_of, graph_keys,
  GraphWiring, keys_check, wired_check,
}
use scene_api.Pipelines.Inferred.{named_supply}

pub also-none : (a b : Check) → (a also b) ≡ none → (a ≡ none) × (b ≡ none)
also-none (some x) b e = absurd (none-ne-some _ (sym e))
also-none none b e = (refl, e)

pub raise_if-none : (b : Bool) (x : GraphError) → raise_if b x ≡ none → b ≡ false
raise_if-none true x e = absurd (none-ne-some _ (sym e))
raise_if-none false x e = refl

pub also-raise :
    (b : Bool) (x : GraphError) (next : Check)
    → (raise_if b x also next) ≡ none
    → (b ≡ false) × (next ≡ none)
also-raise true x next e = absurd (none-ne-some _ (sym e))
also-raise false x next e = (refl, e)

few-one :
    (multiple required : Bool) (d k n : ℕ)
    → k ≡ n
    → (multiple && not (eqb d k)) ≡ false
    → (multiple && (required && ltb d 2)) ≡ false
    → (multiple && (required && eqb n 1)) ≡ false
few-one multiple required d k n e once many = ground (arith, e, once, many)

pub each_of-none {ℓ} :
    {A : Type ℓ} (f : A → Check) (xs : List A) → each_of f xs ≡ none → All (λ x. f x ≡ none) xs
each_of-none f [] e = tt
each_of-none f (x ∷ xs) e =
    let (here, later) = also-none (f x) (each_of f xs) e in (here, each_of-none f xs later)

-- What the hub keeps of a supplier.
abbrev pub known_of : Option Supply → Option (String × Bool)
known_of none = none
known_of (some s) = some (s.datatype, s.verified_match_graph)

abbrev pub wire_entry : String × Supply → String × (String × Bool)
wire_entry e = (e.0, (e.1.datatype, e.1.verified_match_graph))

-- The hub's state of a loop that the server has run to the same step.
abbrev pub graph_view : Wiring → GraphWiring
graph_view w = record { available = w.available; by_wire = map wire_entry w.by_wire }

get-graph_view : (k : String) (d : Dict Supply) → get k (map wire_entry d) ≡ known_of (get k d)
get-graph_view k [] = refl
get-graph_view k ((j, s) ∷ d) = elim (Bool-cases (j == k)) [
  | inl same ↦ rw same refl
  | inr other ↦ rw other (get-graph_view k d)
]

-- Each supplier stands at its own wire.
abbrev pub IsKeyed : Dict Supply → Type 0
IsKeyed d = (k : String) (s : Supply) → get k d ≡ some s → wire_ref s ≡ k

supply-Sound :
    (port : PortSpec) (needs : Bool) (at : Place) (o : Option Supply)
    → supply_check port needs (known_of o) ≡ none
    → checked_supply port needs at o ≡ []
supply-Sound port needs at none e = absurd (none-ne-some _ (sym e))
supply-Sound port needs at (some s) e =
    let (typed, verified) =
      also-none (raise_if (not (s.datatype == port.datatype)) GraphError.datatype_mismatch)
        (raise_if (needs && not s.verified_match_graph) GraphError.unverified_match_graph) e in
    rw
      (
        raise_if-none (not (s.datatype == port.datatype)) GraphError.datatype_mismatch typed,
        raise_if-none (needs && not s.verified_match_graph) GraphError.unverified_match_graph
            verified,
      )
      refl

found-key :
    (d : Dict Supply) (k : String) (ks : List String) (o : Option Supply) (port : PortSpec)
    (needs : Bool)
    → ((s : Supply) → o ≡ some s → wire_ref s ≡ k)
    → supply_check port needs (known_of o) ≡ none
    → key_first o ks ≡ k ∷ ks
found-key d k ks none port needs keyed e = absurd (none-ne-some _ (sym e))
found-key d k ks (some s) port needs keyed e = ap (λ z. z ∷ ks) (keyed s refl)

module _ (d : Dict Supply) (keyed : IsKeyed d) (port : PortSpec) (needs : Bool) (at : Place) where
  value-Sound :
      (o : Option (String × String)) (ks : List String)
      → wire_check (map wire_entry d) port needs o ≡ none
      → (checked_supply port needs at (named_supply d o) ≡ [])
        × (key_first (named_supply d o) ks ≡ key_of o ks)
  value-Sound none ks e = absurd (none-ne-some _ (sym e))
  value-Sound (some (ref, role)) ks e =
      let k = dotted ref role in
      let e' : supply_check port needs (known_of (get k d)) ≡ none =
        subst (λ z. supply_check port needs z ≡ none) (get-graph_view k d) e in
      (supply-Sound port needs at (get k d) e', found-key d k ks (get k d) port needs (keyed k) e')

  pub values-Sound :
      (vs : List Json)
      → All (λ v. wire_check (map wire_entry d) port needs (parse_wire_ref v) ≡ none) vs
      → (value_errors_at d port needs at vs ≡ [])
        × (wire_keys d vs ≡ graph_keys vs)
        × (length (graph_keys vs) ≡ length vs)
  values-Sound [] a = (refl, refl, refl)
  values-Sound (v ∷ vs) a =
      let (none_later, keys_later, long) = values-Sound vs a.1 in
      let (none_here, key_here) = value-Sound (parse_wire_ref v) (wire_keys d vs) a.0 in
      (
        rw none_here none_later,
        key_here ∙ ap (λ z. key_of (parse_wire_ref v) z) keys_later,
        key_counted (parse_wire_ref v) (graph_keys vs) a.0 ∙ ap (λ n. suc n) long,
      )
    where
      key_counted :
          (o : Option (String × String)) (ks : List String)
          → wire_check (map wire_entry d) port needs o ≡ none
          → length (key_of o ks) ≡ suc (length ks)
      key_counted none ks e = absurd (none-ne-some _ (sym e))
      key_counted (some p) ks e = refl

  keys-Sound :
      (vs : List Json)
      → wire_keys d vs ≡ graph_keys vs
      → length (graph_keys vs) ≡ length vs
      → keys_check port (graph_keys vs) ≡ none
      → ((port.multiple && (port.required && has_one vs)) ≡ false)
        × (fan_in_errors port at (wire_keys d vs) ≡ [])
  keys-Sound vs same long e =
      let ks = graph_keys vs in
      let twice = port.multiple && not (eqb (length (distinct ks)) (length ks)) in
      let few = port.multiple && (port.required && ltb (length (distinct ks)) 2) in
      let (once, rest) =
        also-raise twice GraphError.duplicate_wires (raise_if few GraphError.too_few_inputs) e in
      let many = raise_if-none few GraphError.too_few_inputs rest in
      (
        few-one port.multiple port.required (length (distinct ks)) (length ks) (length vs) long once
            many,
        rw (same, once, many) refl,
      )

  pub wired-Sound :
      (available : List Supply) (raw : Json)
      → wired_check (graph_view (record { available = available; by_wire = d })) port needs raw
        ≡ none
      → wired_errors d port needs at raw ≡ []
  wired-Sound available raw e =
      let vs = wire_values raw port in
      let each_checked =
        each_of (λ v. wire_check (map wire_entry d) port needs (parse_wire_ref v)) vs in
      let last = keys_check port (graph_keys vs) in
      let (single, e₁) =
        also-raise (is_list raw && not port.multiple) GraphError.not_multiple
          (raise_if (is_empty vs && port.required) GraphError.missing_port
            also each_checked
            also last)
          e in
      let (there, e₂) =
        also-raise (is_empty vs && port.required) GraphError.missing_port (each_checked also last)
          e₁ in
      let (each, keys_good) = also-none each_checked last e₂ in
      let (good, same, long) =
        values-Sound vs (
          each_of-none (λ v. wire_check (map wire_entry d) port needs (parse_wire_ref v)) vs
            each) in
      let (more, fan) = keys-Sound vs same long keys_good in
      let single' : (not port.multiple && is_list raw) ≡ false = ground (arith, single) in
      rw (single', there, more, good, fan) refl
