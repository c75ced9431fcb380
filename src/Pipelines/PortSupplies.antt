-- ===== src/Pipelines/PortSupplies.antt =====
-- A port without errors has a supply, and the inferred references name it.
use mathlib.Core.List.Memᴰ
use mathlib.Core.List.{Memᴰ, cons≢nil}
use mathlib.Core.Bool.{false≢true}
use mathlib.Core.Option.{none-ne-some}
use scene_api.Base.{
  ℕ, String, ◌≡◌, refl, sym, ap, ◌∙◌, ◌⊎◌, inl, inr, Bool, true, false, not, ◌&&◌, ◌||◌, Option,
  none, some, List, [], ◌∷◌, arith, ◌==◌, if◌then◌else◌, Bool-cases, select, first, Memᴰ-select,
  Memᴰ-select-of, Dict, get,
}
use scene_api.Pipelines.{
  PortSpec, PipelineStep, Supply, requires_verified_match_graph, Place, Wiring, dotted,
  parse_wire_ref, is_list, wire_values,
}
use scene_api.Pipelines.Strict.{
  is_empty, candidate_errors, unwired_errors, found_supply, checked_supply, value_errors_at,
  values_checked, wired_errors, errors_of_wire, port_errors, has_one,
}
use scene_api.Pipelines.Inferred.{
  fits_port, unwired_refs, named_supply, resolve_wire, wired_refs, port_refs_of, port_refs,
}
use scene_api.Db.{Json}
use scene_api.Attributes.Laws.{parts-nil}

first-found {ℓ} :
    {A : Type ℓ} (p : A → Bool) (x : A) (xs : List A)
    → Memᴰ x xs
    → p x ≡ true
    → (y : A) × (first p xs ≡ some y) × Memᴰ y xs × (p y ≡ true)
first-found p x [] m h = absurd (Memᴰ.not-nil m)
first-found p x (y ∷ ys) m h = elim (Bool-cases (p y)) [
  | inl yes_p ↦ (y, rw yes_p refl, Memᴰ.head refl, yes_p)
  | inr no_p ↦ elim (Memᴰ.cases_cons m) [
    | inl e ↦ absurd (false≢true (sym no_p ∙ sym (ap p e) ∙ h))
    | inr later ↦
        let (z, found, there, good) = first-found p x ys later h in
        (z, rw no_p found, Memᴰ.tail there, good)
  ]
]

nonempty {ℓ} : {A : Type ℓ} (xs : List A) → is_empty xs ≡ false → (x : A) × Memᴰ x xs
nonempty [] h = absurd (false≢true (sym h))
nonempty (x ∷ xs) h = (x, Memᴰ.head refl)

if-required {ℓ} :
    {A : Type ℓ} (required : Bool) (xs : List A)
    → (if not required then [] else xs) ≡ []
    → required ≡ true
    → xs ≡ []
if-required true xs e h = e
if-required false xs e h = absurd (false≢true h)

if-nil {ℓ} :
    {A : Type ℓ} (test : Bool) (x : A) (xs : List A) → (if test then x ∷ [] else xs) ≡ [] → xs ≡ []
if-nil true x xs e = absurd (cons≢nil e)
if-nil false x xs e = e

candidate-some :
    (port : PortSpec) (needs : Bool) (at : Place) (cs : List Supply)
    → candidate_errors port needs at cs ≡ []
    → is_empty cs ≡ false
candidate-some port needs at [] e = absurd (cons≢nil e)
candidate-some port needs at (c ∷ cs) e = refl

candidate-verified :
    (port : PortSpec) (at : Place) (cs : List Supply)
    → candidate_errors port true at cs ≡ []
    → is_empty (select (λ s. s.verified_match_graph) cs) ≡ false
candidate-verified port at cs e = ground arith

available-Suits :
    (port : PortSpec) (needs : Bool) (at : Place) (available : List Supply)
    → unwired_errors available port needs at ≡ []
    → port.required ≡ true
    → (s : Supply) × Memᴰ s available
      × ((s.datatype == port.datatype) ≡ true)
      × ((not needs || s.verified_match_graph) ≡ true)
available-Suits port false at available e required =
    let (s, m) = nonempty _ (
      candidate-some port false at (select (λ s. s.datatype == port.datatype) available)
        (if-required port.required _ e required)) in
    let (there, same) = Memᴰ-select _ available s m in (s, there, same, refl)
available-Suits port true at available e required =
    let (s, m) = nonempty _ (
      candidate-verified port at (select (λ s. s.datatype == port.datatype) available)
        (if-required port.required _ e required)) in
    let (found, verified) =
      Memᴰ-select _ (select (λ s. s.datatype == port.datatype) available) s m in
    let (there, same) = Memᴰ-select _ available s found in (s, there, same, verified)

-- A supply that can be taken or named.
abbrev pub Known : Wiring → Supply → Type 0
Known w s = Memᴰ s w.available ⊎ ((k : String) × (get k w.by_wire ≡ some s))

abbrev pub Taken : Wiring → PipelineStep → String → PortSpec → List String → Type 0
Taken w step role port names =
    (s : Supply) × Known w s
    × ((s.datatype == port.datatype) ≡ true)
    × ((not (requires_verified_match_graph step.processor role) || s.verified_match_graph) ≡ true)
    × Memᴰ s.ref names

unwired-Taken :
    (w : Wiring) (step : PipelineStep) (role : String) (port : PortSpec) (at : Place)
    → unwired_errors w.available port (requires_verified_match_graph step.processor role) at ≡ []
    → port.required ≡ true
    → Taken w step role port (unwired_refs w step role port)
unwired-Taken w step role port at e required =
    let (s, there, same, verified) = available-Suits port _ at w.available e required in
    elim (Bool-cases port.multiple) [
      | inl many ↦ (
        s,
        inl there,
        same,
        verified,
        rw (required, many)
            (Memᴰ.map (λ t. t.ref)
              (Memᴰ-select-of (fits_port step role port) s w.available there (ground arith))),
      )
      | inr one ↦
          let (t, found, here, fits) =
            first-found (fits_port step role port) s w.available there (ground arith) in
          (t, inl here, ground arith, ground arith, rw (required, one, found) (Memᴰ.head refl))
    ]

pub named_supply-get :
    (by_wire : Dict Supply) (o : Option (String × String)) (s : Supply)
    → named_supply by_wire o ≡ some s
    → (k : String) × (get k by_wire ≡ some s)
named_supply-get by_wire none s e = absurd (none-ne-some _ e)
named_supply-get by_wire (some (ref, port)) s e = (dotted ref port, e)

found-Suits :
    (port : PortSpec) (needs : Bool) (at : Place) (s : Supply)
    → found_supply port needs at s ≡ []
    → ((s.datatype == port.datatype) ≡ true) × ((not needs || s.verified_match_graph) ≡ true)
found-Suits port needs at s e = (ground arith, ground arith)

checked-some :
    (port : PortSpec) (needs : Bool) (at : Place) (o : Option Supply)
    → checked_supply port needs at o ≡ []
    → (s : Supply) × (o ≡ some s) × (found_supply port needs at s ≡ [])
checked-some port needs at none e = absurd (cons≢nil e)
checked-some port needs at (some s) e = (s, refl, e)

values-first :
    (by_wire : Dict Supply) (port : PortSpec) (needs : Bool) (at : Place) (values : List Json)
    → values_checked by_wire port needs at values ≡ []
    → port.required ≡ true
    → (v : Json) × (rest : List Json) × (values ≡ v ∷ rest)
      × (checked_supply port needs at (resolve_wire by_wire v) ≡ [])
values-first by_wire port needs at [] e required = absurd (ground arith)
values-first by_wire port needs at (v ∷ vs) e required = (
  v,
  vs,
  refl,
  (parts-nil _ _
      (parts-nil (value_errors_at by_wire port needs at (v ∷ vs)) _
        (if-nil (port.multiple && (port.required && has_one (v ∷ vs))) _ _ e)).0).0,
)

wired-Taken :
    (w : Wiring) (step : PipelineStep) (role : String) (port : PortSpec) (at : Place) (raw : Json)
    → wired_errors w.by_wire port (requires_verified_match_graph step.processor role) at raw ≡ []
    → port.required ≡ true
    → Taken w step role port (wired_refs w.by_wire (wire_values raw port))
wired-Taken w step role port at raw e required =
    let (v, rest, values, ok) =
      values-first w.by_wire port _ at (wire_values raw port)
        (if-nil (not port.multiple && is_list raw) _ _ e) required in
    let (s, named, good) = checked-some port _ at _ ok in
    let (same, verified) = found-Suits port _ at s good in
    (
      s,
      inr (named_supply-get w.by_wire (parse_wire_ref v) s named),
      same,
      verified,
      rw (values, named) (Memᴰ.head refl),
    )

-- A required port without errors has a supply that suits it, and the inferred references name it.
pub port-Taken :
    (w : Wiring) (i : ℕ) (step : PipelineStep) (role : String) (port : PortSpec)
    → port_errors w i step (role, port) ≡ []
    → port.required ≡ true
    → Taken w step role port (port_refs w step (role, port))
port-Taken w i step role port e required = go (get role step.wires) e
  where
    go :
        (o : Option Json)
        → errors_of_wire w port
            (requires_verified_match_graph step.processor role)
            (Place.at_wire i role)
            o
          ≡ []
        → Taken w step role port (port_refs_of o w step role port)
    go (some raw) e = wired-Taken w step role port _ raw e required
    go none e = unwired-Taken w step role port _ e required
