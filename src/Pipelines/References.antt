-- ===== src/Pipelines/References.antt =====
-- The references that the ports of a step add are those of known supplies.
use mathlib.Core.List.Memᴰ
use mathlib.Core.List.{Memᴰ}
use mathlib.Core.Option.{none-ne-some, some-injective}
use scene_api.Base.{
  String, ◌≡◌, refl, sym, subst, ◌⊎◌, inl, inr, Bool, Option, none, some, List, [], ◌∷◌, Bool-cases,
  select, first, Memᴰ-select, get,
}
use scene_api.Pipelines.{PortSpec, PipelineStep, Supply, Wiring, parse_wire_ref, wire_values}
use scene_api.Pipelines.Inferred.{
  fits_port, unwired_refs, resolve_wire, wired_refs, port_refs_of, port_refs, ports_refs, ref_first,
}
use scene_api.Db.{Json}
use scene_api.Pipelines.PortSupplies.{Known, named_supply-get}

-- Every reference that a port adds is that of a known supply.
abbrev pub FromKnown : Wiring → String → Type 0
FromKnown w r = (s : Supply) × Known w s × (s.ref ≡ r)

ref_first-Known :
    (w : Wiring) (r : String) (o : Option Supply) (rest : List String)
    → ((s : Supply) → o ≡ some s → Known w s)
    → Memᴰ r (ref_first o rest)
    → FromKnown w r ⊎ Memᴰ r rest
ref_first-Known w r none rest known m = inr m
ref_first-Known w r (some s) rest known m = elim (Memᴰ.cases_cons m) [
  | inl e ↦ inl (s, known s refl, sym e)
  | inr later ↦ inr later
]

wired_refs-Known :
    (w : Wiring) (r : String) (vs : List Json) → Memᴰ r (wired_refs w.by_wire vs) → FromKnown w r
wired_refs-Known w r [] m = absurd (Memᴰ.not-nil m)
wired_refs-Known w r (v ∷ vs) m =
    elim (ref_first-Known w r (resolve_wire w.by_wire v) (wired_refs w.by_wire vs)
      (λ s e. inr (named_supply-get w.by_wire (parse_wire_ref v) s e)) m) [
        | inl known ↦ known
        | inr later ↦ wired_refs-Known w r vs later
      ]

first-Memᴰ {ℓ} : {A : Type ℓ} (p : A → Bool) (xs : List A) (x : A) → first p xs ≡ some x → Memᴰ x xs
first-Memᴰ p [] x e = absurd (none-ne-some _ e)
first-Memᴰ p (y ∷ ys) x e = elim (Bool-cases (p y)) [
  | inl yes_p ↦ Memᴰ.head (sym (some-injective _ _ (rw yes_p at e)))
  | inr no_p ↦ Memᴰ.tail (first-Memᴰ p ys x (rw no_p at e))
]

unwired_refs-Known :
    (w : Wiring) (step : PipelineStep) (role : String) (port : PortSpec) (r : String)
    → Memᴰ r (unwired_refs w step role port)
    → FromKnown w r
unwired_refs-Known w step role port r m = elim (Bool-cases port.required) [
  | inr optional ↦ absurd (Memᴰ.not-nil (rw optional at m))
  | inl required ↦ elim (Bool-cases port.multiple) [
    | inl many ↦
        let (s, there, e) =
          Memᴰ.of_map (λ t. t.ref) (select (fits_port step role port) w.available)
            (rw (required, many) at m) in
        (s, inl (Memᴰ-select _ w.available s there).0, e)
    | inr one ↦
        elim (ref_first-Known w r (first (fits_port step role port) w.available) []
          (λ s e. inl (first-Memᴰ _ w.available s e)) (rw (required, one) at m)) [
            | inl known ↦ known
            | inr none_left ↦ absurd (Memᴰ.not-nil none_left)
          ]
  ]
]

port_refs-Known :
    (w : Wiring) (step : PipelineStep) (e : String × PortSpec) (r : String)
    → Memᴰ r (port_refs w step e)
    → FromKnown w r
port_refs-Known w step (role, port) r m = go (get role step.wires) m
  where
    go : (o : Option Json) → Memᴰ r (port_refs_of o w step role port) → FromKnown w r
    go (some raw) m = wired_refs-Known w r (wire_values raw port) m
    go none m = unwired_refs-Known w step role port r m

pub ports_refs-Known :
    (w : Wiring) (step : PipelineStep) (ports : List (String × PortSpec)) (r : String)
    → Memᴰ r (ports_refs w step ports)
    → FromKnown w r
ports_refs-Known w step [] r m = absurd (Memᴰ.not-nil m)
ports_refs-Known w step (e ∷ ports) r m = elim (Memᴰ.append_cases (port_refs w step e) m) [
  | inl now ↦ port_refs-Known w step e r now
  | inr later ↦ ports_refs-Known w step ports r later
]

pub Memᴰ-ports_refs :
    (w : Wiring) (step : PipelineStep) (e : String × PortSpec) (ports : List (String × PortSpec))
    (r : String)
    → Memᴰ e ports
    → Memᴰ r (port_refs w step e)
    → Memᴰ r (ports_refs w step ports)
Memᴰ-ports_refs w step e [] r m there = absurd (Memᴰ.not-nil m)
Memᴰ-ports_refs w step e (x ∷ xs) r (Memᴰ.head same) there =
    Memᴰ.append_left (ports_refs w step xs) (subst (λ z. Memᴰ r (port_refs w step z)) same there)
Memᴰ-ports_refs w step e (x ∷ xs) r (Memᴰ.tail later) there =
    Memᴰ.append_right (port_refs w step x) (Memᴰ-ports_refs w step e xs r later there)
