-- ===== src/Dataflow/Registry.antt =====
-- A processor of the declarations that the hub accepts (sfm_hub/models/dataflow.py) passes the
-- checks of the server's registry (sceneapi/server/core/processors.py).
use mathlib.Core.List.Memᴰ
use mathlib.Core.List.{Memᴰ}
use mathlib.Core.Bool.{false≢true}
use mathlib.Core.Option.{none-ne-some}
use scene_api.Base.{
  String, ◌≡◌, refl, sym, ap, ◌∙◌, subst, inl, inr, Bool, true, ◌&&◌, none, some, [], ◌∷◌, map,
  arith, ◌==◌, eq_iff, Bool-cases, is_none, all, select, All, get,
}
use scene_api.Pipelines.{Processor, PortSpec, Ports}
use scene_api.Pipelines.Processors.{is_role}
use scene_api.Dataflow.Extensions.{PluginProcessor}
use scene_api.Dataflow.Validators.{is_port_manifest}

-- A declared processor as the server holds one.
abbrev pub server_processor : PluginProcessor → Processor
server_processor p = record {
  processor_id = p.processor_id;
  consumer = p.consumer;
  supplier = p.supplier;
  attributes = p.attributes;
  capabilities = p.capabilities;
  config_stage = none;
  aliases = [];
  special_inputs = [];
  special_attributes = [];
}

pub ports-Ok :
    (known : String → Bool) (ports : Ports)
    → all is_port_manifest ports ≡ true
    → All (λ e. known e.1.datatype ≡ true) ports
    → all (λ e. is_role e.0 && known e.1.datatype) ports ≡ true
ports-Ok known [] manifest a = refl
ports-Ok known ((role, port) ∷ ports) manifest a =
    let here : is_role role ≡ true = ground (arith, manifest) in
    rw (here, a.0) (ports-Ok known ports (ground (arith, manifest)) a.1)

pub consumer-Known :
    (Q : String × PortSpec → Type 0) (consumer supplier : Ports)
    → All (λ e. get e.0 supplier ≡ none) consumer
    → All Q (map (λ e. (e.0, elim (get e.0 supplier) [ some q ↦ q | none ↦ e.1 ])) consumer)
    → All Q consumer
consumer-Known Q [] supplier apart a = tt
consumer-Known Q (e ∷ consumer) supplier apart a =
    (rw apart.0 at a.0, consumer-Known Q consumer supplier apart.1 a.1)

-- A role of the supplier is none of the consumer.
pub apart-get :
    (consumer supplier : Ports) (e : String × PortSpec)
    → All (λ c. get c.0 supplier ≡ none) consumer
    → Memᴰ e supplier
    → is_none (get e.0 consumer) ≡ true
apart-get [] supplier e apart m = refl
apart-get ((role, port) ∷ consumer) supplier e apart m = elim (Bool-cases (role == e.0)) [
  | inl same ↦ absurd (
      get-Memᴰ supplier e m (subst (λ k. get k supplier ≡ none) ((eq_iff role e.0).0 same) apart.0))
  | inr other ↦ rw other (apart-get consumer supplier e apart.1 m)
]
  where
    get-Memᴰ : (d : Ports) (e : String × PortSpec) → Memᴰ e d → get e.0 d ≡ none → ⊥
    get-Memᴰ [] e m missing = Memᴰ.not-nil m
    get-Memᴰ ((k, v) ∷ d) e m missing = elim (Bool-cases (k == e.0)) [
      | inl same ↦ none-ne-some _ (sym (rw same at missing))
      | inr other ↦ elim (Memᴰ.cases_cons m) [
        | inl here ↦ false≢true (sym other ∙ (eq_iff k e.0).1 (ap (λ z. z.0) (sym here)))
        | inr later ↦ get-Memᴰ d e later (rw other at missing)
      ]
    ]

pub supplier-Known :
    (Q : String × PortSpec → Type 0) (consumer ports : Ports)
    → ((e : String × PortSpec) → Memᴰ e ports → is_none (get e.0 consumer) ≡ true)
    → All Q (select (λ e. is_none (get e.0 consumer)) ports)
    → All Q ports
supplier-Known Q consumer [] apart a = tt
supplier-Known Q consumer (e ∷ ports) apart a =
    let kept = rw (apart e (Memᴰ.head refl)) at a in
    (kept.0, supplier-Known Q consumer ports (λ x m. apart x (Memᴰ.tail m)) kept.1)
