-- ===== src/Conversion/Shortest.antt =====
-- `_find_conversion_path` and `plan_conversion_for_artifact`
-- (sceneapi/server/services/artifact_conversion_service.py) against the chains of conversions.
use mathlib.Core.List.Memᴰ
use mathlib.Core.List.{Memᴰ}
use scene_api.Base.{
  suc, ◌≤◌, String, ◌≡◌, refl, sym, ap, subst, ◌⊎◌, inl, inr, Bool, true, false, not, Option, none,
  some, List, [], ◌∷◌, arith, eq_iff, eq_refl, Bool-cases, length, count, first, contains,
}
use scene_api.Conversion.{
  Steps, Found, find_conversion_path, usable, artifact_format, first_target, add_accepted,
  some_target, target_formats, planned, first_of, with_path, plan_conversion_for_artifact,
  StageArtifact, PlanRequest, Plan,
}
use scene_api.Conversion.Chains.{Answers, Unreachable}
use scene_api.Conversion.Search.{unseen}
use scene_api.Conversion.Answer.{search-Answered}
use scene_api.Conversion.Scan.{Kept, Depth}
use scene_api.JobService.Cache.{hit}
use scene_api.Error.{ok, err, Result, ◌>>=◌, ok-injective, err-ne-ok}

start-Kept :
    (targets : List String) (edges : Steps) (source : String)
    → contains source targets ≡ false
    → Kept targets edges source ((source, 0) ∷ []) (source ∷ []) ((source, []) ∷ []) 0 []
start-Kept targets edges source miss = record {
  start = Memᴰ.head refl;
  seen = λ g there.
      (0, Memᴰ.head (ap (λ z. (z, 0)) (sym ((eq_iff source g).0 (ground (arith, there))))));
  missed = λ v m. subst (λ g. contains g targets ≡ false) (sym (only v m).0) miss;
  near = λ v m. omega (arith, (only v m).1);
  rising = (tt, tt);
  deep = (omega arith, tt);
  walked = ((refl, Memᴰ.head refl), tt);
  settled = λ v m. inl ([], Memᴰ.head (ap (λ z. (z, [])) (only v m).0), omega arith);
}
  where
    only : (v : Depth) → Memᴰ v ((source, 0) ∷ []) → (v.0 ≡ source) × (v.1 ≡ 0)
    only v m = let e = Memᴰ.eq_of_singleton m in (ap (λ z. z.0) e, ap (λ z. z.1) e)

count_le {ℓ} : {A : Type ℓ} (p : A → Bool) (xs : List A) → count p xs ≤ length xs
count_le p [] = omega arith
count_le p (x ∷ xs) = elim (Bool-cases (p x)) [
  | inl hit ↦ rw hit (omega (arith, count_le p xs))
  | inr miss ↦ rw miss (omega (arith, count_le p xs))
]

-- The search for a conversion path ends and answers: the path found leads from the format to a
-- target over conversions that may be used, and no other path to any target is shorter; without an
-- answer, no path leads to a target.
pub find_conversion_path-Answers :
    (source : String) (targets : List String) (require_lossless : Bool) (steps : Steps)
    → (r : Found) × (find_conversion_path source targets require_lossless steps ≡ some r)
      × Answers (usable require_lossless steps) targets source r
unfolding find_conversion_path
find_conversion_path-Answers source targets require_lossless steps =
    let edges = usable require_lossless steps in
    elim (Bool-cases (contains source targets)) [
      | inl here ↦ (some (source, []), rw here refl, (here, refl, λ t other h w. omega arith))
      | inr miss ↦ rw miss (
          search-Answered targets edges source (suc (length edges)) (source ∷ [])
            ((source, []) ∷ []) 0 ((source, 0) ∷ []) (start-Kept targets edges source miss)
            (omega (arith, count_le (unseen (source ∷ [])) edges)))
    ]

-- The plan names a target, says whether a conversion is needed, and is executable with a shortest
-- chain to the target, or is not, as no chain leads to a target.
abbrev pub Decides : Steps → List String → String → Plan → Type 0
Decides edges targets source plan =
    (contains plan.target_format targets ≡ true)
    × (plan.conversion_required ≡ not (contains source targets))
    × (((plan.executable ≡ true)
          × Answers edges targets source (some (plan.target_format, plan.steps)))
        ⊎ ((plan.executable ≡ false) × Unreachable edges targets source))

some_target-first :
    (out targets : List String)
    → some_target out ≡ ok targets
    → contains (first_of targets) targets ≡ true
some_target-first [] targets e = absurd (err-ne-ok _ _ e)
some_target-first (t ∷ ts) targets e =
    subst (λ z. contains (first_of z) z ≡ true) (ok-injective _ _ e) (ground (arith, eq_refl t))

chosen-first :
    (r : Result (List String)) (targets : List String)
    → (r >>= λ out. some_target out) ≡ ok targets
    → contains (first_of targets) targets ≡ true
chosen-first (ok out) targets e = some_target-first out targets e
chosen-first (err x) targets e = absurd (err-ne-ok _ _ e)

target_formats-first :
    (plan_request : PlanRequest) (targets : List String)
    → target_formats plan_request ≡ ok targets
    → contains (first_of targets) targets ≡ true
unfolding target_formats
target_formats-first plan_request targets e =
    chosen-first (add_accepted (first_target plan_request.to_format) plan_request.accepted_formats)
      targets e

with_path-Decides :
    (artifact : StageArtifact) (edges : Steps) (targets : List String) (source : String) (r : Found)
    → contains (first_of targets) targets ≡ true
    → contains source targets ≡ false
    → Answers edges targets source r
    → (plan : Plan) × (with_path artifact source targets (some r) ≡ some plan)
      × Decides edges targets source plan
with_path-Decides artifact edges targets source none first miss a =
    (_, refl, (first, rw miss refl, inr (refl, a)))
with_path-Decides artifact edges targets source (some (goal, chain)) first miss a =
    (_, refl, (a.0, rw miss refl, inl (refl, a)))

-- With valid target formats, an artifact of a known format and the conversions that the backend
-- lists, there is a plan. It names one of the formats asked for; it requires a conversion exactly
-- where the artifact's own format is none of them; and either it is executable and its steps are a
-- shortest chain of usable conversions from the artifact's format to its target, or it is not, and
-- no chain of usable conversions leads to any format asked for.
pub plan_conversion-Decides :
    (conversions : Option String → Result Steps) (artifact : StageArtifact)
    (plan_request : PlanRequest) (targets : List String) (source : String) (steps : Steps)
    → target_formats plan_request ≡ ok targets
    → artifact_format artifact ≡ some source
    → conversions plan_request.provider ≡ ok steps
    → (plan : Plan) × (plan_conversion_for_artifact conversions artifact plan_request
        ≡ ok (some plan))
      × Decides (usable plan_request.require_lossless steps) targets source plan
unfolding plan_conversion_for_artifact
plan_conversion-Decides conversions artifact plan_request targets source steps valid known
      some_formats =
    let first = target_formats-first plan_request targets valid in
    let edges = usable plan_request.require_lossless steps in
    elim (Bool-cases (contains source targets)) [
      | inl here ↦ (
        planned artifact source (some source) false true [],
        rw (valid, known, here) refl,
        (here, rw here refl, inl (refl, (here, refl, λ t other h w. omega arith))),
      )
      | inr miss ↦
          let (r, found, a) =
            find_conversion_path-Answers source targets plan_request.require_lossless steps in
          let (plan, made, decided) =
            with_path-Decides artifact edges targets source r first miss a in
          (plan, rw (valid, known, miss, some_formats, found, made) refl, decided)
    ]
