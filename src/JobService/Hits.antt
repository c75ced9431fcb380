-- ===== src/JobService/Hits.antt =====
-- The task cache is sound: a new row is succeeded only if a stored row of its key succeeded.
use mathlib.Core.List.{Memᴰ}
use scene_api.Base.{
  ℕ, String, ◌≡◌, refl, ◌⊎◌, inl, inr, Option, none, some, List, [], ◌∷◌, ◌++◌, arith, eq_iff,
  Memᴰ-select,
}
use scene_api.Db.{Task, TaskStatus}
use scene_api.JobService.Cache.{
  cache_key, Services, TaskNode, build, cache_matches, reuse, lookup_cached_task, with_id,
  fresh_task,
}

-- The row is pending, or it is succeeded with the outputs of a succeeded row, of the same tenant and
-- cache key, among those seen.
abbrev pub IsBacked : List Task → Task → Type 0
IsBacked seen t =
    (t.status ≡ TaskStatus.pending)
    ⊎ ((cached : Task) × Memᴰ cached seen
        × (t.status ≡ TaskStatus.succeeded)
        × (cached.status ≡ TaskStatus.succeeded)
        × (cached.tenant_id ≡ t.tenant_id)
        × (cached.cache_key ≡ t.cache_key)
        × (t.outputs_ref ≡ cached.outputs_ref))

-- Each row is backed by the table and the rows made before it.
abbrev pub AreBacked : List Task → List Task → Type 0
AreBacked seen [] = Unit
AreBacked seen (t ∷ ts) = IsBacked seen t × AreBacked (seen ++ t ∷ []) ts

module _ (env : Services)
    (latest_chosen : (xs : List Task) (t : Task) → env.latest xs ≡ some t → Memᴰ t xs) where
  reuse-IsBacked :
      (seen : List Task) (t : Task) (c : Option Task)
      → t.status ≡ TaskStatus.pending
      → lookup_cached_task env t.tenant_id t.cache_key seen ≡ c
      → IsBacked seen (reuse c t)
  unfolding lookup_cached_task cache_matches
  reuse-IsBacked seen t none waits e = inl waits
  reuse-IsBacked seen t (some cached) waits e =
      let (m, matches) = Memᴰ-select _ seen cached (latest_chosen _ cached e) in
      inr (
        cached,
        m,
        refl,
        ground arith,
        ground (arith, eq_iff cached.tenant_id t.tenant_id),
        ground (arith, eq_iff cached.cache_key t.cache_key),
        refl,
      )

  -- Every row, as it is built from the DAG, is pending, or succeeded with the outputs of a
  -- succeeded row of its tenant and cache key that the database, or the rows built before it, holds.
  pub build-AreBacked :
      (tenant_id job_id rv : String) (drawn : ℕ) (seen : List Task) (nodes : List TaskNode)
      → AreBacked seen (build env tenant_id job_id rv drawn seen nodes).0
  unfolding build fresh_task
  build-AreBacked tenant_id job_id rv drawn seen [] = tt
  build-AreBacked tenant_id job_id rv drawn seen (n ∷ ns) = (
    reuse-IsBacked seen (fresh_task env tenant_id job_id rv (with_id env drawn n).0) _ refl refl,
    build-AreBacked tenant_id job_id rv (with_id env drawn n).1
        (seen ++ reuse cached (fresh_task env tenant_id job_id rv (with_id env drawn n).0) ∷ []) ns,
  )
    where
      cached : Option Task
      cached = lookup_cached_task env tenant_id (cache_key env rv (with_id env drawn n).0) seen
