-- ===== src/Sweep/Agrees.antt =====
-- What the entries of the loop's status map have to do with the rows stays so while the loop runs.
use mathlib.Core.Bool.{false≢true}
use scene_api.Base.{
  ℕ, zero, suc, String, ◌≡◌, refl, sym, ap, ◌∙◌, subst, inl, inr, true, false, Option, none, some,
  List, [], ◌∷◌, map, ◌==◌, eq_iff, eq_refl, Bool-cases, Option-cases, All, get, put,
}
use scene_api.Db.{Task, TaskStatus}
use scene_api.Readiness.{StatusMap}
use scene_api.Sweep.{Visit, sweep, note, status_by_id, replaced, proceed, settle, Swept}
use scene_api.JobService.{rows_of}

-- What a visit leaves alone: the ids of a row and of its job, and its dependencies.
abbrev pub Shape : Type 0
Shape = String × String × List String

abbrev pub shape : Task → Shape
shape t = (t.task_id, t.job_id, t.depends_on)

abbrev pub KeepsShape : Visit → Type 0
KeepsShape visit = (m : StatusMap) (t t' : Task) → visit m t ≡ some t' → shape t' ≡ shape t

-- No two rows have the same id.
abbrev pub Apart : List Shape → Type 0
Apart [] = Unit
Apart (s ∷ ss) = All (λ u. (s.0 == u.0) ≡ false) ss × Apart ss

-- `R` says what the map's entry for a row has to do with the row.
module _ (R : Option TaskStatus → Task → Type 0) where
  abbrev pub Tells : StatusMap → List Task → Type 0
  Tells m rows = All (λ t. R (get t.task_id m) t) rows

  pub get-skip :
      (k j : String) (s : TaskStatus) (m : StatusMap)
      → (j == k) ≡ false
      → get k (put j s m) ≡ get k m
  get-skip k j s m h = rw h refl

  pub Tells-put :
      (id : String) (s : TaskStatus) (m : StatusMap) (rows : List Task)
      → All (λ u. (id == u.0) ≡ false) (map shape rows)
      → Tells m rows
      → Tells (put id s m) rows
  Tells-put id s m [] apart a = tt
  Tells-put id s m (t ∷ ts) apart a = (
    subst (λ o. R o t) (sym (get-skip t.task_id id s m apart.0)) a.0,
    Tells-put id s m ts apart.1 a.1,
  )

  module _ (own : (t : Task) → R (some t.status) t) (visit : Visit) (keeps : KeepsShape visit) where
    pub sweep-shapes :
        (m : StatusMap) (rows : List Task) → map shape (sweep visit m rows).rows ≡ map shape rows
    unfolding sweep
    sweep-shapes m [] = refl
    sweep-shapes m (t ∷ ts) = elim (Option-cases (visit m t)) [
      | inl e ↦ rw e (ap (λ r. shape t ∷ r) (sweep-shapes m ts))
      | inr (t', e) ↦ rw (e, keeps m t t' e, sweep-shapes (note (some t') m) ts) refl
    ]

    -- A round leaves the status of an id that none of its rows has.
    sweep-get :
        (k : String) (m : StatusMap) (rows : List Task)
        → All (λ u. (k == u.0) ≡ false) (map shape rows)
        → get k (sweep visit m rows).statuses ≡ get k m
    unfolding sweep
    sweep-get k m [] apart = refl
    sweep-get k m (t ∷ ts) apart = elim (Option-cases (visit m t)) [
      | inl e ↦ rw e (sweep-get k m ts apart.1)
      | inr (t', e) ↦ rw e (
          sweep-get k (put t'.task_id t'.status m) ts apart.1
          ∙ get-skip k t'.task_id t'.status m
              (other k t'.task_id t.task_id (ap (λ s. s.0) (keeps m t t' e)) apart.0))
    ]
      where
        other : (k j i : String) → j ≡ i → (k == i) ≡ false → (j == k) ≡ false
        other k j i same h = elim (Bool-cases (j == k)) [
          | inl same_key ↦
              absurd (false≢true (sym h ∙ (eq_iff k i).1 (sym ((eq_iff j k).0 same_key) ∙ same)))
          | inr miss ↦ miss
        ]

    head-Tells :
        (m : StatusMap) (t : Task) (ts : List Task) (o : Option Task)
        → visit m t ≡ o
        → Apart (map shape (t ∷ ts))
        → Tells m (t ∷ ts)
        → (Tells (note o m) ts
            → Tells (sweep visit (note o m) ts).statuses (sweep visit (note o m) ts).rows)
        → Tells
            (sweep visit (note o m) ts).statuses
            (replaced t o ∷ (sweep visit (note o m) ts).rows)
    head-Tells m t ts none e apart a rest =
        (subst (λ o. R o t) (sym (sweep-get t.task_id m ts apart.0)) a.0, rest a.1)
    head-Tells m t ts (some t') e apart a rest =
        let apart' =
          subst (λ k. All (λ u. (k == u.0) ≡ false) (map shape ts))
            (sym (ap (λ s. s.0) (keeps m t t' e))) apart.0 in
        (
          subst (λ o. R o t')
              (sym (
                sweep-get t'.task_id (put t'.task_id t'.status m) ts apart'
                ∙ rw (eq_refl t'.task_id) refl))
              (own t'),
          rest (Tells-put t'.task_id t'.status m ts apart' a.1),
        )

    sweep-Tells :
        (m : StatusMap) (rows : List Task)
        → Apart (map shape rows)
        → Tells m rows
        → Tells (sweep visit m rows).statuses (sweep visit m rows).rows
    unfolding sweep
    sweep-Tells m [] apart a = tt
    sweep-Tells m (t ∷ ts) apart a =
        head-Tells m t ts (visit m t) refl apart a (sweep-Tells (note (visit m t) m) ts apart.1)

    pub settle-shapes :
        (fuel : ℕ) (m : StatusMap) (rows : List Task)
        → map shape (settle fuel visit m rows).rows ≡ map shape rows
    unfolding settle
    settle-shapes zero m rows = refl
    settle-shapes (suc fuel) m rows =
        let s = sweep visit m rows in
        on s (settle fuel visit s.statuses s.rows) s.changed (sweep-shapes m rows)
          (settle-shapes fuel s.statuses s.rows)
      where
        on :
            (s rest : Swept) (c : List Task)
            → map shape s.rows ≡ map shape rows
            → map shape rest.rows ≡ map shape s.rows
            → map shape (proceed c s rest).rows ≡ map shape rows
        on s rest [] e f = e
        on s rest (c ∷ cs) e f = f ∙ e

    pub settle-Tells :
        (fuel : ℕ) (m : StatusMap) (rows : List Task)
        → Apart (map shape rows)
        → Tells m rows
        → Tells (settle fuel visit m rows).statuses (settle fuel visit m rows).rows
    unfolding settle
    settle-Tells zero m rows apart a = a
    settle-Tells (suc fuel) m rows apart a =
        let s = sweep visit m rows in
        let once = sweep-Tells m rows apart a in
        on s (settle fuel visit s.statuses s.rows) s.changed once
          (settle-Tells fuel s.statuses s.rows (subst Apart (sym (sweep-shapes m rows)) apart) once)
      where
        on :
            (s rest : Swept) (c : List Task)
            → Tells s.statuses s.rows
            → Tells rest.statuses rest.rows
            → Tells (proceed c s rest).statuses (proceed c s rest).rows
        on s rest [] a b = a
        on s rest (c ∷ cs) a b = b

module _ (job_id : String) where
  abbrev pub OfJob : Option TaskStatus → Task → Type 0
  OfJob o t = (t.job_id == job_id) ≡ true → o ≡ some t.status

  -- The map has the status of every row of the job.
  abbrev pub Agrees : StatusMap → List Task → Type 0
  Agrees = Tells OfJob

  pub status_by_id-Agrees :
      (rows : List Task) → Apart (map shape rows) → Agrees (status_by_id (rows_of job_id rows)) rows
  status_by_id-Agrees [] apart = tt
  status_by_id-Agrees (t ∷ ts) apart = elim (Bool-cases (t.job_id == job_id)) [
    | inl mine ↦
        let with_t : status_by_id (rows_of job_id (t ∷ ts))
            ≡ put t.task_id t.status (status_by_id (rows_of job_id ts)) =
          rw mine refl in
        subst (λ m. Agrees m (t ∷ ts)) (sym with_t)
          (
            (λ _. rw (eq_refl t.task_id) refl),
            Tells-put OfJob t.task_id t.status (status_by_id (rows_of job_id ts)) ts apart.0
                (status_by_id-Agrees ts apart.1),
          )
    | inr other ↦
        let without_t : status_by_id (rows_of job_id (t ∷ ts)) ≡ status_by_id (rows_of job_id ts) =
          rw other refl in
        subst (λ m. Agrees m (t ∷ ts)) (sym without_t)
          ((λ mine. absurd (false≢true (sym other ∙ mine))), status_by_id-Agrees ts apart.1)
  ]
