-- ===== src/Janitor/Propagated.antt =====
-- Where the janitor's propagation of terminal statuses ends.
use mathlib.Core.Bool.{false≢true}
use mathlib.Core.List.{Memᴰ}
use mathlib.Core.Option.{none-ne-some, some-injective}
use scene_api.Base.{
  ℕ, suc, ◌≤◌, String, ◌≡◌, refl, sym, ap, ◌∙◌, subst, ◌⊎◌, inl, inr, Bool, true, false, Option,
  none, some, List, [], ◌∷◌, map, arith, ◌==◌, eq_iff, eq_refl, Bool-cases, length, select, All,
  contains, All-map, All-Memᴰ, get, put,
}
use scene_api.Db.{Task, TaskStatus}
use scene_api.Janitor.{visit_pending, propagate_loop, is_pending_entry, statuses_for_pending}
use scene_api.Sweep.Agrees.{Apart, shape, Tells, Tells-put, settle-Tells, KeepsShape}
use scene_api.Dispatcher.Settled.{Harmless, mild-Harmless, settled-mild, pending-le_length}
use scene_api.Sweep.{status_by_id}
use scene_api.Readiness.{dependency_state, DepState, StatusMap}
use scene_api.Lease.{is_pending}
use scene_api.Sweep.Laws.{settle-Quiet, Settles}
use scene_api.Readiness.Laws.{severity-worst, severity}

visit-Settles : (now : ℕ) → Settles (visit_pending now)
unfolding visit_pending
visit-Settles now m t t' e = ground arith

visit-KeepsShape : (now : ℕ) → KeepsShape (visit_pending now)
unfolding visit_pending
visit-KeepsShape now m t t' e = ground arith

abbrev IsSettled : StatusMap → Task → Type 0
IsSettled m t =
    is_pending t.status ≡ true
    → is_pending_entry (get t.task_id m) ≡ true
    → (dependency_state t.depends_on m ≡ DepState.ready)
      ⊎ (dependency_state t.depends_on m ≡ DepState.blocked)

quiet-IsSettled :
    (now : ℕ) (m : StatusMap) (t : Task) → visit_pending now m t ≡ none → IsSettled m t
unfolding visit_pending
quiet-IsSettled now m t e waits entry = ground arith

propagate_loop-IsSettled :
    (now : ℕ) (rows : List Task)
    → All (IsSettled (propagate_loop now rows).statuses) (propagate_loop now rows).rows
unfolding propagate_loop
propagate_loop-IsSettled now rows = All-map _ _ _ (quiet-IsSettled now _) (
    settle-Quiet (visit_pending now) (visit-Settles now) (suc (length rows)) _ rows
      (omega (arith, pending-le_length rows)))

-- An entry for a row is the row's status, and a row that is pending has one.
abbrev Told : Option TaskStatus → Task → Type 0
Told o t =
    ((s : TaskStatus) → o ≡ some s → s ≡ t.status)
    × (is_pending t.status ≡ true → o ≡ some t.status)

own-Told : (t : Task) → Told (some t.status) t
own-Told t = (λ s e. sym (some-injective t.status s e), λ waits. refl)

module _ (p : Task → Bool) where
  get-absent :
      (k : String) (rows : List Task)
      → All (λ u. (k == u.0) ≡ false) (map shape rows)
      → get k (status_by_id (select p rows)) ≡ none
  get-absent k [] apart = refl
  get-absent k (t ∷ ts) apart = elim (Bool-cases (p t)) [
    | inl chosen ↦
        let other : (t.task_id == k) ≡ false =
          ground (arith, apart.0, eq_iff k t.task_id, eq_iff t.task_id k) in
        rw (chosen, other) (get-absent k ts apart.1)
    | inr left ↦ rw left (get-absent k ts apart.1)
  ]

  status_by_id-Told :
      (rows : List Task)
      → ((t : Task) → is_pending t.status ≡ true → p t ≡ true)
      → Apart (map shape rows)
      → Tells Told (status_by_id (select p rows)) rows
  status_by_id-Told [] within apart = tt
  status_by_id-Told (t ∷ ts) within apart = elim (Bool-cases (p t)) [
    | inl chosen ↦
        let with_t : status_by_id (select p (t ∷ ts))
            ≡ put t.task_id t.status (status_by_id (select p ts)) =
          rw chosen refl in
        subst (λ m. Tells Told m (t ∷ ts)) (sym with_t)
          (
            rw (eq_refl t.task_id) (own-Told t),
            Tells-put Told t.task_id t.status (status_by_id (select p ts)) ts apart.0
                (status_by_id-Told ts within apart.1),
          )
    | inr left ↦
        let without_t : status_by_id (select p (t ∷ ts)) ≡ status_by_id (select p ts) =
          rw left refl in
        subst (λ m. Tells Told m (t ∷ ts)) (sym without_t)
          (
            subst (λ o. Told o t) (sym (get-absent t.task_id ts apart.0))
                (
                  (λ s e. absurd (none-ne-some s e)),
                  (λ waits. absurd (false≢true (sym left ∙ within t waits))),
                ),
            status_by_id-Told ts within apart.1,
          )
  ]

propagate_loop-Told :
    (now : ℕ) (rows : List Task)
    → Apart (map shape rows)
    → Tells Told (propagate_loop now rows).statuses (propagate_loop now rows).rows
unfolding propagate_loop statuses_for_pending
propagate_loop-Told now rows apart =
    settle-Tells Told own-Told (visit_pending now) (visit-KeepsShape now) (suc (length rows))
      (statuses_for_pending rows) rows apart
      (status_by_id-Told _ rows (λ t waits. ground arith) apart)

entry-Harmless : (o : Option TaskStatus) (u : Task) → severity o ≤ 1 → Told o u → Harmless u.status
entry-Harmless none u h told = absurd (omega (arith, h))
entry-Harmless (some s) u h told = subst Harmless (told.0 s refl) (mild-Harmless s h)

-- The propagation ends with no failure or cancellation left to pass on: in the table that it leaves,
-- no pending row of any job depends on a row that is failed, cancelled or cancelled_dirty, however
-- long the chain, if no two rows have one id.
pub propagate_loop_settled :
    (now : ℕ) (rows : List Task) (t upstream : Task)
    → Apart (map shape rows)
    → Memᴰ t (propagate_loop now rows).rows
    → is_pending t.status ≡ true
    → Memᴰ upstream (propagate_loop now rows).rows
    → contains upstream.task_id t.depends_on ≡ true
    → Harmless upstream.status
propagate_loop_settled now rows t upstream apart there waits there' named =
    let m = (propagate_loop now rows).statuses in
    let told = propagate_loop-Told now rows apart in
    let entry = (All-Memᴰ (λ u. Told (get u.task_id m) u) _ t told there).1 waits in
    let settled =
      All-Memᴰ (IsSettled m) _ t (propagate_loop-IsSettled now rows) there waits
        (ap is_pending_entry entry ∙ waits) in
    entry-Harmless (get upstream.task_id m) upstream
      (omega (
        arith,
        severity-worst upstream.task_id t.depends_on m named,
        settled-mild t.depends_on m settled,
      ))
      (All-Memᴰ (λ u. Told (get u.task_id m) u) _ upstream told there')
