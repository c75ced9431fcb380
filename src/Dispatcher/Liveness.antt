-- ===== src/Dispatcher/Liveness.antt =====
-- A job whose dependencies go backwards never waits for nothing.
use mathlib.Core.Bool.{false≢true}
use mathlib.Core.List.{Memᴰ, cons≢nil}
use scene_api.Base.{
  ℕ, suc, String, ◌≡◌, refl, sym, ap, ◌∙◌, subst, ◌≢◌, ◌⊎◌, inl, inr, Bool, true, false, not, ◌&&◌,
  Option, none, some, List, [], ◌∷◌, map, arith, ◌==◌, eq_iff, if◌then◌else◌, Bool-cases, length,
  any, All, contains, All-map, get,
}
use scene_api.Db.{TaskStatus, Task}
use scene_api.Readiness.{StatusMap, DepState, dependency_state, dependencies_ready}
use scene_api.Readiness.Laws.{severity, worst, rank, rank-dependency_state, dependency_state-ready}
use scene_api.Db.Terminal.{is_terminal}
use scene_api.Sweep.Agrees.{Shape, shape, Apart, Agrees, settle-shapes, OfJob}
use scene_api.Lease.{is_running, is_pending}
use scene_api.Dispatcher.{visit_job, mark_loop}
use scene_api.Dispatcher.Settled.{
  IsSettled, mark_loop-IsSettled, visit-KeepsShape, mark_loop-Agrees,
}
use scene_api.Sweep.{status_by_id}
use scene_api.JobService.{rows_of}

-- Each row of the job names rows of the job that come before it.
abbrev pub Backward : String → List String → List Shape → Type 0
Backward job_id earlier [] = Unit
Backward job_id earlier (s ∷ ss) =
    All (λ d. ((s.1 == job_id) && not (contains d earlier)) ≡ false) s.2
    × Backward job_id (if s.1 == job_id then s.0 ∷ earlier else earlier) ss

abbrev terminal_entry : Option TaskStatus → Bool
terminal_entry none = false
terminal_entry (some s) = is_terminal s

-- No status of a task that ended is one to wait for.
ended-severity : (o : Option TaskStatus) → terminal_entry o ≡ true → severity o ≢ 1
ended-severity none h e = absurd (false≢true h)
ended-severity (some TaskStatus.pending) h e = absurd (false≢true h)
ended-severity (some TaskStatus.running) h e = absurd (false≢true h)
ended-severity (some s) h e = omega (arith, e)

ended-worst :
    (deps : List String) (m : StatusMap)
    → All (λ d. terminal_entry (get d m) ≡ true) deps
    → worst deps m ≢ 1
ended-worst [] m a e = omega (arith, e)
ended-worst (d ∷ ds) m a e = omega (arith, e, ended-severity (get d m) a.0, ended-worst ds m a.1)

-- A task whose dependencies ended, and that is ready or blocked, is ready.
ended-ready :
    (deps : List String) (m : StatusMap)
    → All (λ d. terminal_entry (get d m) ≡ true) deps
    → (dependency_state deps m ≡ DepState.ready) ⊎ (dependency_state deps m ≡ DepState.blocked)
    → dependencies_ready deps m ≡ true
ended-ready deps m a (inl ready) = (dependency_state-ready deps m).0 ready
ended-ready deps m a (inr blocked) =
    absurd (ended-worst deps m a (sym (rank-dependency_state deps m) ∙ ap rank blocked))

ready-or_none :
    (deps : List String) (m : StatusMap)
    → All (λ d. terminal_entry (get d m) ≡ true) deps
    → (deps ≢ []
        → (dependency_state deps m ≡ DepState.ready) ⊎ (dependency_state deps m ≡ DepState.blocked))
    → dependencies_ready deps m ≡ true
unfolding dependencies_ready
ready-or_none [] m a settled = refl
ready-or_none (d ∷ ds) m a settled = ended-ready (d ∷ ds) m a (settled cons≢nil)

module _ (job_id : String) (m : StatusMap) where
  -- No row of the job is pending, or one is running, or one is pending and can be taken up.
  abbrev pub Moves : List Task → Type 0
  Moves rows =
      (any (λ t. t.job_id == job_id && is_pending t.status) rows ≡ false)
      ⊎ (any (λ t. t.job_id == job_id && is_running t.status) rows ≡ true)
      ⊎ ((t : Task) × Memᴰ t rows
          × (t.job_id ≡ job_id)
          × (is_pending t.status ≡ true)
          × (dependencies_ready t.depends_on m ≡ true))

  abbrev Ended : List String → Type 0
  Ended earlier = All (λ k. terminal_entry (get k m) ≡ true) earlier

  Ended-contains :
      (d : String) (earlier : List String)
      → Ended earlier
      → contains d earlier ≡ true
      → terminal_entry (get d m) ≡ true
  Ended-contains d [] a h = absurd (false≢true h)
  Ended-contains d (k ∷ ks) a h = elim (Bool-cases (k == d)) [
    | inl same ↦ subst (λ z. terminal_entry (get z m) ≡ true) ((eq_iff k d).0 same) a.0
    | inr other ↦ Ended-contains d ks a.1 (ground (arith, other, h))
  ]

  deps-Ended :
      (mine : Bool) (earlier deps : List String)
      → mine ≡ true
      → Ended earlier
      → All (λ d. (mine && not (contains d earlier)) ≡ false) deps
      → All (λ d. terminal_entry (get d m) ≡ true) deps
  deps-Ended mine earlier deps own a back =
      All-map _ _ deps (λ d h. Ended-contains d earlier a (ground (arith, own, h))) back

  later-Moves :
      (t : Task) (ts : List Task)
      → (t.job_id == job_id && is_pending t.status) ≡ false
      → Moves ts
      → Moves (t ∷ ts)
  later-Moves t ts passed (inl none_pending) = inl (ground (arith, passed, none_pending))
  later-Moves t ts passed (inr (inl running)) = inr (inl (ground (arith, running)))
  later-Moves t ts passed (inr (inr (u, there, same, waits, ready))) =
      inr (inr (u, Memᴰ.tail there, same, waits, ready))

  status-cases :
      (s : TaskStatus) → (is_pending s ≡ true) ⊎ (is_running s ≡ true) ⊎ (is_terminal s ≡ true)
  status-cases TaskStatus.pending = inl refl
  status-cases TaskStatus.running = inr (inl refl)
  status-cases s = inr (inr refl)

  moves :
      (rows : List Task) (earlier : List String)
      → Backward job_id earlier (map shape rows)
      → Ended earlier
      → Agrees job_id m rows
      → All (IsSettled job_id m) rows
      → Moves rows
  moves [] earlier back ended agree settled = inl refl
  moves (t ∷ ts) earlier back ended agree settled = elim (Bool-cases (t.job_id == job_id)) [
    | inr other ↦
        later-Moves t ts (ground (arith, other))
          (moves ts earlier (rw other at back.1) ended agree.1 settled.1)
    | inl mine ↦ elim (status-cases t.status) [
      | inl waits ↦
          let own = (eq_iff t.job_id job_id).0 mine in
          inr (
            inr (
              t,
              Memᴰ.head refl,
              own,
              waits,
              ready-or_none t.depends_on m
                  (deps-Ended (t.job_id == job_id) earlier t.depends_on mine ended back.0)
                  (settled.0 own waits),
            ))
      | inr (inl running) ↦ inr (inl (ground (arith, mine, running)))
      | inr (inr done) ↦ later-Moves t ts (not-waiting t done) (
          moves ts (t.task_id ∷ earlier) (rw mine at back.1)
            (ap terminal_entry (agree.0 mine) ∙ done, ended) agree.1 settled.1)
    ]
  ]
    where
      not-waiting :
          (t : Task)
          → is_terminal t.status ≡ true
          → (t.job_id == job_id && is_pending t.status) ≡ false
      not-waiting t done = ground arith

-- The loop after a terminal task leaves the job able to go on: if no two rows have one id and each
-- row of the job names only earlier rows of the job, then at its end no row of the job is pending,
-- or one is running, or one is pending with every dependency succeeded or skipped.
pub mark_loop-Moves :
    (job_id : String) (now : ℕ) (rows : List Task)
    → Apart (map shape rows)
    → Backward job_id [] (map shape rows)
    → Moves job_id (mark_loop job_id now rows).statuses (mark_loop job_id now rows).rows
unfolding mark_loop
mark_loop-Moves job_id now rows apart back =
    moves job_id (mark_loop job_id now rows).statuses (mark_loop job_id now rows).rows []
      (subst (Backward job_id [])
        (sym (
          settle-shapes (OfJob job_id) (λ t _. refl) (visit_job job_id now)
            (visit-KeepsShape job_id now) (suc (length rows)) (status_by_id (rows_of job_id rows))
            rows))
        back)
      tt (mark_loop-Agrees job_id now rows apart) (mark_loop-IsSettled job_id now rows)
