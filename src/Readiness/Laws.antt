-- ===== src/Readiness/Laws.antt =====
-- The precedence of `dependency_state`, and its agreement with `dependencies_ready`.
use Prim.Native.Nat.{max}
use scene_api.Base.{
  ℕ, ◌≤◌, String, ◌≡◌, refl, sym, ap, ◌∙◌, subst, ◌↔◌, inl, inr, Bool, true, not, ◌&&◌, ◌||◌,
  Option, none, some, List, [], ◌∷◌, arith, ◌==◌, eq_iff, eqb, if◌then◌else◌, eqb_iff, Bool-cases,
  is_none, contains, get,
}
use scene_api.Db.{TaskStatus}
use scene_api.Readiness.{
  dependencies_ready, in_ready, in_failed, is_cancelled, is_cancelled_dirty, DepState, StatusMap,
  dependency_state,
}

-- How bad the status of one upstream task is for the tasks that wait for it.
abbrev pub severity : Option TaskStatus → ℕ
severity none = 4
severity (some TaskStatus.failed) = 4
severity (some TaskStatus.cancelled_dirty) = 3
severity (some TaskStatus.cancelled) = 2
severity (some TaskStatus.pending) = 1
severity (some TaskStatus.running) = 1
severity (some TaskStatus.succeeded) = 0
severity (some TaskStatus.skipped) = 0

abbrev pub worst : List String → StatusMap → ℕ
worst [] m = 0
worst (d ∷ ds) m = max (severity (get d m)) (worst ds m)

abbrev pub rank : DepState → ℕ
rank DepState.ready = 0
rank DepState.blocked = 1
rank DepState.cancelled = 2
rank DepState.cancelled_dirty = 3
rank DepState.failed = 4

-- The choice that `dependency_state` makes from its five tests.
abbrev choice : Bool → Bool → Bool → Bool → Bool → DepState
choice missing failed dirty cancelled waiting =
    if missing
    then DepState.failed
    else if failed
    then DepState.failed
    else if dirty
    then DepState.cancelled_dirty
    else if cancelled
    then DepState.cancelled
    else if waiting
    then DepState.blocked
    else DepState.ready

-- One more dependency moves the choice to its own severity, if that is worse.
rank-choice :
    (o : Option TaskStatus) (a b c d e : Bool)
    → rank (
        choice
          (is_none o || a)
          (in_failed o || b)
          (is_cancelled_dirty o || c)
          (is_cancelled o || d)
          (not (in_ready o) || e))
      ≡ max (severity o) (rank (choice a b c d e))
unfolding in_failed in_ready
rank-choice none a b c d e = ground arith
rank-choice (some TaskStatus.pending) a b c d e = ground arith
rank-choice (some s) a b c d e = ground arith

-- The state of a task ranks with the worst status among its dependencies.
pub rank-dependency_state :
    (deps : List String) (m : StatusMap) → rank (dependency_state deps m) ≡ worst deps m
unfolding dependency_state
rank-dependency_state [] m = refl
rank-dependency_state (d ∷ ds) m =
    rank-choice (get d m) _ _ _ _ _ ∙ ap (max (severity (get d m))) (rank-dependency_state ds m)

-- No dependency is worse than the worst.
pub severity-worst :
    (d : String) (deps : List String) (m : StatusMap)
    → contains d deps ≡ true
    → severity (get d m) ≤ worst deps m
severity-worst d [] m h = absurd (ground (arith, h))
severity-worst d (e ∷ es) m h = elim (Bool-cases (e == d)) [
  | inl same ↦
      subst (λ x. severity (get x m) ≤ worst (e ∷ es) m) ((eq_iff e d).0 same) (omega arith)
  | inr other ↦ omega (arith, severity-worst d es m (rw other at h))
]

dependencies_ready-worst :
    (deps : List String) (m : StatusMap) → dependencies_ready deps m ≡ eqb (worst deps m) 0
unfolding dependencies_ready in_ready
dependencies_ready-worst [] m = refl
dependencies_ready-worst (d ∷ ds) m = go (get d m) (dependencies_ready-worst ds m)
  where
    go :
        (o : Option TaskStatus)
        → dependencies_ready ds m ≡ eqb (worst ds m) 0
        → (in_ready o && dependencies_ready ds m) ≡ eqb (max (severity o) (worst ds m)) 0
    go none ih = ground arith
    go (some TaskStatus.pending) ih = ground arith
    go (some s) ih = ground arith

rank_zero : (s : DepState) → rank s ≡ 0 → s ≡ DepState.ready
rank_zero DepState.ready h = refl
rank_zero s h = absurd (omega arith)

-- A task is classified as ready exactly when each of its dependencies has reached a reusable
-- status, so the two functions of the module agree.
pub dependency_state-ready :
    (deps : List String) (m : StatusMap)
    → (dependency_state deps m ≡ DepState.ready) ↔ (dependencies_ready deps m ≡ true)
dependency_state-ready deps m = (
  λ h.
      dependencies_ready-worst deps m
      ∙ (eqb_iff _ _).1 (sym (rank-dependency_state deps m) ∙ ap rank h),
  λ h.
      rank_zero _ (
        rank-dependency_state deps m ∙ (eqb_iff _ _).0 (sym (dependencies_ready-worst deps m) ∙ h)),
)
