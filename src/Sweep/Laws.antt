-- ===== src/Sweep/Laws.antt =====
-- The loop ends by its test, at rows that the body no longer changes, and it changes each row by
-- steps of the body alone.
use mathlib.Core.List.{cons≢nil}
use scene_api.Base.{
  ℕ, zero, suc, ◌+◌, ◌<◌, ◌≡◌, refl, sym, ap, ◌∙◌, ◌≢◌, inl, inr, true, false, none, some, List, [],
  ◌∷◌, arith, Option-cases, length, count, All, Zip,
}
use scene_api.Db.{Task}
use scene_api.Readiness.{StatusMap}
use scene_api.Lease.{is_pending}
use scene_api.Sweep.{proceed, Visit, Swept, note, sweep, settle}

-- The body changes pending rows only, and leaves them in another status.
abbrev pub Settles : Visit → Type 0
Settles visit =
    (m : StatusMap) (t t' : Task)
    → visit m t ≡ some t'
    → (is_pending t.status ≡ true) × (is_pending t'.status ≡ false)

abbrev pub pending_rows : List Task → ℕ
pending_rows = count (λ t. is_pending t.status)

-- A round that changes nothing leaves the map, and the body changes no row under that map.
abbrev Quiet : Visit → StatusMap → List Task → Type 0
Quiet visit m rows = All (λ t. visit m t ≡ none) rows

length_pos : (l : List Task) → l ≢ [] → 0 < length l
length_pos [] h = absurd (h refl)
length_pos (x ∷ xs) h = omega arith

module _ (visit : Visit) where
  sweep-Quiet :
      (m : StatusMap) (rows : List Task)
      → (sweep visit m rows).changed ≡ []
      → ((sweep visit m rows).statuses ≡ m)
        × ((sweep visit m rows).rows ≡ rows)
        × Quiet visit m rows
  unfolding sweep
  sweep-Quiet m [] h = (refl, refl, tt)
  sweep-Quiet m (t ∷ ts) h = elim (Option-cases (visit m t)) [
    | inl e ↦
        let (same_map, same_rows, quiet) = sweep-Quiet m ts (rw e at h) in
        rw e (same_map, ap (λ (l : List Task). t ∷ l) same_rows, (refl, quiet))
    | inr (t', e) ↦ absurd (cons≢nil (rw e at h))
  ]

  -- A round takes as many rows out of the pending ones as it changes.
  sweep_pending :
      Settles visit
      → (m : StatusMap) (rows : List Task)
      → pending_rows (sweep visit m rows).rows + length (sweep visit m rows).changed
        ≡ pending_rows rows
  unfolding sweep
  sweep_pending fine m [] = refl
  sweep_pending fine m (t ∷ ts) = elim (Option-cases (visit m t)) [
    | inl e ↦ rw e (ground (arith, sweep_pending fine m ts))
    | inr (t', e) ↦
        let (before, after) = fine m t t' e in
        rw (e, before, after) (omega (arith, sweep_pending fine (note (some t') m) ts))
  ]

  settled :
      (cs : List Task) (s rest : Swept)
      → s.changed ≡ cs
      → (s.changed ≡ [] → Quiet visit s.statuses s.rows)
      → (s.changed ≢ [] → Quiet visit rest.statuses rest.rows)
      → Quiet visit (proceed cs s rest).statuses (proceed cs s rest).rows
  settled [] s rest e stop go = stop e
  settled (c ∷ cs) s rest e stop go = go (λ none_left. cons≢nil (sym e ∙ none_left))

  -- With more fuel than pending rows the loop ends by its test.
  pub settle-Quiet :
      Settles visit
      → (fuel : ℕ) (m : StatusMap) (rows : List Task) → pending_rows rows < fuel
      → Quiet visit (settle fuel visit m rows).statuses (settle fuel visit m rows).rows
  unfolding settle
  settle-Quiet fine zero m rows h = absurd (omega arith)
  settle-Quiet fine (suc fuel) m rows h =
      settled (sweep visit m rows).changed (sweep visit m rows) _ refl
        (λ e.
          let (same_map, same_rows, quiet) = sweep-Quiet m rows e in rw (same_map, same_rows) quiet)
        (λ some_changed.
          settle-Quiet fine fuel (sweep visit m rows).statuses (sweep visit m rows).rows
            (omega (arith, sweep_pending fine m rows, length_pos _ some_changed)))

  module _ (R : Task → Task → Type 0) (same : (t : Task) → R t t)
      (step : (m : StatusMap) (t t' : Task) → visit m t ≡ some t' → R t t') where
    sweep-Zip : (m : StatusMap) (rows : List Task) → Zip R rows (sweep visit m rows).rows
    unfolding sweep
    sweep-Zip m [] = tt
    sweep-Zip m (t ∷ ts) = elim (Option-cases (visit m t)) [
      | inl e ↦ rw e (same t, sweep-Zip m ts)
      | inr (t', e) ↦ rw e (step m t t' e, sweep-Zip (note (some t') m) ts)
    ]

    Zip-same : (rows : List Task) → Zip R rows rows
    Zip-same [] = tt
    Zip-same (t ∷ ts) = (same t, Zip-same ts)

    module _ (trans : (a b c : Task) → R a b → R b c → R a c) where
      Zip-trans : (xs ys zs : List Task) → Zip R xs ys → Zip R ys zs → Zip R xs zs
      Zip-trans [] [] [] p q = tt
      Zip-trans [] [] (z ∷ zs) p q = q
      Zip-trans [] (y ∷ ys) zs p q = absurd p
      Zip-trans (x ∷ xs) [] zs p q = absurd p
      Zip-trans (x ∷ xs) (y ∷ ys) [] p q = q
      Zip-trans (x ∷ xs) (y ∷ ys) (z ∷ zs) p q = (trans x y z p.0 q.0, Zip-trans xs ys zs p.1 q.1)

      proceed-Zip :
          (rows cs : List Task) (s rest : Swept)
          → Zip R rows s.rows
          → Zip R rows rest.rows
          → Zip R rows (proceed cs s rest).rows
      proceed-Zip rows [] s rest p q = p
      proceed-Zip rows (c ∷ cs) s rest p q = q

      -- What every step of the body does to a row, and its closure, the loop does to each row.
      pub settle-Zip :
          (fuel : ℕ) (m : StatusMap) (rows : List Task) → Zip R rows (settle fuel visit m rows).rows
      unfolding settle
      settle-Zip zero m rows = Zip-same rows
      settle-Zip (suc fuel) m rows =
          proceed-Zip rows (sweep visit m rows).changed _ _ (sweep-Zip m rows)
            (Zip-trans _ _ _ (sweep-Zip m rows) (settle-Zip fuel _ _))
