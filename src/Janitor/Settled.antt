-- ===== src/Janitor/Settled.antt =====
-- What the reclaim of expired leases does to each row.
use mathlib.Core.Option
use mathlib.Core.Option.{none-ne-some, some-injective}
use scene_api.Base.{
  ℕ, ◌≤◌, ◌<◌, String, ◌≡◌, refl, ap, ◌∙◌, ◌⊎◌, inl, inr, Bool, true, false, ◌&&◌, Option, none,
  some, List, [], ◌∷◌, map, arith, ◌==◌, eq_refl, ltb, if◌then◌else◌, Bool-cases, any, select,
  update_where, All,
}
use scene_api.Db.{Task, find_task, TaskStatus}
use scene_api.Janitor.{is_expired, reset_lease, reclaim_expired_leases}
use scene_api.Db.Rows.{find-update_where}

abbrev Names : List String → Task → Type 0
Names ids t = any (λ id. id == t.task_id) ids ≡ true

abbrev ids_of : List Task → List String
ids_of = map (λ t. t.task_id)

Names-select :
    (b : Bool) (t u : Task) (rest : List Task)
    → Names (ids_of rest) u
    → Names (ids_of (if b then t ∷ rest else rest)) u
Names-select true t u rest h = ground arith
Names-select false t u rest h = h

self_named : (t : Task) (rest : List Task) → Names (ids_of (t ∷ rest)) t
self_named t rest = ground (arith, eq_refl t.task_id)

selected_named :
    (p : Task → Bool) (ids : List String) (rows : List Task)
    → ((u : Task) → Names (ids_of (select p rows)) u → Names ids u)
    → All (λ t. p t ≡ true → Names ids t) rows
selected_named p ids [] within = tt
selected_named p ids (t ∷ ts) within = (
  λ chosen. within t (rw chosen (self_named t (select p ts))),
  selected_named p ids ts (λ u h. within u (Names-select (p t) t u (select p ts) h)),
)

update_named :
    (p : Task → Bool) (f : Task → Task) (ids : List String) (rows : List Task)
    → All (λ t. p t ≡ true → Names ids t) rows
    → update_where (λ t. p t && any (λ id. id == t.task_id) ids) f rows ≡ update_where p f rows
update_named p f ids [] a = refl
update_named p f ids (t ∷ ts) a = elim (Bool-cases (p t)) [
  | inl e ↦ rw (e, a.0 e, update_named p f ids ts a.1)
  | inr e ↦ rw (e, update_named p f ids ts a.1)
]

reclaim-eq :
    (now : ℕ) (rows : List Task)
    → (reclaim_expired_leases now rows).0 ≡ update_where (is_expired now) reset_lease rows
unfolding reclaim_expired_leases
reclaim-eq now rows =
    update_named (is_expired now) reset_lease _ rows
      (selected_named (is_expired now) _ rows (λ u h. h))

-- What the reclaim may do to a row: a running row whose lease ran out before `now` waits again,
-- without worker and lease; a row that does not run, has no lease or has a lease to `now` or later
-- is as it was.
abbrev pub Reclaimed : (now : ℕ) → Task → Task → Type 0
Reclaimed now t t' =
    ((e : ℕ) × (t.status ≡ TaskStatus.running)
      × (t.lease_expires_at ≡ some e)
      × (e < now)
      × (t' ≡ record t { status = TaskStatus.pending; worker_id = none; lease_expires_at = none }))
    ⊎ ((t' ≡ t) × ((e : ℕ) → t.status ≡ TaskStatus.running → t.lease_expires_at ≡ some e → now ≤ e))

expired-Reclaimed :
    (now : ℕ) (t : Task) → Reclaimed now t (if is_expired now t then reset_lease t else t)
unfolding is_expired
expired-Reclaimed now t = go t.status t.lease_expires_at refl refl
  where
    go :
        (s : TaskStatus) (l : Option ℕ)
        → t.status ≡ s
        → t.lease_expires_at ≡ l
        → Reclaimed now t (if is_expired now t then reset_lease t else t)
    go TaskStatus.running none running e =
        rw (running, e) (inr (refl, λ k _ h. absurd (none-ne-some k h)))
    go TaskStatus.running (some l) running e = elim (Bool-cases (ltb l now)) [
      | inl late ↦ rw (running, e, late) (inl (l, refl, refl, ground arith, refl))
      | inr live ↦
          rw (running, e, live) (inr (refl, λ k _ h. ground (arith, live, some-injective l k h)))
    ]
    go s l other e = rw other (inr (refl, λ k h _. absurd cc))

-- The reclaim of a table finds, under each id, the row that was there: pending without worker and
-- lease if it was running and its lease had run out before that time, and unchanged if not.
pub find-reclaim :
    (now : ℕ) (rows : List Task) (id : String) (t : Task)
    → find_task id rows ≡ some t
    → (t' : Task) × (find_task id (reclaim_expired_leases now rows).0 ≡ some t')
      × Reclaimed now t t'
find-reclaim now rows id t e = (
  if is_expired now t then reset_lease t else t,
  rw reclaim-eq (
      find-update_where (is_expired now) reset_lease (λ u. refl) id rows
      ∙ ap (Option.map (λ u. if is_expired now u then reset_lease u else u)) e),
  expired-Reclaimed now t,
)
