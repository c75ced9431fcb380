-- ===== src/Lease/Laws.antt =====
-- A lease is held by one worker at a time, and a heartbeat extends its own worker's lease alone.
use scene_api.Base.{
  ℕ, ◌+◌, ◌≤◌, String, ◌≡◌, refl, Bool, true, false, List, [], ◌∷◌, arith, ◌==◌, eqb_iff, count,
  update_where,
}
use scene_api.Db.{Task}
use scene_api.Lease.{can_acquire, leased_by, lease_free, try_acquire_lease}

count-zero_update :
    (p : Task → Bool) (f : Task → Task) (rows : List Task)
    → count p rows ≡ 0
    → update_where p f rows ≡ rows
count-zero_update p f [] h = refl
count-zero_update p f (t ∷ ts) h = ground (arith, count-zero_update p f ts)

-- A table has at most one row with the id.
abbrev pub IsKey : String → List Task → Type 0
IsKey id rows = count (λ t. t.task_id == id) rows ≤ 1

module _ (id worker : String) (ttl read_at now now' : ℕ) where
  absent :
      (rows : List Task)
      → count (λ t. t.task_id == id) rows ≡ 0
      → count (can_acquire id now) rows ≡ 0
  unfolding can_acquire
  absent [] h = refl
  absent (t ∷ ts) h = ground (arith, absent ts)

  absent_later :
      (rows : List Task)
      → count (λ t. t.task_id == id) rows ≡ 0
      → count
          (can_acquire id now')
          (update_where (can_acquire id now) (leased_by worker (read_at + ttl)) rows)
        ≡ 0
  unfolding can_acquire
  absent_later [] h = refl
  absent_later (t ∷ ts) h = ground (arith, absent_later ts)

  none_left :
      (rows : List Task)
      → IsKey id rows
      → count (can_acquire id now) rows ≡ 1
      → now' ≤ read_at + ttl
      → count
          (can_acquire id now')
          (update_where (can_acquire id now) (leased_by worker (read_at + ttl)) rows)
        ≡ 0
  unfolding can_acquire lease_free
  none_left [] key won within = absurd (omega arith)
  none_left (t ∷ ts) key won within = ground (arith, absent_later ts, none_left ts, absent ts)

-- While a lease that was won has not run out, nobody wins it again: a second attempt, of whatever
-- worker, fails and changes no row.
pub try_acquire_exclusive :
    (id worker other : String) (ttl ttl' read_at read_at' now now' : ℕ) (rows : List Task)
    → IsKey id rows
    → (try_acquire_lease id worker ttl read_at now rows).1 ≡ true
    → now' ≤ read_at + ttl
    → try_acquire_lease id other ttl' read_at' now'
        (try_acquire_lease id worker ttl read_at now rows).0
      ≡ ((try_acquire_lease id worker ttl read_at now rows).0, false)
unfolding try_acquire_lease
try_acquire_exclusive id worker other ttl ttl' read_at read_at' now now' rows key won within =
    rw (none, count-zero_update _ (leased_by other (read_at' + ttl')) _ none)
  where
    none :
        count
          (can_acquire id now')
          (update_where (can_acquire id now) (leased_by worker (read_at + ttl)) rows)
        ≡ 0
    none = none_left id worker ttl read_at now now' rows key ((eqb_iff _ _).0 won) within
