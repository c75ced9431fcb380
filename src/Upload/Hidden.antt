-- ===== src/Upload/Hidden.antt =====
-- The sweep of expired uploads removes nothing that a client can still see.
use scene_api.Base.{
  ℕ, String, ◌≡◌, refl, ap, ◌∙◌, subst, inl, inr, Bool, true, false, not, ◌&&◌, none, List, [], ◌∷◌,
  arith, ◌==◌, eq_iff, eq_refl, if◌then◌else◌, Bool-cases, any, select,
}
use scene_api.Upload.{
  Upload, World, is_finalized, past, find_upload, unexpired, get_upload, gc_expired_uploads,
  upload_expired,
}
use scene_api.Upload.Ends.{any-select}
use scene_api.Upload.Sound.{Unique}

abbrev expired : ℕ → Upload → Bool
expired now u = not (is_finalized u.state) && past u.expires_at now

abbrev named : List Upload → Upload → Bool
named gone u = any (λ v. v.upload_id == u.upload_id) gone

expired-upload_expired : (now : ℕ) (u : Upload) → expired now u ≡ true → upload_expired now u ≡ true
expired-upload_expired now u h = ground (arith, h)

named_tail :
    (u : Upload) (gone us : List Upload)
    → any (λ v. v.upload_id == u.upload_id) us ≡ false
    → select (λ x. not (named (u ∷ gone) x)) us ≡ select (λ x. not (named gone x)) us
named_tail u gone [] e = refl
named_tail u gone (v ∷ vs) e = elim (Bool-cases (v.upload_id == u.upload_id)) [
  | inl same ↦ absurd (ground (arith, same))
  | inr other ↦
      let apart : (u.upload_id == v.upload_id) ≡ false =
        ground (arith, other, eq_iff u.upload_id v.upload_id, eq_iff v.upload_id u.upload_id) in
      rw (apart, named_tail u gone vs (rw other at e))
]

module _ (sha : List ℕ → String) where
  -- With unique ids the DELETE by id takes the expired rows alone.
  kept-eq :
      (p : Upload → Bool) (rows : List Upload)
      → Unique sha rows
      → select (λ x. not (named (select p rows) x)) rows ≡ select (λ x. not (p x)) rows
  kept-eq p [] q = refl
  kept-eq p (u ∷ us) q = go (p u) (kept-eq p us q.1)
    where
      go :
          (b : Bool)
          → select (λ x. not (named (select p us) x)) us ≡ select (λ x. not (p x)) us
          → select (λ x. not (named (if b then u ∷ select p us else select p us) x)) (u ∷ us)
            ≡ (if not b then u ∷ select (λ x. not (p x)) us else select (λ x. not (p x)) us)
      go true ih = rw (eq_refl u.upload_id) (named_tail u (select p us) us q.0 ∙ ih)
      go false ih = rw (any-select p u.upload_id us q.0) (ap (λ (l : List Upload). u ∷ l) ih)

  find-absent :
      (tenant_id id : String) (p : Upload → Bool) (rows : List Upload)
      → any (λ v. v.upload_id == id) rows ≡ false
      → find_upload tenant_id id (select p rows) ≡ none
  find-absent tenant_id id p [] e = refl
  find-absent tenant_id id p (u ∷ us) e = elim (Bool-cases (p u)) [
    | inl keep ↦ rw keep (ground (arith, e, find-absent tenant_id id p us))
    | inr go ↦ rw go (find-absent tenant_id id p us (ground (arith, e)))
  ]

  unexpired-kept :
      (tenant_id id : String) (now : ℕ) (rows : List Upload)
      → Unique sha rows
      → unexpired now (find_upload tenant_id id (select (λ u. not (expired now u)) rows))
        ≡ unexpired now (find_upload tenant_id id rows)
  unexpired-kept tenant_id id now [] q = refl
  unexpired-kept tenant_id id now (u ∷ us) q = elim (Bool-cases (expired now u)) [
    | inr lives ↦ elim (Bool-cases (u.tenant_id == tenant_id && u.upload_id == id)) [
      | inl found ↦ rw (lives, found)
      | inr other ↦ rw (lives, other) (unexpired-kept tenant_id id now us q.1)
    ]
    | inl old ↦ elim (Bool-cases (u.tenant_id == tenant_id && u.upload_id == id)) [
      | inr other ↦ rw (old, other) (unexpired-kept tenant_id id now us q.1)
      | inl found ↦
          let same : u.upload_id ≡ id = ground (arith, found, eq_iff u.upload_id id) in
          rw (
            old,
            found,
            find-absent tenant_id id (λ v. not (expired now v)) us
                (subst (λ (x : String). any (λ v. v.upload_id == x) us ≡ false) same q.0),
            expired-upload_expired now u old,
          )
    ]
  ]

-- A client sees the same uploads before and after a sweep at that time: the same rows, and the
-- same answer for those that are not there. The ids of the rows are unique.
pub get_upload-gc :
    (sha : List ℕ → String) (tenant_id id : String) (now : ℕ) (w : World)
    → Unique sha w.rows.uploads
    → get_upload tenant_id id now (gc_expired_uploads now w).0.rows
      ≡ get_upload tenant_id id now w.rows
unfolding get_upload gc_expired_uploads
get_upload-gc sha tenant_id id now w q =
    rw (kept-eq sha (expired now) w.rows.uploads q)
      (unexpired-kept sha tenant_id id now w.rows.uploads q)
