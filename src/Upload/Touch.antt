-- ===== src/Upload/Touch.antt =====
-- One row and its file change: what is left of `IsSound`.
use mathlib.Core.List.Memᴰ
use mathlib.Core.List.{Memᴰ}
use mathlib.Core.Bool.{false≢true}
use mathlib.Core.Option.{some-injective, none-ne-some}
use scene_api.Base.{
  ℕ, ◌+◌, ◌≤◌, String, ◌≡◌, refl, sym, ap, ◌∙◌, subst, inl, inr, true, false, ◌&&◌, some, List, [],
  ◌∷◌, ◌++◌, arith, ◌==◌, eq_iff, eq_refl, eqb, eqb_iff, Bool-cases, length, any, update_where,
  any-of, Dict, get, put, drop,
}
use scene_api.Upload.{
  Upload, World, find_upload, save_upload, counted, UploadState, is_open, contents,
}
use scene_api.Upload.Sound.{
  IsSound, Fits, AllFit, Addressed, AllFit-save, Unique, Unique-save, Touches,
}

pub get-put_ne {ℓ} :
    {V : Type ℓ} (j k : String) (v : V) (d : Dict V)
    → (k == j) ≡ false
    → get k (put j v d) ≡ get k d
get-put_ne j k v d e = ground (arith, eq_iff k j, eq_iff j k)

pub get-put_self {ℓ} : {V : Type ℓ} (k : String) (v : V) (d : Dict V) → get k (put k v d) ≡ some v
get-put_self k v d = rw (eq_refl k)

pub get-drop_ne {ℓ} :
    {V : Type ℓ} (j k : String) (d : Dict V) → (k == j) ≡ false → get k (drop j d) ≡ get k d
get-drop_ne j k [] e = refl
get-drop_ne j k ((i, v) ∷ d) e =
    ground (arith, eq_iff k j, eq_iff i j, eq_iff i k, get-drop_ne j k d)

length-append {ℓ} : {A : Type ℓ} (xs ys : List A) → length (xs ++ ys) ≡ length xs + length ys
length-append [] ys = omega arith
length-append (x ∷ xs) ys = ground (arith, length-append xs ys)

-- The row that `get_upload` returns is in the table, under the id.
pub find_upload-Memᴰ :
    (tenant_id upload_id : String) (rows : List Upload) (u : Upload)
    → find_upload tenant_id upload_id rows ≡ some u
    → Memᴰ u rows × (u.upload_id ≡ upload_id)
find_upload-Memᴰ tenant_id upload_id [] u e = absurd (none-ne-some u e)
find_upload-Memᴰ tenant_id upload_id (v ∷ vs) u e =
    elim (Bool-cases (v.tenant_id == tenant_id && v.upload_id == upload_id)) [
      | inl same ↦
          let v_is_u = some-injective v u (rw same at e) in
          (
            Memᴰ.head (sym v_is_u),
            sym (ap (λ (x : Upload). x.upload_id) v_is_u)
                ∙ ground (arith, eq_iff v.upload_id upload_id),
          )
      | inr other ↦
          let (m, id) = find_upload-Memᴰ tenant_id upload_id vs u (rw other at e) in
          (Memᴰ.tail m, id)
    ]

pub is_open-opened : (s : UploadState) → is_open s ≡ true → s ≡ UploadState.opened
is_open-opened UploadState.opened h = refl
is_open-opened s h = absurd (ground (arith, h))

module _ (sha : List ℕ → String) where
  -- One row saved, over files that changed for it alone.
  pub save-IsSound :
      (w w' : World) (u : Upload)
      → w'.rows.uploads ≡ w.rows.uploads
      → Touches sha u.upload_id w w'
      → Addressed sha w'.blobs
      → Fits sha w' u u.state
      → IsSound sha w
      → IsSound sha (save_upload u w')
  save-IsSound w w' u same t addressed fit sound = record {
    fits =
        subst
          (λ (rows : List Upload).
            AllFit sha w' (update_where (λ v. v.upload_id == u.upload_id) (λ _. u) rows))
          (sym same) (AllFit-save sha u.upload_id w w' u w.rows.uploads t fit sound.fits);
    unique = rw same (Unique-save sha u.upload_id u w.rows.uploads refl sound.unique);
    addressed = addressed;
  }

  save_absent :
      (id : String) (u : Upload) (rows : List Upload)
      → any (λ v. v.upload_id == id) rows ≡ false
      → update_where (λ v. v.upload_id == id) (λ _. u) rows ≡ rows
  save_absent id u [] e = refl
  save_absent id u (v ∷ vs) e = elim (Bool-cases (v.upload_id == id)) [
    | inl same ↦ absurd (ground (arith, same))
    | inr other ↦ rw (other, save_absent id u vs (rw other at e))
  ]

  -- The row written back as it is.
  save_itself :
      (rows : List Upload) (u : Upload)
      → Memᴰ u rows
      → Unique sha rows
      → update_where (λ v. v.upload_id == u.upload_id) (λ _. u) rows ≡ rows
  save_itself [] u m q = absurd (Memᴰ.not-nil m)
  save_itself (v ∷ vs) u (Memᴰ.head e) q =
      subst
        (λ (x : Upload). update_where (λ y. y.upload_id == x.upload_id) (λ _. x) (v ∷ vs) ≡ v ∷ vs)
        (sym e) (rw (eq_refl v.upload_id, save_absent v.upload_id v vs q.0))
  save_itself (v ∷ vs) u (Memᴰ.tail m) q = elim (Bool-cases (v.upload_id == u.upload_id)) [
    | inl same ↦ absurd (
        false≢true (
          sym q.0
          ∙ any-of (λ x. x.upload_id == v.upload_id) u vs m
              (rw (sym ((eq_iff v.upload_id u.upload_id).0 same)) (eq_refl v.upload_id))))
    | inr other ↦ rw (other, save_itself vs u m q.1)
  ]

  -- The files changed for one row, which still fits them.
  pub touch-IsSound :
      (w w' : World) (u : Upload)
      → w'.rows.uploads ≡ w.rows.uploads
      → Memᴰ u w.rows.uploads
      → Touches sha u.upload_id w w'
      → Addressed sha w'.blobs
      → Fits sha w' u u.state
      → IsSound sha w
      → IsSound sha w'
  touch-IsSound w w' u same m t addressed fit sound = record {
    fits =
        subst (AllFit sha w') (save_itself w.rows.uploads u m sound.unique ∙ sym same)
          (AllFit-save sha u.upload_id w w' u w.rows.uploads t fit sound.fits);
    unique = rw same sound.unique;
    addressed = addressed;
  }

  pub put_temp-Touches :
      (id : String) (bytes : List ℕ) (w : World)
      → Touches sha id w (record w { temp = put id bytes w.temp })
  put_temp-Touches id bytes w = record {
    others = λ k other. get-put_ne id k bytes w.temp other;
    grows = λ s b e. e;
  }

  -- A chunk of an upload that is open, in order and within its size.
  pub counted-Fits :
      (n : ℕ) (u : Upload) (bytes chunk : List ℕ) (w : World)
      → u.state ≡ UploadState.opened
      → length bytes ≡ u.received_bytes
      → n ≡ length chunk
      → u.received_bytes + n ≤ u.expected_size
      → Fits sha
          (record w { temp = put u.upload_id (bytes ++ chunk) w.temp })
          (counted n u)
          (counted n u).state
  counted-Fits n u bytes chunk w opened size e within =
      elim (Bool-cases (eqb (u.received_bytes + n) u.expected_size)) [
        | inl full ↦
            rw (full, eq_refl u.upload_id, length-append)
              ((eqb_iff _ _).0 full, inr (omega (arith, size, e)))
        | inr part ↦
            rw (part, opened, eq_refl u.upload_id, length-append)
              (ground (arith, within, part), inr (omega (arith, size, e)))
      ]

  -- A refused chunk leaves the file as it was, or an empty one where there was none.
  pub opened_file-Fits :
      (u : Upload) (w : World)
      → u.state ≡ UploadState.opened
      → Fits sha w u u.state
      → Fits sha
          (record w { temp = put u.upload_id (contents (get u.upload_id w.temp)) w.temp })
          u
          u.state
  opened_file-Fits u w opened fit =
      let fit' : Fits sha w u UploadState.opened = subst (Fits sha w u) opened fit in
      rw (opened, eq_refl u.upload_id) fit'
