-- ===== src/Upload/Sound.antt =====
-- What holds of every upload row and its file: the file holds the bytes counted, if it is not lost,
-- and a finalized upload has its content in the blob store.
use scene_api.Base.{
  ℕ, ◌<◌, String, ◌≡◌, refl, sym, ◌∙◌, ◌⊎◌, inl, inr, false, none, some, List, [], ◌∷◌, ◌==◌,
  eq_iff, Bool-cases, length, any, update_where, All, Dict, get,
}
use scene_api.Upload.{Upload, World, contents, UploadState}
use scene_api.Number.{less}

module _ (sha : List ℕ → String) where
  -- The file of an upload has nothing in it, or exactly the bytes counted.
  abbrev pub Holds : World → Upload → Type 0
  Holds w u =
      (length (contents (get u.upload_id w.temp)) ≡ 0)
      ⊎ (length (contents (get u.upload_id w.temp)) ≡ u.received_bytes)

  abbrev pub Fits : World → Upload → UploadState → Type 0
  Fits w u UploadState.opened = (u.received_bytes < u.expected_size) × Holds w u
  Fits w u UploadState.received =
      (u.received_bytes ≡ u.expected_size)
      × ((get u.upload_id w.temp ≡ none)
          ⊎ (length (contents (get u.upload_id w.temp)) ≡ u.received_bytes))
  Fits w u UploadState.finalized =
      (s : String) × (bytes : List ℕ) × (u.blob_sha ≡ some s)
      × (get s w.blobs ≡ some bytes)
      × (sha bytes ≡ s)

  abbrev pub AllFit : World → List Upload → Type 0
  AllFit w rows = All (λ u. Fits w u u.state) rows

  abbrev pub Addressed : Dict (List ℕ) → Type 0
  Addressed blobs = (s : String) (bytes : List ℕ) → get s blobs ≡ some bytes → sha bytes ≡ s

  -- The files of one upload changed, and blobs were added.
  pub record Touches (id : String) (w w' : World) : Type 0 where
    pub others : (k : String) → (k == id) ≡ false → get k w'.temp ≡ get k w.temp
    pub grows :
        (s : String) (bytes : List ℕ) → get s w.blobs ≡ some bytes → get s w'.blobs ≡ some bytes

  pub Fits-touched :
      (id : String) (w w' : World) (u : Upload) (s : UploadState)
      → Touches id w w'
      → (u.upload_id == id) ≡ false
      → Fits w u s
      → Fits w' u s
  Fits-touched id w w' u UploadState.opened t other (less, size) =
      (less, rw (t.others u.upload_id other) size)
  Fits-touched id w w' u UploadState.received t other (full, file) =
      (full, rw (t.others u.upload_id other) file)
  Fits-touched id w w' u UploadState.finalized t other (s, bytes, named, there, hashed) =
      (s, bytes, named, t.grows s bytes there, hashed)

  pub AllFit-save :
      (id : String) (w w' : World) (u : Upload) (rows : List Upload)
      → Touches id w w'
      → Fits w' u u.state
      → AllFit w rows
      → AllFit w' (update_where (λ v. v.upload_id == id) (λ _. u) rows)
  AllFit-save id w w' u [] t fit a = tt
  AllFit-save id w w' u (v ∷ vs) t fit a = elim (Bool-cases (v.upload_id == id)) [
    | inl same ↦ rw same (fit, AllFit-save id w w' u vs t fit a.1)
    | inr other ↦
        rw other (Fits-touched id w w' v v.state t other a.0, AllFit-save id w w' u vs t fit a.1)
  ]

  -- No two rows have the same id.
  abbrev pub Unique : List Upload → Type 0
  Unique [] = Unit
  Unique (u ∷ us) = (any (λ v. v.upload_id == u.upload_id) us ≡ false) × Unique us

  any-save :
      (id k : String) (u : Upload) (rows : List Upload)
      → u.upload_id ≡ id
      → any (λ v. v.upload_id == k) (update_where (λ v. v.upload_id == id) (λ _. u) rows)
        ≡ any (λ v. v.upload_id == k) rows
  any-save id k u [] e = refl
  any-save id k u (v ∷ vs) e = elim (Bool-cases (v.upload_id == id)) [
    | inl same ↦ rw (same, any-save id k u vs e, e, (eq_iff v.upload_id id).0 same)
    | inr other ↦ rw (other, any-save id k u vs e)
  ]

  pub Unique-save :
      (id : String) (u : Upload) (rows : List Upload)
      → u.upload_id ≡ id
      → Unique rows
      → Unique (update_where (λ v. v.upload_id == id) (λ _. u) rows)
  Unique-save id u [] e q = tt
  Unique-save id u (v ∷ vs) e q = elim (Bool-cases (v.upload_id == id)) [
    | inl same ↦ rw same (
      any-save id u.upload_id u vs e ∙ rw (e, sym ((eq_iff v.upload_id id).0 same)) q.0,
      Unique-save id u vs e q.1,
    )
    | inr other ↦ rw other (any-save id v.upload_id u vs e ∙ q.0, Unique-save id u vs e q.1)
  ]

  pub record IsSound (w : World) : Type 0 where
    pub fits : AllFit w w.rows.uploads
    pub unique : Unique w.rows.uploads
    pub addressed : Addressed w.blobs
