-- ===== src/Upload/Starts.antt =====
-- Opening an upload keeps what `IsSound` says.
use scene_api.Base.{
  ℕ, ◌<◌, String, ◌≡◌, refl, sym, ◌∙◌, subst, inl, inr, Bool, true, false, not, ◌&&◌, Option, none,
  some, List, [], ◌∷◌, ◌++◌, arith, ◌==◌, eq_iff, eqb, Bool-cases, any, select, first, Dict, get,
  drop,
}
use scene_api.Upload.{
  Upload, World, upload_expired, discard_all, gc_expired_uploads, UploadState, is_finalized, past,
  Tables, TenantQuota,
}
use scene_api.Upload.Requests.{opening, check_storage, has_key, initializing, init_upload, creating}
use scene_api.Upload.Touch.{get-drop_ne}
use scene_api.Upload.Sound.{Fits, IsSound, Unique, AllFit}
use scene_api.Upload.Rejected.{get-drop}
use scene_api.Upload.Ends.{gc-IsSound, any-select, any-append}

module _ (sha : List ℕ → String) where
  -- What is stored under an id that no upload has.
  abbrev pub IsNew : String → World → Type 0
  IsNew id w = (any (λ v. v.upload_id == id) w.rows.uploads ≡ false) × (get id w.temp ≡ none)

  AllFit-append :
      (w : World) (rows : List Upload) (u : Upload)
      → AllFit sha w rows
      → Fits sha w u u.state
      → AllFit sha w (rows ++ u ∷ [])
  AllFit-append w [] u a fit = (fit, tt)
  AllFit-append w (v ∷ vs) u a fit = (a.0, AllFit-append w vs u a.1 fit)

  Unique-append :
      (rows : List Upload) (u : Upload)
      → Unique sha rows
      → any (λ v. v.upload_id == u.upload_id) rows ≡ false
      → Unique sha (rows ++ u ∷ [])
  Unique-append [] u q e = (refl, tt)
  Unique-append (v ∷ vs) u q e = (
    any-append v.upload_id vs u q.0
        (ground (arith, e, eq_iff u.upload_id v.upload_id, eq_iff v.upload_id u.upload_id)),
    Unique-append vs u q.1 (ground (arith, e)),
  )

  get-discard_none :
      (k : String) (us : List Upload) (temp : Dict (List ℕ))
      → get k temp ≡ none
      → get k (discard_all us temp) ≡ none
  get-discard_none k [] temp e = e
  get-discard_none k (u ∷ us) temp e =
      get-discard_none k us (drop u.upload_id temp) (elim (Bool-cases (k == u.upload_id)) [
        | inl same ↦
            subst (λ (x : String). get x (drop u.upload_id temp) ≡ none)
              (sym ((eq_iff k u.upload_id).0 same)) (get-drop u.upload_id temp)
        | inr other ↦ get-drop_ne u.upload_id k temp other ∙ e
      ])

  gc-IsNew :
      (id : String) (now : ℕ) (w : World) → IsNew id w → IsNew id (gc_expired_uploads now w).0
  unfolding gc_expired_uploads
  gc-IsNew id now w (free, empty) = (
    any-select _ id w.rows.uploads free,
    get-discard_none id
        (select (λ u. not (is_finalized u.state) && past u.expires_at now) w.rows.uploads) w.temp
        empty,
  )

  abbrev opening_world : Upload → World → World
  opening_world u w = record w { rows = record w.rows { uploads = w.rows.uploads ++ u ∷ [] } }

  opening-IsSound :
      (u : Upload) (w : World)
      → u.state ≡ UploadState.opened
      → u.received_bytes ≡ 0
      → 0 < u.expected_size
      → IsNew u.upload_id w
      → IsSound sha w
      → IsSound sha (opening u w).0
  opening-IsSound u w opened zero_bytes some_size (free, empty) sound =
      elim (Bool-cases (any (has_key u.tenant_id u.idempotency_key) w.rows.uploads)) [
        | inl taken ↦ rw taken sound
        | inr untaken ↦ rw untaken (record {
          fits =
              AllFit-append (opening_world u w) w.rows.uploads u sound.fits
                (rw opened (rw zero_bytes some_size, inl (rw empty refl)));
          unique = Unique-append w.rows.uploads u sound.unique free;
          addressed = sound.addressed;
        })
      ]

  initializing-IsSound :
      (existing : Option Upload) (u : Upload) (now : ℕ) (w : World)
      → u.state ≡ UploadState.opened
      → u.received_bytes ≡ 0
      → 0 < u.expected_size
      → IsNew u.upload_id w
      → IsSound sha w
      → IsSound sha (initializing existing u now w).0
  initializing-IsSound (some old) u now w opened zero_bytes some_size new sound =
      elim (Bool-cases (upload_expired now old)) [
        | inl past_it ↦ rw past_it sound
        | inr lives ↦ rw lives sound
      ]
  initializing-IsSound none u now w opened zero_bytes some_size new sound =
      opening-IsSound u w opened zero_bytes some_size new sound

  uploads-creating :
      (o : Option TenantQuota) (tenant_id : String) (rows : Tables)
      → (creating o tenant_id rows).0.uploads ≡ rows.uploads
  uploads-creating (some q) tenant_id rows = refl
  uploads-creating none tenant_id rows = refl

  uploads-check_storage :
      (enforced : Bool) (tenant_id : String) (additional : ℕ) (rows : Tables)
      → (check_storage enforced tenant_id additional rows).0.uploads ≡ rows.uploads
  unfolding check_storage
  uploads-check_storage false tenant_id additional rows = refl
  uploads-check_storage true tenant_id additional rows =
      uploads-creating (first (λ q. q.tenant_id == tenant_id) rows.quotas) tenant_id rows

  charged-IsSound :
      (rows : Tables) (w : World)
      → rows.uploads ≡ w.rows.uploads
      → IsSound sha w
      → IsSound sha (record w { rows = rows })
  charged-IsSound rows w same sound = record {
    fits = subst (AllFit sha w) (sym same) sound.fits;
    unique = rw same sound.unique;
    addressed = sound.addressed;
  }

  pub init_upload-IsSound :
      (enforced : Bool) (upload_id tenant_id : String) (expected_size : ℕ)
      (content_type expected_sha key : Option String) (expiry now : ℕ) (w : World)
      → IsNew upload_id w
      → IsSound sha w
      → IsSound sha
          (init_upload enforced upload_id tenant_id expected_size content_type expected_sha key
            expiry now w).0
  unfolding init_upload
  init_upload-IsSound enforced upload_id tenant_id expected_size content_type expected_sha key
        expiry now w new sound =
      elim (Bool-cases (eqb expected_size 0)) [
        | inl empty ↦ rw empty sound
        | inr some_size ↦
            let rows : Tables = (check_storage enforced tenant_id expected_size w.rows).0 in
            let same : rows.uploads ≡ w.rows.uploads =
              uploads-check_storage enforced tenant_id expected_size w.rows in
            let charged : IsSound sha (record w { rows = rows }) =
              charged-IsSound rows w same sound in
            elim (Bool-cases (check_storage enforced tenant_id expected_size w.rows).1) [
              | inr over_quota ↦ rw (some_size, over_quota) charged
              | inl within ↦
                  rw (some_size, within)
                    (initializing-IsSound _ _ now _ refl refl (ground (arith, some_size))
                      (gc-IsNew upload_id now (record w { rows = rows }) (rw same new.0, new.1))
                      (gc-IsSound sha now (record w { rows = rows }) charged))
            ]
      ]
