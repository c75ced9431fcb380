-- ===== src/Upload/Loses.antt =====
-- A request to open an upload that raises: the sweep in it has unlinked the files of expired
-- uploads, and the rollback brings their rows back.
use scene_api.Base.{
  ℕ, String, ◌≡◌, refl, sym, ◌∙◌, subst, ◌⊎◌, inl, inr, Bool, not, ◌&&◌, Option, none, some, List,
  [], ◌∷◌, ◌==◌, eq_iff, eqb, Bool-cases, any, select, Dict, get, drop,
}
use scene_api.Error.{err, ok, Result}
use scene_api.Upload.{
  Upload, World, discard_all, gc_expired_uploads, UploadState, upload_expired, Tables, is_finalized,
  past,
}
use scene_api.Upload.Requests.{initializing, init_upload, request, check_storage, has_key}
use scene_api.Upload.Touch.{get-drop_ne}
use scene_api.Upload.Sound.{Fits, IsSound, AllFit}
use scene_api.Upload.Rejected.{get-drop}
use scene_api.Number.{less}
use scene_api.Upload.Ends.{Fits-kept}
use scene_api.Upload.Starts.{init_upload-IsSound, IsNew}

-- Files are gone, and nothing else is changed but the rows.
pub record Loses (w w' : World) : Type 0 where
  pub temp : (k : String) → (get k w'.temp ≡ get k w.temp) ⊎ (get k w'.temp ≡ none)
  pub blobs : w'.blobs ≡ w.blobs

Loses-none : (w : World) (rows : Tables) → Loses w (record w { rows = rows })
Loses-none w rows = record { temp = λ k. inl refl; blobs = refl }

lost-drop :
    (k id : String) (temp : Dict (List ℕ))
    → (get k (drop id temp) ≡ get k temp) ⊎ (get k (drop id temp) ≡ none)
lost-drop k id temp = elim (Bool-cases (k == id)) [
  | inl same ↦ inr (
      subst (λ (x : String). get x (drop id temp) ≡ none) (sym ((eq_iff k id).0 same))
        (get-drop id temp))
  | inr other ↦ inl (get-drop_ne id k temp other)
]

lost-discard_all :
    (k : String) (us : List Upload) (temp : Dict (List ℕ))
    → (get k (discard_all us temp) ≡ get k temp) ⊎ (get k (discard_all us temp) ≡ none)
lost-discard_all k [] temp = inl refl
lost-discard_all k (u ∷ us) temp = elim (lost-discard_all k us (drop u.upload_id temp)) [
  | inr gone ↦ inr gone
  | inl kept ↦ elim (lost-drop k u.upload_id temp) [
    | inl same ↦ inl (kept ∙ same)
    | inr gone ↦ inr (kept ∙ gone)
  ]
]

gc-Loses :
    (now : ℕ) (w : World) (rows : Tables)
    → Loses w (gc_expired_uploads now (record w { rows = rows })).0
unfolding gc_expired_uploads
gc-Loses now w rows = record {
  temp = λ k.
      lost-discard_all k
        (select (λ u. not (is_finalized u.state) && past u.expires_at now) rows.uploads) w.temp;
  blobs = refl;
}

Loses-rows : (w w' : World) (rows : Tables) → Loses w w' → Loses w (record w' { rows = rows })
Loses-rows w w' rows l = record { temp = l.temp; blobs = l.blobs }

initializing-Loses :
    (w w' : World) (o : Option Upload) (u : Upload) (now : ℕ)
    → Loses w w'
    → Loses w (initializing o u now w').0
initializing-Loses w w' (some old) u now l = elim (Bool-cases (upload_expired now old)) [
  | inl past_it ↦ rw past_it l
  | inr lives ↦ rw lives l
]
initializing-Loses w w' none u now l =
    elim (Bool-cases (any (has_key u.tenant_id u.idempotency_key) w'.rows.uploads)) [
      | inl taken ↦ rw taken l
      | inr untaken ↦ rw untaken (Loses-rows w w' _ l)
    ]

init_upload-Loses :
    (enforced : Bool) (upload_id tenant_id : String) (expected_size : ℕ)
    (content_type expected_sha key : Option String) (expiry now : ℕ) (w : World)
    → Loses w
        (init_upload enforced upload_id tenant_id expected_size content_type expected_sha key expiry
          now w).0
unfolding init_upload
init_upload-Loses enforced upload_id tenant_id expected_size content_type expected_sha key expiry
      now w =
    elim (Bool-cases (eqb expected_size 0)) [
      | inl empty ↦ rw empty (Loses-none w w.rows)
      | inr some_size ↦
          elim (Bool-cases (check_storage enforced tenant_id expected_size w.rows).1) [
            | inr over_quota ↦ rw (some_size, over_quota) (Loses-none w _)
            | inl within ↦
                rw (some_size, within)
                  (initializing-Loses w
                    (gc_expired_uploads now (record w {
                      rows = (check_storage enforced tenant_id expected_size w.rows).0;
                    })).0
                    _ _ now
                    (gc-Loses now w (check_storage enforced tenant_id expected_size w.rows).0))
          ]
    ]

module _ (sha : List ℕ → String) where
  Fits-lost :
      (w w' : World) (u : Upload) (s : UploadState) → Loses w w' → Fits sha w u s → Fits sha w' u s
  Fits-lost w w' u s l fit = elim (l.temp u.upload_id) [
    | inl kept ↦ Fits-kept sha w w' u s kept l.blobs fit
    | inr gone ↦ without s gone l.blobs fit
  ]
    where
      without :
          (s : UploadState)
          → get u.upload_id w'.temp ≡ none
          → w'.blobs ≡ w.blobs
          → Fits sha w u s
          → Fits sha w' u s
      without UploadState.opened gone b (less, file) = (less, inl (rw gone refl))
      without UploadState.received gone b (full, file) = (full, inl gone)
      without UploadState.finalized gone b (s, bytes, named, there, hashed) =
          (s, bytes, named, rw b there, hashed)

  AllFit-lost :
      (w w' : World) (rows : List Upload) → Loses w w' → AllFit sha w rows → AllFit sha w' rows
  AllFit-lost w w' [] l a = tt
  AllFit-lost w w' (u ∷ us) l a = (Fits-lost w w' u u.state l a.0, AllFit-lost w w' us l a.1)

  -- The rows are as before, whatever files are gone.
  lost-IsSound :
      (w w' : World) → Loses w w' → IsSound sha w → IsSound sha (record w' { rows = w.rows })
  lost-IsSound w w' l sound = record {
    fits =
        AllFit-lost w (record w' { rows = w.rows }) w.rows.uploads
          (record { temp = l.temp; blobs = l.blobs }) sound.fits;
    unique = sound.unique;
    addressed = rw l.blobs sound.addressed;
  }

  lost_request-IsSound :
      (w : World) (r : World × Result Upload)
      → Loses w r.0
      → IsSound sha w
      → IsSound sha r.0
      → IsSound sha (request w r).0
  lost_request-IsSound w (w', ok u) l before after = after
  lost_request-IsSound w (w', err e) l before after = lost-IsSound w w' l before

  -- Any request to open an upload, the refused ones included.
  pub init_request-IsSound :
      (enforced : Bool) (upload_id tenant_id : String) (expected_size : ℕ)
      (content_type expected_sha key : Option String) (expiry now : ℕ) (w : World)
      → IsNew sha upload_id w
      → IsSound sha w
      → IsSound sha
          (request w (
            init_upload enforced upload_id tenant_id expected_size content_type expected_sha key
              expiry now w)).0
  init_request-IsSound enforced upload_id tenant_id expected_size content_type expected_sha key
        expiry now w new sound =
      lost_request-IsSound w _
        (init_upload-Loses enforced upload_id tenant_id expected_size content_type expected_sha key
          expiry now w)
        sound
        (init_upload-IsSound sha enforced upload_id tenant_id expected_size content_type
          expected_sha key expiry now w new sound)
