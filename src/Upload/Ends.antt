-- ===== src/Upload/Ends.antt =====
-- Finalizations and the sweep of expired uploads keep what `IsSound` says.
use mathlib.Core.List.{Memᴰ}
use scene_api.Base.{
  ℕ, String, ◌≡◌, refl, ◌∙◌, subst, inl, inr, Bool, false, not, ◌&&◌, Option, none, some, List, [],
  ◌∷◌, ◌++◌, arith, ◌==◌, eq_iff, eqb, Bool-cases, any, select, All-Memᴰ, Dict, get, drop,
}
use scene_api.Error.{ok}
use scene_api.Upload.{
  Upload, World, upload_expired, find_upload, unexpired, get_upload, discard_all,
  gc_expired_uploads, UploadState, is_open, is_finalized,
}
use scene_api.Upload.Requests.{finalize_found, assembling, finalize_upload}
use scene_api.Upload.Touch.{find_upload-Memᴰ, get-drop_ne}
use scene_api.Upload.Sound.{Fits, IsSound, Unique, AllFit}
use scene_api.Upload.Stores.{checked-IsSound}
use scene_api.Number.{less}

pub get-discard_all :
    (k : String) (us : List Upload) (temp : Dict (List ℕ))
    → any (λ v. v.upload_id == k) us ≡ false
    → get k (discard_all us temp) ≡ get k temp
get-discard_all k [] temp e = refl
get-discard_all k (u ∷ us) temp e =
    get-discard_all k us (drop u.upload_id temp) (ground (arith, e))
    ∙ get-drop_ne u.upload_id k temp (ground (arith, e, eq_iff u.upload_id k, eq_iff k u.upload_id))

pub any-select :
    (q : Upload → Bool) (id : String) (rows : List Upload)
    → any (λ v. v.upload_id == id) rows ≡ false
    → any (λ v. v.upload_id == id) (select q rows) ≡ false
any-select q id [] e = refl
any-select q id (u ∷ us) e = elim (Bool-cases (q u)) [
  | inl keep ↦ rw keep (ground (arith, e, any-select q id us))
  | inr go ↦ rw go (any-select q id us (ground (arith, e)))
]

pub any-append :
    (id : String) (rows : List Upload) (u : Upload)
    → any (λ v. v.upload_id == id) rows ≡ false
    → (u.upload_id == id) ≡ false
    → any (λ v. v.upload_id == id) (rows ++ u ∷ []) ≡ false
any-append id [] u e h = ground (arith, h)
any-append id (v ∷ vs) u e h = ground (arith, e, any-append id vs u)

module _ (sha : List ℕ → String) where
  pub Fits-kept :
      (w w' : World) (u : Upload) (s : UploadState)
      → get u.upload_id w'.temp ≡ get u.upload_id w.temp
      → w'.blobs ≡ w.blobs
      → Fits sha w u s
      → Fits sha w' u s
  Fits-kept w w' u UploadState.opened t b (less, size) = (less, rw t size)
  Fits-kept w w' u UploadState.received t b (full, file) = (full, rw t file)
  Fits-kept w w' u UploadState.finalized t b (s, bytes, named, there, hashed) =
      (s, bytes, named, rw b there, hashed)

  AllFit-select :
      (w w' : World) (gone : List Upload) (rows : List Upload)
      → ((k : String) → any (λ v. v.upload_id == k) gone ≡ false → get k w'.temp ≡ get k w.temp)
      → w'.blobs ≡ w.blobs
      → AllFit sha w rows
      → AllFit sha w' (select (λ u. not (any (λ v. v.upload_id == u.upload_id) gone)) rows)
  AllFit-select w w' gone [] t b a = tt
  AllFit-select w w' gone (u ∷ us) t b a =
      elim (Bool-cases (any (λ v. v.upload_id == u.upload_id) gone)) [
        | inl expired ↦ rw expired (AllFit-select w w' gone us t b a.1)
        | inr lives ↦ rw lives (
          Fits-kept w w' u u.state (t u.upload_id lives) b a.0,
          AllFit-select w w' gone us t b a.1,
        )
      ]

  Unique-select :
      (q : Upload → Bool) (rows : List Upload) → Unique sha rows → Unique sha (select q rows)
  Unique-select q [] u = tt
  Unique-select q (x ∷ xs) u = elim (Bool-cases (q x)) [
    | inl keep ↦ rw keep (any-select q x.upload_id xs u.0, Unique-select q xs u.1)
    | inr go ↦ rw go (Unique-select q xs u.1)
  ]

  pub gc-IsSound : (now : ℕ) (w : World) → IsSound sha w → IsSound sha (gc_expired_uploads now w).0
  unfolding gc_expired_uploads
  gc-IsSound now w sound = record {
    fits =
        AllFit-select w (gc_expired_uploads now w).0 _ w.rows.uploads
          (λ k e. get-discard_all k _ w.temp e) refl sound.fits;
    unique = Unique-select _ w.rows.uploads sound.unique;
    addressed = sound.addressed;
  }

  finalize_found-IsSound :
      (client_sha : Option String) (u : Upload) (w : World)
      → Memᴰ u w.rows.uploads
      → IsSound sha w
      → IsSound sha (finalize_found sha (ok u) client_sha w).0
  finalize_found-IsSound client_sha u w m sound = go u.state refl
    where
      assembled :
          (f : Option (List ℕ))
          → u.state ≡ UploadState.received
          → IsSound sha (assembling sha f client_sha u w).0
      assembled none full = sound
      assembled (some bytes) full = checked-IsSound sha client_sha u bytes w m full sound

      go : (s : UploadState) → u.state ≡ s → IsSound sha (finalize_found sha (ok u) client_sha w).0
      go UploadState.finalized e = rw e sound
      go UploadState.received e =
          let unsealed : is_finalized u.state ≡ false = rw e refl in
          let complete : (is_open u.state && not (eqb u.received_bytes u.expected_size)) ≡ false =
            rw e refl in
          rw (unsealed, complete) (assembled (get u.upload_id w.temp) e)
      go UploadState.opened e =
          let fit : Fits sha w u UploadState.opened =
            subst (Fits sha w u) e (All-Memᴰ _ _ u sound.fits m) in
          let partial : eqb u.received_bytes u.expected_size ≡ false = ground (arith, fit.0) in
          rw (e, partial) sound

  pub finalize_upload-IsSound :
      (tenant_id upload_id : String) (now : ℕ) (client_sha : Option String) (w : World)
      → IsSound sha w
      → IsSound sha (finalize_upload sha tenant_id upload_id now client_sha w).0
  unfolding finalize_upload get_upload
  finalize_upload-IsSound tenant_id upload_id now client_sha w sound =
      go (find_upload tenant_id upload_id w.rows.uploads) refl
    where
      go :
          (f : Option Upload)
          → find_upload tenant_id upload_id w.rows.uploads ≡ f
          → IsSound sha (finalize_found sha (unexpired now f) client_sha w).0
      go none e = sound
      go (some u) e = elim (Bool-cases (upload_expired now u)) [
        | inl old ↦ rw old sound
        | inr fresh ↦ rw fresh (
            finalize_found-IsSound client_sha u w
              (find_upload-Memᴰ tenant_id upload_id w.rows.uploads u e).0 sound)
      ]
