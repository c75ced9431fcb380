-- ===== src/Upload/Stores.antt =====
-- A finalization keeps what `IsSound` says, and so does the sweep of expired uploads.
use mathlib.Core.List.{Memᴰ}
use mathlib.Core.Option.{some-injective, none-ne-some}
use scene_api.Base.{
  ℕ, String, ◌≡◌, refl, sym, ap, ◌∙◌, subst, inl, inr, Option, none, some, List, ◌==◌, eq_iff, eqb,
  Bool-cases, Option-cases, length, All-Memᴰ, Dict, get, drop,
}
use scene_api.Upload.{
  Upload, World, save_upload, differs, with_blob, sealed, checked, UploadState, Blob,
}
use scene_api.Upload.Requests.{put_stream}
use scene_api.Upload.Touch.{get-drop_ne, save-IsSound, touch-IsSound, get-put_self}
use scene_api.Upload.Rejected.{get-drop}
use scene_api.Upload.Sound.{Addressed, Touches, Fits, IsSound}

module _ (sha : List ℕ → String) where
  put_stream-grows :
      (content : List ℕ) (blobs : Dict (List ℕ)) (s : String) (bytes : List ℕ)
      → get s blobs ≡ some bytes
      → get s (put_stream sha content blobs) ≡ some bytes
  unfolding put_stream
  put_stream-grows content blobs s bytes e = elim (Option-cases (get (sha content) blobs)) [
    | inr (old, there) ↦ rw there e
    | inl new ↦ elim (Bool-cases (sha content == s)) [
      | inl same ↦ absurd (
          none-ne-some bytes (
            sym new
            ∙ subst (λ (x : String). get x blobs ≡ some bytes) (sym ((eq_iff _ s).0 same)) e))
      | inr other ↦ rw (new, other) e
    ]
  ]

  put_stream-has :
      (content : List ℕ) (blobs : Dict (List ℕ))
      → Addressed sha blobs
      → (bytes : List ℕ) × (get (sha content) (put_stream sha content blobs) ≡ some bytes)
        × (sha bytes ≡ sha content)
  unfolding put_stream
  put_stream-has content blobs addressed = elim (Option-cases (get (sha content) blobs)) [
    | inr (old, there) ↦ (old, rw there there, addressed (sha content) old there)
    | inl new ↦ (content, rw new (get-put_self (sha content) content blobs), refl)
  ]

  put_stream-Addressed :
      (content : List ℕ) (blobs : Dict (List ℕ))
      → Addressed sha blobs
      → Addressed sha (put_stream sha content blobs)
  unfolding put_stream
  put_stream-Addressed content blobs addressed s bytes =
      elim (Option-cases (get (sha content) blobs)) [
        | inr (old, there) ↦ rw there (addressed s bytes)
        | inl new ↦ elim (Bool-cases (sha content == s)) [
          | inl same ↦
              rw (new, same)
                (λ e. sym (ap sha (some-injective content bytes e)) ∙ (eq_iff _ s).0 same)
          | inr other ↦ rw (new, other) (addressed s bytes)
        ]
      ]

  -- The world after the content was moved.
  abbrev moved : Upload → List ℕ → World → World
  moved u bytes w = record w {
    temp = drop u.upload_id w.temp;
    blobs = put_stream sha bytes w.blobs;
  }

  moved-Touches :
      (u : Upload) (bytes : List ℕ) (w : World) → Touches sha u.upload_id w (moved u bytes w)
  moved-Touches u bytes w = record {
    others = λ k other. get-drop_ne u.upload_id k w.temp other;
    grows = put_stream-grows bytes w.blobs;
  }

  uploads-with_blob :
      (o : Option Blob) (hash : String) (size : ℕ) (mime : Option String) (w : World)
      → ((with_blob o hash size mime w).rows.uploads ≡ w.rows.uploads)
        × ((with_blob o hash size mime w).temp ≡ w.temp)
        × ((with_blob o hash size mime w).blobs ≡ w.blobs)
  uploads-with_blob (some b) hash size mime w = (refl, refl, refl)
  uploads-with_blob none hash size mime w = (refl, refl, refl)

  sealed-IsSound :
      (u : Upload) (bytes : List ℕ) (o : Option Blob) (w : World)
      → IsSound sha w
      → IsSound sha (
          save_upload
            (sealed (sha bytes) u)
            (with_blob o (sha bytes) (length bytes) u.content_type (moved u bytes w)))
  sealed-IsSound u bytes (some b) w sound =
      let (content, there, same) = put_stream-has bytes w.blobs sound.addressed in
      save-IsSound sha w (moved u bytes w) (sealed (sha bytes) u) refl (moved-Touches u bytes w)
        (put_stream-Addressed bytes w.blobs sound.addressed) (sha bytes, content, refl, there, same)
        sound
  sealed-IsSound u bytes none w sound =
      let (content, there, same) = put_stream-has bytes w.blobs sound.addressed in
      save-IsSound sha w
        (with_blob none (sha bytes) (length bytes) u.content_type (moved u bytes w))
        (sealed (sha bytes) u) refl
        (record {
          others = (moved-Touches u bytes w).others;
          grows = (moved-Touches u bytes w).grows;
        })
        (put_stream-Addressed bytes w.blobs sound.addressed) (sha bytes, content, refl, there, same)
        sound

  refused-IsSound :
      (u : Upload) (bytes : List ℕ) (w : World)
      → Memᴰ u w.rows.uploads
      → u.state ≡ UploadState.received
      → IsSound sha w
      → IsSound sha (moved u bytes w)
  refused-IsSound u bytes w m full sound =
      touch-IsSound sha w (moved u bytes w) u refl m (moved-Touches u bytes w)
        (put_stream-Addressed bytes w.blobs sound.addressed)
        (rw full (
          (subst (Fits sha w u) full (All-Memᴰ _ _ u sound.fits m)).0,
          inl (get-drop u.upload_id w.temp),
        ))
        sound

  pub checked-IsSound :
      (client_sha : Option String) (u : Upload) (bytes : List ℕ) (w : World)
      → Memᴰ u w.rows.uploads
      → u.state ≡ UploadState.received
      → IsSound sha w
      → IsSound sha (checked client_sha (sha bytes) (length bytes) u (moved u bytes w)).0
  checked-IsSound client_sha u bytes w m full sound =
      elim (Bool-cases (differs u.expected_sha (sha bytes))) [
        | inl wrong ↦ rw wrong (refused-IsSound u bytes w m full sound)
        | inr right ↦ elim (Bool-cases (differs client_sha (sha bytes))) [
          | inl wrong' ↦ rw (right, wrong') (refused-IsSound u bytes w m full sound)
          | inr right' ↦ elim (Bool-cases (eqb (length bytes) u.expected_size)) [
            | inr short ↦ rw (right, right', short) (refused-IsSound u bytes w m full sound)
            | inl whole ↦ rw (right, right', whole) (sealed-IsSound u bytes _ w sound)
          ]
        ]
      ]
