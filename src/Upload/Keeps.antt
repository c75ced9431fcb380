-- ===== src/Upload/Keeps.antt =====
-- Each operation on uploads keeps what `IsSound` says.
use mathlib.Core.List.{Memᴰ}
use scene_api.Base.{
  ℕ, ◌+◌, String, ◌≡◌, refl, inl, inr, Option, none, some, List, ◌++◌, arith, ltb, eqb, Bool-cases,
  length, All-Memᴰ, get, put,
}
use scene_api.Upload.{
  Upload, World, find_upload, counted, UploadState, is_open, upload_expired, unexpired, get_upload,
  contents, append_file, appending, append_chunk,
}
use scene_api.Upload.Sound.{IsSound}
use scene_api.Error.{ok}
use scene_api.Upload.Touch.{
  save-IsSound, find_upload-Memᴰ, put_temp-Touches, is_open-opened, counted-Fits, opened_file-Fits,
  touch-IsSound,
}

module _ (sha : List ℕ → String) where
  appending-IsSound :
      (u : Upload) (offset : ℕ) (chunk : List ℕ) (w : World)
      → Memᴰ u w.rows.uploads
      → IsSound sha w
      → IsSound sha (appending (ok u) offset chunk w).0
  unfolding append_file
  appending-IsSound u offset chunk w m sound = elim (Bool-cases (is_open u.state)) [
    | inr shut ↦ rw shut sound
    | inl free ↦ elim (Bool-cases (eqb offset u.received_bytes)) [
      | inr out_of_order ↦ rw (free, out_of_order) sound
      | inl in_order ↦ elim (Bool-cases (ltb u.expected_size (u.received_bytes + length chunk))) [
        | inl too_long ↦ rw (free, in_order, too_long) sound
        | inr within ↦
            let opened : u.state ≡ UploadState.opened = is_open-opened u.state free in
            let file = contents (get u.upload_id w.temp) in
            elim (Bool-cases (eqb offset (length file))) [
              | inl at_end ↦
                  rw (free, in_order, within, at_end)
                    (save-IsSound sha w (record w { temp = put u.upload_id (file ++ chunk) w.temp })
                      (counted (length chunk) u) refl (put_temp-Touches sha u.upload_id _ w)
                      sound.addressed
                      (counted-Fits sha (length chunk) u _ chunk w opened
                        (ground (arith, at_end, in_order)) refl (ground (arith, within)))
                      sound)
              | inr short ↦
                  rw (free, in_order, within, short)
                    (touch-IsSound sha w (record w { temp = put u.upload_id file w.temp }) u refl m
                      (put_temp-Touches sha u.upload_id _ w) sound.addressed
                      (opened_file-Fits sha u w opened (All-Memᴰ _ _ u sound.fits m)) sound)
            ]
      ]
    ]
  ]

  pub append_chunk-IsSound :
      (tenant_id upload_id : String) (now offset : ℕ) (chunk : List ℕ) (w : World)
      → IsSound sha w
      → IsSound sha (append_chunk tenant_id upload_id now offset chunk w).0
  unfolding append_chunk get_upload
  append_chunk-IsSound tenant_id upload_id now offset chunk w sound =
      go (find_upload tenant_id upload_id w.rows.uploads) refl
    where
      go :
          (f : Option Upload)
          → find_upload tenant_id upload_id w.rows.uploads ≡ f
          → IsSound sha (appending (unexpired now f) offset chunk w).0
      go none e = sound
      go (some u) e = elim (Bool-cases (upload_expired now u)) [
        | inl old ↦ rw old sound
        | inr fresh ↦ rw fresh (
            appending-IsSound u offset chunk w
              (find_upload-Memᴰ tenant_id upload_id w.rows.uploads u e).0 sound)
      ]
