-- ===== src/Upload/Roundtrip.antt =====
-- An upload whose chunks arrive in order, and its content in the blob store.
use scene_api.Base.{
  ℕ, String, ◌≡◌, refl, sym, ap, ◌∙◌, subst, ◌≢◌, inl, inr, true, false, Option, none, some, List,
  [], ◌∷◌, arith, ◌==◌, eq_refl, eqb, Bool-cases, Option-cases, length, first, All, Dict, get, drop,
}
use scene_api.Upload.Sending.{concat, send_chunks, Whole, sent-Whole}
use scene_api.Error.{ok}
use scene_api.Upload.{
  Upload, World, get_upload, is_open, contents, is_finalized, differs, with_blob, sealed, checked,
  UploadState, Blob,
}
use scene_api.Upload.Requests.{put_stream, finalize_found, finalize_upload}

put_stream-get :
    (sha : List ℕ → String) (content : List ℕ) (blobs : Dict (List ℕ))
    → ((bytes : List ℕ) → get (sha content) blobs ≡ some bytes → bytes ≡ content)
    → get (sha content) (put_stream sha content blobs) ≡ some content
unfolding put_stream
put_stream-get sha content blobs agrees = elim (Option-cases (get (sha content) blobs)) [
  | inl new ↦ rw (new, eq_refl (sha content)) refl
  | inr (bytes, there) ↦ rw (there, there) (ap some (agrees bytes there))
]

checked-sealed :
    (client_sha : Option String) (digest : String) (total : ℕ) (v : Upload) (w : World)
    → differs v.expected_sha digest ≡ false
    → differs client_sha digest ≡ false
    → total ≡ v.expected_size
    → ((checked client_sha digest total v w).1 ≡ ok (sealed digest v))
      × ((checked client_sha digest total v w).0.blobs ≡ w.blobs)
checked-sealed client_sha digest total v w own client size =
    let exact : eqb total v.expected_size ≡ true = ground arith in
    (
      rw (own, client, exact) refl,
      rw (own, client, exact) (kept (first (λ b. b.sha256 == digest) w.rows.blob_rows)),
    )
  where
    kept : (o : Option Blob) → (with_blob o digest total v.content_type w).blobs ≡ w.blobs
    kept none = refl
    kept (some b) = refl

sealed-Whole :
    (sha : List ℕ → String) (tenant_id upload_id : String) (now : ℕ) (client_sha : Option String)
    (size : ℕ) (expected_sha : Option String) (blobs : Dict (List ℕ)) (content : List ℕ) (w : World)
    → length content ≡ size
    → differs expected_sha (sha content) ≡ false
    → differs client_sha (sha content) ≡ false
    → ((bytes : List ℕ) → get (sha content) blobs ≡ some bytes → bytes ≡ content)
    → Whole tenant_id upload_id now size expected_sha blobs content w
    → (v : Upload) × ((finalize_upload sha tenant_id upload_id now client_sha w).1 ≡ ok v)
      × (v.state ≡ UploadState.finalized)
      × (v.blob_sha ≡ some (sha content))
      × (get (sha content) (finalize_upload sha tenant_id upload_id now client_sha w).0.blobs
          ≡ some content)
unfolding finalize_upload
sealed-Whole sha tenant_id upload_id now client_sha size expected_sha blobs content w total own
      client agrees (v, found, unsealed, full, sized, hashed, held, same) =
    let exact : eqb v.received_bytes v.expected_size ≡ true = ground arith in
    let after : World = record w {
      temp = drop v.upload_id w.temp;
      blobs = put_stream sha content w.blobs;
    } in
    let (done, kept) =
      checked-sealed client_sha (sha content) (length content) v after
        (ap (λ o. differs o (sha content)) hashed ∙ own) client (total ∙ sym sized) in
    let runs : finalize_found sha (get_upload tenant_id upload_id now w.rows) client_sha w
        ≡ checked client_sha (sha content) (length content) v after =
      ap (λ r. finalize_found sha r client_sha w) found ∙ assembled v unsealed exact held in
    (
      sealed (sha content) v,
      ap (λ r. r.1) runs ∙ done,
      refl,
      refl,
      ap (λ r. get (sha content) r.0.blobs) runs
          ∙ ap (get (sha content)) kept
          ∙ put_stream-get sha content w.blobs (
              subst (λ b. (bytes : List ℕ) → get (sha content) b ≡ some bytes → bytes ≡ content)
                (sym same) agrees),
    )
  where
    assembled :
        (v : Upload)
        → is_finalized v.state ≡ false
        → eqb v.received_bytes v.expected_size ≡ true
        → get v.upload_id w.temp ≡ some content
        → finalize_found sha (ok v) client_sha w
          ≡ checked client_sha
              (sha content)
              (length content)
              v
              (record w { temp = drop v.upload_id w.temp; blobs = put_stream sha content w.blobs })
    assembled v unsealed exact held = elim (Bool-cases (is_open v.state)) [
      | inl open_yet ↦ rw (unsealed, open_yet, exact, held) refl
      | inr received ↦ rw (unsealed, received, held) refl
    ]

-- An open upload without bytes, whose expected size is that of some chunks that are not empty,
-- receives them in order and is finalized: the blob store then holds their concatenation under its
-- hash and the row names that hash. The hashes that the client named must be that of the content,
-- and the store must hold no other content under it.
pub finalize-send_chunks :
    (sha : List ℕ → String) (tenant_id upload_id : String) (now : ℕ) (client_sha : Option String)
    (u : Upload) (w : World) (c : List ℕ) (cs : List (List ℕ))
    → All (λ d. d ≢ []) (c ∷ cs)
    → get_upload tenant_id upload_id now w.rows ≡ ok u
    → is_open u.state ≡ true
    → u.received_bytes ≡ 0
    → contents (get u.upload_id w.temp) ≡ []
    → length (concat (c ∷ cs)) ≡ u.expected_size
    → differs u.expected_sha (sha (concat (c ∷ cs))) ≡ false
    → differs client_sha (sha (concat (c ∷ cs))) ≡ false
    → ((bytes : List ℕ)
        → get (sha (concat (c ∷ cs))) w.blobs ≡ some bytes
        → bytes ≡ concat (c ∷ cs))
    → (v : Upload) × ((finalize_upload sha tenant_id upload_id now client_sha
          (send_chunks tenant_id upload_id now 0 (c ∷ cs) w)).1
        ≡ ok v)
      × (v.state ≡ UploadState.finalized)
      × (v.blob_sha ≡ some (sha (concat (c ∷ cs))))
      × (get
            (sha (concat (c ∷ cs)))
            (finalize_upload sha tenant_id upload_id now client_sha
              (send_chunks tenant_id upload_id now 0 (c ∷ cs) w)).0.blobs
          ≡ some (concat (c ∷ cs)))
finalize-send_chunks sha tenant_id upload_id now client_sha u w c cs filled found opened start empty
      total own client agrees =
    let whole =
      sent-Whole tenant_id upload_id now cs c u w [] filled found opened empty (sym start)
        (omega (arith, start, total)) in
    sealed-Whole sha tenant_id upload_id now client_sha u.expected_size u.expected_sha w.blobs
      (concat (c ∷ cs)) _ total own client agrees (rw start at whole)
