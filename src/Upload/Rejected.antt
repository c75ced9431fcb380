-- ===== src/Upload/Rejected.antt =====
-- What a finalization that is refused for its hash leaves behind.
use scene_api.Base.{
  ℕ, String, ◌≡◌, refl, inl, inr, true, Option, none, some, List, [], ◌∷◌, arith, ◌==◌, Bool-cases,
  length, Dict, get, drop,
}
use scene_api.Error.{ok, err, storage, validation}
use scene_api.Upload.{Upload, World, get_upload, differs, checked, UploadState}
use scene_api.Upload.Requests.{finalize_upload, request}

pub get-drop {ℓ} : {V : Type ℓ} (k : String) (d : Dict V) → get k (drop k d) ≡ none
get-drop k [] = refl
get-drop k ((j, v) ∷ d) = elim (Bool-cases (j == k)) [
  | inl same ↦ rw same (get-drop k d)
  | inr other ↦ rw (other, other) (get-drop k d)
]

checked-mismatch :
    (client_sha : Option String) (hash : String) (total : ℕ) (u : Upload) (w : World)
    → differs client_sha hash ≡ true
    → checked client_sha hash total u w ≡ (w, err validation)
checked-mismatch client_sha hash total u w wrong = ground arith

-- A finalization whose client hash is not the content's is refused, and with it the content is
-- lost: a finalization that follows it with no request between, at any time at which the upload is
-- still found, fails for want of its file, the right hash or none given.
pub finalize-mismatch :
    (sha : List ℕ → String) (tenant_id upload_id : String) (now later : ℕ)
    (client_sha next_sha : Option String) (w : World) (u : Upload) (bytes : List ℕ)
    → get_upload tenant_id upload_id now w.rows ≡ ok u
    → get_upload tenant_id upload_id later w.rows ≡ ok u
    → u.state ≡ UploadState.received
    → get u.upload_id w.temp ≡ some bytes
    → differs client_sha (sha bytes) ≡ true
    → (finalize_upload sha tenant_id upload_id now client_sha w).1 ≡ err validation
      × (finalize_upload sha tenant_id upload_id later next_sha
          (request w (finalize_upload sha tenant_id upload_id now client_sha w)).0).1
        ≡ err storage
unfolding finalize_upload
finalize-mismatch sha tenant_id upload_id now later client_sha next_sha w u bytes e e' full file
      wrong =
    rw
      (
        e,
        full,
        file,
        checked-mismatch client_sha (sha bytes) (length bytes) u _ wrong,
        e',
        full,
        get-drop u.upload_id w.temp,
      )
      (refl, refl)
