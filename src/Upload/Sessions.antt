-- ===== src/Upload/Sessions.antt =====
-- Uploads as a transition system: clients and the janitor take turns, one request at a time.
use mathlib.Core.Option.{none-ne-some}
use scene_api.Base.{
  ℕ, String, ◌≡◌, refl, subst, Bool, false, Option, none, List, [], arith, ◌==◌, any, get,
}
use scene_api.Error.{err, ok, Result, ApiError}
use scene_api.Upload.{Upload, World, gc_expired_uploads, append_chunk, append_file}
use scene_api.Upload.Requests.{finalize_upload, init_upload, request}
use scene_api.Upload.Sound.{IsSound, AllFit, Unique}
use scene_api.Upload.Ends.{finalize_upload-IsSound, gc-IsSound}
use scene_api.Upload.Keeps.{append_chunk-IsSound}
use scene_api.Upload.Loses.{init_request-IsSound}

module _ (sha : List ℕ → String) where
  -- A step of a client or of the janitor, whether the request succeeds or raises; a request that
  -- raises leaves the rows as they were, not the files. A request to open an upload draws an id that
  -- is new.
  pub data Step (w : World) : World → Type 0 where
    append_step :
        (tenant_id upload_id : String) (now offset : ℕ) (chunk : List ℕ)
        → Step w (request w (append_chunk tenant_id upload_id now offset chunk w)).0
    finalize_step :
        (tenant_id upload_id : String) (now : ℕ) (client_sha : Option String)
        → Step w (request w (finalize_upload sha tenant_id upload_id now client_sha w)).0
    gc_step : (now : ℕ) → Step w (gc_expired_uploads now w).0
    init_step :
        (enforced : Bool) (upload_id tenant_id : String) (expected_size : ℕ)
        (content_type expected_sha key : Option String) (expiry now : ℕ)
        → any (λ v. v.upload_id == upload_id) w.rows.uploads ≡ false
        → get upload_id w.temp ≡ none
        → Step w
            (request w (
              init_upload enforced upload_id tenant_id expected_size content_type expected_sha key
                expiry now w)).0

  pub data Run (w : World) : World → Type 0 where
    start : Run w w
    step : {mid last : World} → Run w mid → Step mid last → Run w last

  request-IsSound :
      (w : World) (r : World × Result Upload)
      → ((e : ApiError) → r.1 ≡ err e → r.0.rows.uploads ≡ w.rows.uploads)
      → IsSound sha r.0
      → IsSound sha (request w r).0
  request-IsSound w (w', ok u) same sound = sound
  request-IsSound w (w', err e) same sound = record {
    fits = subst (AllFit sha w') (same e refl) sound.fits;
    unique = subst (Unique sha) (same e refl) sound.unique;
    addressed = sound.addressed;
  }

  append_chunk-rows :
      (tenant_id upload_id : String) (now offset : ℕ) (chunk : List ℕ) (w : World) (e : ApiError)
      → (append_chunk tenant_id upload_id now offset chunk w).1 ≡ err e
      → (append_chunk tenant_id upload_id now offset chunk w).0.rows.uploads ≡ w.rows.uploads
  unfolding append_chunk append_file
  append_chunk-rows tenant_id upload_id now offset chunk w e h = ground arith

  finalize_upload-rows :
      (tenant_id upload_id : String) (now : ℕ) (client_sha : Option String) (w : World)
      (e : ApiError)
      → (finalize_upload sha tenant_id upload_id now client_sha w).1 ≡ err e
      → (finalize_upload sha tenant_id upload_id now client_sha w).0.rows.uploads ≡ w.rows.uploads
  unfolding finalize_upload
  finalize_upload-rows tenant_id upload_id now client_sha w e h = ground arith

  Step-IsSound : (w w' : World) → Step w w' → IsSound sha w → IsSound sha w'
  Step-IsSound w w' (append_step tenant_id upload_id now offset chunk) sound =
      request-IsSound w _ (append_chunk-rows tenant_id upload_id now offset chunk w)
        (append_chunk-IsSound sha tenant_id upload_id now offset chunk w sound)
  Step-IsSound w w' (finalize_step tenant_id upload_id now client_sha) sound =
      request-IsSound w _ (finalize_upload-rows tenant_id upload_id now client_sha w)
        (finalize_upload-IsSound sha tenant_id upload_id now client_sha w sound)
  Step-IsSound w w' (gc_step now) sound = gc-IsSound sha now w sound
  Step-IsSound w w'
        (init_step enforced upload_id tenant_id expected_size content_type expected_sha key expiry
          now free empty)
        sound =
      init_request-IsSound sha enforced upload_id tenant_id expected_size content_type expected_sha
        key expiry now w (free, empty) sound

  Run-IsSound : (w w' : World) → Run w w' → IsSound sha w → IsSound sha w'
  Run-IsSound w w' start sound = sound
  Run-IsSound w w' (step {mid} r s) sound = Step-IsSound mid w' s (Run-IsSound w mid r sound)

abbrev pub no_uploads : World
no_uploads = record {
  rows = record { uploads = []; blob_rows = []; quotas = [] };
  temp = [];
  blobs = [];
}

-- After any run of requests and sweeps, refused ones included, that starts with no uploads and opens
-- each under an id that is new: an open upload has received less than its size, and its file holds
-- exactly the bytes counted, or nothing; a received one has its size, in its file if the file is
-- there; a finalized one has its content in the blob store under its hash; and no two uploads share
-- an id.
pub Run-sound :
    (sha : List ℕ → String) (w : World)
    → Run sha no_uploads w
    → AllFit sha w w.rows.uploads × Unique sha w.rows.uploads
Run-sound sha w r = (sound.fits, sound.unique)
  where
    sound : IsSound sha w
    sound =
        Run-IsSound sha no_uploads w r (record {
          fits = tt;
          unique = tt;
          addressed = λ s bytes e. absurd (none-ne-some bytes e);
        })
