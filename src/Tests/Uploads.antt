-- ===== src/Tests/Uploads.antt =====
-- An upload whose three bytes have all arrived.
use scene_api.Base.{ℕ, String, ◌≡◌, refl, false, none, some, List, [], ◌∷◌, get}
use scene_api.Error.{ok, err, validation, storage}
use scene_api.Upload.Sessions.{
  start, step, init_step, append_step, finalize_step, no_uploads, Run-sound, Run,
}
use scene_api.Upload.{
  Upload, World, get_upload, UploadState, append_file, append_chunk, gc_expired_uploads,
}
use scene_api.Upload.Requests.{request, finalize_upload, put_stream, check_storage, init_upload}
use scene_api.Upload.Rejected.{finalize-mismatch}
use scene_api.Upload.Sound.{Unique, AllFit}
use mathlib.Core.List.{cons≢nil}
use mathlib.Core.Option.{none-ne-some}
use scene_api.Upload.Sending.{send_chunks}
use scene_api.Upload.Roundtrip.{finalize-send_chunks}
use scene_api.Upload.Hidden.{get_upload-gc}

abbrev upload : Upload
upload = record {
  upload_id = "u";
  tenant_id = "acme";
  idempotency_key = none;
  expected_size = 3;
  received_bytes = 3;
  content_type = none;
  expected_sha = none;
  state = UploadState.received;
  blob_sha = none;
  expires_at = some 100;
}

abbrev world : World
world = record {
  rows = record { uploads = upload ∷ []; blob_rows = []; quotas = [] };
  temp = ("u", 1 ∷ 2 ∷ 3 ∷ []) ∷ [];
  blobs = [];
}

-- A stand-in for the hash.
abbrev hash : List ℕ → String
hash bytes = "good"

found : get_upload "acme" "u" 50 world.rows ≡ ok upload
unfolding get_upload
found = refl

finalize-mismatch_example :
    ((finalize_upload hash "acme" "u" 50 (some "bad") world).1 ≡ err validation)
    × ((finalize_upload hash "acme" "u" 50
          (some "good")
          (request world (finalize_upload hash "acme" "u" 50 (some "bad") world)).0).1
        ≡ err storage)
finalize-mismatch_example =
    finalize-mismatch hash "acme" "u" 50 50 (some "bad") (some "good") world upload (1 ∷ 2 ∷ 3 ∷ [])
      found found refl refl refl

abbrev opened : World
opened = (request no_uploads (init_upload false "u" "acme" 2 none none none 100 0 no_uploads)).0

abbrev one : World
one = (request opened (append_chunk "acme" "u" 1 0 (7 ∷ []) opened)).0

abbrev two : World
two = (request one (append_chunk "acme" "u" 2 1 (8 ∷ []) one)).0

abbrev done : World
done = (request two (finalize_upload hash "acme" "u" 3 (some "good") two)).0

abbrev fresh_upload : Upload
fresh_upload = record upload { expected_size = 2; received_bytes = 0; state = UploadState.opened }

abbrev session : Run hash no_uploads done
session =
    step
      (step
        (step (step start (init_step false "u" "acme" 2 none none none 100 0 refl refl))
          (append_step "acme" "u" 1 0 (7 ∷ [])))
        (append_step "acme" "u" 2 1 (8 ∷ [])))
      (finalize_step "acme" "u" 3 (some "good"))

-- The two chunks are in the blob store under the hash.
sent : get "good" done.blobs ≡ some (7 ∷ 8 ∷ [])
unfolding init_upload check_storage gc_expired_uploads append_chunk append_file get_upload
    finalize_upload put_stream
sent = refl

Run-sound_example : AllFit hash done done.rows.uploads × Unique hash done.rows.uploads
Run-sound_example = Run-sound hash done session

-- One upload that has expired, and one that has not.
abbrev mixed : World
mixed = record world {
  rows = record world.rows {
    uploads = upload ∷ record upload { upload_id = "v"; expires_at = some 10 } ∷ [];
  };
}

get_upload-gc_example :
    get_upload "acme" "v" 50 (gc_expired_uploads 50 mixed).0.rows
    ≡ get_upload "acme" "v" 50 mixed.rows
get_upload-gc_example = get_upload-gc hash "acme" "v" 50 mixed (refl, (refl, tt))

fresh : get_upload "acme" "u" 3 opened.rows ≡ ok fresh_upload
unfolding init_upload check_storage gc_expired_uploads get_upload
fresh = refl

abbrev sent_all : World
sent_all = send_chunks "acme" "u" 3 0 ((7 ∷ []) ∷ (8 ∷ []) ∷ []) opened

finalize-send_chunks_example :
    (v : Upload) × ((finalize_upload hash "acme" "u" 3 (some "good") sent_all).1 ≡ ok v)
    × (v.state ≡ UploadState.finalized)
    × (v.blob_sha ≡ some "good")
    × (get "good" (finalize_upload hash "acme" "u" 3 (some "good") sent_all).0.blobs
        ≡ some (7 ∷ 8 ∷ []))
unfolding init_upload check_storage gc_expired_uploads
finalize-send_chunks_example =
    finalize-send_chunks hash "acme" "u" 3 (some "good") fresh_upload opened (7 ∷ [])
      ((8 ∷ []) ∷ []) (cons≢nil, (cons≢nil, tt)) fresh refl refl refl refl refl refl
      (λ bytes e. absurd (none-ne-some _ e))
