-- ===== src/Upload.antt =====
-- server/services/upload_service.py, with `check_storage` of services/quota_service.py, and the
-- files of `TempUploadStore` and of a blob store in storage/blobs.py.
pub mod Requests
pub mod Rejected
pub mod Sound
pub mod Touch
pub mod Keeps
pub mod Stores
pub mod Ends
pub mod Starts
pub mod Loses
pub mod Sessions
pub mod Hidden
pub mod Sending
pub mod Roundtrip
use scene_api.Base.{
  ℕ, ◌+◌, String, Bool, true, false, not, ◌&&◌, Option, none, some, List, [], ◌∷◌, ◌++◌, ◌==◌, ltb,
  eqb, if◌then◌else◌, length, any, select, first, update_where, Dict, get, put, drop,
}
use scene_api.Error.{Result, ok, err, not_found, conflict, validation, storage}

-- The strings that the code stores in `Upload.state`; `opened` is "open".
pub data UploadState : Type 0 where
  opened received finalized : UploadState

-- A row of `upload`; the content type is kept as the blob's `mime`.
pub record Upload : Type 0 where
  pub upload_id : String
  pub tenant_id : String
  pub idempotency_key : Option String
  pub expected_size : ℕ
  pub received_bytes : ℕ
  pub content_type : Option String
  pub expected_sha : Option String
  pub state : UploadState
  pub blob_sha : Option String
  pub expires_at : Option ℕ

pub record Blob : Type 0 where
  pub sha256 : String
  pub byte_size : ℕ
  pub mime : Option String
  pub refcount : ℕ

pub record TenantQuota : Type 0 where
  pub tenant_id : String
  pub storage_bytes_max : Option ℕ
  pub storage_bytes_used : ℕ

-- The rows, which a session commits or rolls back, and the files, which it does not: `temp` by
-- upload id, `blobs` by content hash.
pub record Tables : Type 0 where
  pub uploads : List Upload
  pub blob_rows : List Blob
  pub quotas : List TenantQuota

pub record World : Type 0 where
  pub rows : Tables
  pub temp : Dict (List ℕ)
  pub blobs : Dict (List ℕ)

abbrev pub is_open : UploadState → Bool
is_open UploadState.opened = true
is_open _ = false

abbrev pub is_finalized : UploadState → Bool
is_finalized UploadState.finalized = true
is_finalized _ = false

abbrev pub past : Option ℕ → ℕ → Bool
past none now = true
past (some t) now = ltb t now

-- `_upload_expired`
abbrev pub upload_expired : ℕ → Upload → Bool
upload_expired now u = if is_finalized u.state then false else past u.expires_at now

abbrev pub find_upload : (tenant_id upload_id : String) → List Upload → Option Upload
find_upload tenant_id upload_id rows =
    first (λ u. u.tenant_id == tenant_id && u.upload_id == upload_id) rows

abbrev pub unexpired : ℕ → Option Upload → Result Upload
unexpired now none = err not_found
unexpired now (some u) = if upload_expired now u then err not_found else ok u

unfoldable pub get_upload : (tenant_id upload_id : String) → (now : ℕ) → Tables → Result Upload
get_upload tenant_id upload_id now rows =
    unexpired now (find_upload tenant_id upload_id rows.uploads)

abbrev pub save_upload : Upload → World → World
save_upload u w = record w {
  rows = record w.rows {
    uploads = update_where (λ v. v.upload_id == u.upload_id) (λ _. u) w.rows.uploads;
  };
}

abbrev pub contents : Option (List ℕ) → List ℕ
contents none = []
contents (some bytes) = bytes

-- `TempUploadStore.append`; opening the file makes it, so a refused chunk may leave it empty.
unfoldable pub append_file :
    (upload_id : String)
    → (offset : ℕ) → (chunk : List ℕ) → Dict (List ℕ)
    → Dict (List ℕ) × Result ℕ
append_file upload_id offset chunk temp =
    let old = contents (get upload_id temp) in
    if eqb offset (length old)
    then (put upload_id (old ++ chunk) temp, ok (length (old ++ chunk)))
    else (put upload_id old temp, err storage)

-- The row after its chunk was written.
abbrev pub counted : ℕ → Upload → Upload
counted n u = record u {
  received_bytes = u.received_bytes + n;
  state = if eqb (u.received_bytes + n) u.expected_size then UploadState.received else u.state;
}

abbrev pub stored : ℕ → Upload → World → Result ℕ → World × Result Upload
stored n u w (err e) = (w, err e)
stored n u w (ok size) = (save_upload (counted n u) w, ok (counted n u))

abbrev pub appending :
    Result Upload → (offset : ℕ) → (chunk : List ℕ) → World → World × Result Upload
appending (err e) offset chunk w = (w, err e)
appending (ok u) offset chunk w =
    if not (is_open u.state)
    then (w, err conflict)
    else if not (eqb offset u.received_bytes)
    then (w, err validation)
    else if ltb u.expected_size (u.received_bytes + length chunk)
    then (w, err validation)
    else let (temp, written) = append_file u.upload_id offset chunk w.temp in
      stored (length chunk) u (record w { temp = temp }) written

unfoldable pub append_chunk :
    (tenant_id upload_id : String)
    → (now offset : ℕ) → (chunk : List ℕ) → World
    → World × Result Upload
append_chunk tenant_id upload_id now offset chunk w =
    appending (get_upload tenant_id upload_id now w.rows) offset chunk w

-- `sha and sha != actual`
abbrev pub differs : Option String → String → Bool
differs none actual = false
differs (some sha) actual = not (sha == "") && not (sha == actual)

abbrev pub with_blob : Option Blob → (sha : String) → (size : ℕ) → Option String → World → World
with_blob (some b) sha size mime w = w
with_blob none sha size mime w =
    let blob : Blob = record { sha256 = sha; byte_size = size; mime = mime; refcount = 0 } in
    record w { rows = record w.rows { blob_rows = w.rows.blob_rows ++ blob ∷ [] } }

abbrev pub sealed : (sha : String) → Upload → Upload
sealed sha u = record u { state = UploadState.finalized; blob_sha = some sha }

-- The tests of `finalize_upload` on the hash and the size, and the seal.
abbrev pub checked :
    (client_sha : Option String)
    → (sha : String) → (total : ℕ) → Upload
    → World
    → World × Result Upload
checked client_sha sha total u w =
    if differs u.expected_sha sha
    then (w, err validation)
    else if differs client_sha sha
    then (w, err validation)
    else if not (eqb total u.expected_size)
    then (w, err validation)
    else (
      save_upload (sealed sha u)
          (with_blob (first (λ b. b.sha256 == sha) w.rows.blob_rows) sha total u.content_type w),
      ok (sealed sha u),
    )

abbrev pub discard_all : List Upload → Dict (List ℕ) → Dict (List ℕ)
discard_all [] temp = temp
discard_all (u ∷ us) temp = discard_all us (drop u.upload_id temp)

-- `gc_expired_uploads`
unfoldable pub gc_expired_uploads : (now : ℕ) → World → World × ℕ
gc_expired_uploads now w =
    let expired =
      select (λ u. not (is_finalized u.state) && past u.expires_at now) w.rows.uploads in
    (
      record w {
        rows = record w.rows {
          uploads =
              select (λ u. not (any (λ v. v.upload_id == u.upload_id) expired)) w.rows.uploads;
        };
        temp = discard_all expired w.temp;
      },
      length expired,
    )
