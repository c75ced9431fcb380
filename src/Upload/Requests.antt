-- ===== src/Upload/Requests.antt =====
-- The end and the start of an upload, which hash content and draw ids, and the request that an
-- operation runs in (`get_db` of server/db/session.py).
use scene_api.Base.{
  ℕ, ◌+◌, String, Bool, true, false, not, ◌&&◌, Option, none, some, List, [], ◌∷◌, ◌++◌, ◌==◌, ltb,
  eqb, if◌then◌else◌, is_none, length, any, first, Dict, get, put, drop,
}
use scene_api.Error.{Result, ok, err, not_found, conflict, validation, quota_exceeded, storage}
use scene_api.Upload.{
  Upload, World, is_open, is_finalized, upload_expired, get_upload, checked, gc_expired_uploads,
  UploadState, TenantQuota, Tables,
}

-- A session commits when its operation returns and rolls its rows back when it raises; the files
-- stay as the operation left them.
abbrev pub request : World → World × Result Upload → World × Result Upload
request w (w', ok u) = (w', ok u)
request w (w', err e) = (record w' { rows = w.rows }, err e)

-- `sha` is SHA-256 in hexadecimal.
module _ (sha : List ℕ → String) where
  -- `put_stream`: content that the store has is not written again.
  unfoldable pub put_stream : List ℕ → Dict (List ℕ) → Dict (List ℕ)
  put_stream bytes blobs =
      if is_none (get (sha bytes) blobs) then put (sha bytes) bytes blobs else blobs

  -- `TempUploadStore.finalize_into`, then the rest of `finalize_upload`: the file is unlinked
  -- before the hash is looked at.
  abbrev pub assembling : Option (List ℕ) → Option String → Upload → World → World × Result Upload
  assembling none client_sha u w = (w, err storage)
  assembling (some bytes) client_sha u w =
      checked client_sha (sha bytes) (length bytes) u
        (record w { temp = drop u.upload_id w.temp; blobs = put_stream bytes w.blobs })

  abbrev pub finalize_found : Result Upload → Option String → World → World × Result Upload
  finalize_found (err e) client_sha w = (w, err e)
  finalize_found (ok u) client_sha w =
      if is_finalized u.state
      then (w, ok u)
      else if is_open u.state && not (eqb u.received_bytes u.expected_size)
      then (w, err conflict)
      else assembling (get u.upload_id w.temp) client_sha u w

  unfoldable pub finalize_upload :
      (tenant_id upload_id : String)
      → (now : ℕ) → (client_sha : Option String) → World
      → World × Result Upload
  finalize_upload tenant_id upload_id now client_sha w =
      finalize_found (get_upload tenant_id upload_id now w.rows) client_sha w

abbrev pub creating : Option TenantQuota → String → Tables → Tables × TenantQuota
creating (some q) tenant_id rows = (rows, q)
creating none tenant_id rows =
    let q : TenantQuota = record {
      tenant_id = tenant_id;
      storage_bytes_max = none;
      storage_bytes_used = 0;
    } in
    (record rows { quotas = rows.quotas ++ q ∷ [] }, q)

abbrev pub get_or_create_quota : String → Tables → Tables × TenantQuota
get_or_create_quota tenant_id rows =
    creating (first (λ q. q.tenant_id == tenant_id) rows.quotas) tenant_id rows

abbrev over : TenantQuota → ℕ → Bool
over q additional = elim q.storage_bytes_max [
  | none ↦ false
  | some most ↦ ltb most (q.storage_bytes_used + additional)
]

-- `check_storage`: the rows, and whether the quota holds; `enforced` is `auth_mode != "none"`.
unfoldable pub check_storage :
    (enforced : Bool) → String → (additional : ℕ) → Tables → Tables × Bool
check_storage enforced tenant_id additional rows =
    if enforced
    then (let (rows', q) = get_or_create_quota tenant_id rows in (rows', not (over q additional)))
    else (rows, true)

-- `if idempotency_key`
abbrev is_given : Option String → Bool
is_given none = false
is_given (some key) = not (key == "")

abbrev pub has_key : (tenant_id : String) → Option String → Upload → Bool
has_key tenant_id none u = false
has_key tenant_id (some key) u = elim u.idempotency_key [
  | none ↦ false
  | some k ↦ u.tenant_id == tenant_id && k == key
]

abbrev pub replayed : Upload → (now : ℕ) → World → World × Result Upload
replayed u now w = if upload_expired now u then (w, err not_found) else (w, ok u)

-- The new row; the constraint on tenant and key refuses a second row of a key that is there.
abbrev pub opening : Upload → World → World × Result Upload
opening u w =
    if any (has_key u.tenant_id u.idempotency_key) w.rows.uploads
    then (w, err conflict)
    else (record w { rows = record w.rows { uploads = w.rows.uploads ++ u ∷ [] } }, ok u)

abbrev pub initializing : Option Upload → Upload → (now : ℕ) → World → World × Result Upload
initializing (some existing) u now w = replayed existing now w
initializing none u now w = opening u w

-- `init_upload`; a size below 0 is refused as 0 is, and `expiry` is `upload_expiry_hours`.
unfoldable pub init_upload :
    (enforced : Bool)
    → (upload_id tenant_id : String) → (expected_size : ℕ)
    → (content_type expected_sha idempotency_key : Option String) → (expiry now : ℕ) → World
    → World × Result Upload
init_upload enforced upload_id tenant_id expected_size content_type expected_sha key expiry now w =
    if eqb expected_size 0
    then (w, err validation)
    else (let (rows, within) = check_storage enforced tenant_id expected_size w.rows in
        let charged : World = record w { rows = rows } in
        if not within
        then (charged, err quota_exceeded)
        else (let (w', _) = gc_expired_uploads now charged in
            let existing =
              if is_given key then first (has_key tenant_id key) w'.rows.uploads else none in
            initializing existing
              (record {
                upload_id = upload_id;
                tenant_id = tenant_id;
                idempotency_key = key;
                expected_size = expected_size;
                received_bytes = 0;
                content_type = content_type;
                expected_sha = expected_sha;
                state = UploadState.opened;
                blob_sha = none;
                expires_at = some (now + expiry);
              })
              now w'))
