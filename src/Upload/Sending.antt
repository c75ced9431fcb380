-- ===== src/Upload/Sending.antt =====
-- A client sends the chunks of an upload in order, and all its bytes arrive.
use mathlib.Core.List.{append-nil, append_assoc}
use mathlib.Core.Option.{none-ne-some, some-injective}
use scene_api.Base.{
  ℕ, ◌+◌, ◌≤◌, ◌<◌, String, ◌≡◌, refl, sym, ap, ◌∙◌, subst, ◌≢◌, inl, inr, Bool, true, false, ◌&&◌,
  Option, none, some, List, [], ◌∷◌, ◌++◌, arith, ◌==◌, eq_iff, eq_refl, ltb, eqb, Bool-cases,
  length, first, update_where, All, length-append, Dict, get, put,
}
use scene_api.Error.{ok}
use scene_api.Upload.{
  Upload, World, upload_expired, find_upload, unexpired, get_upload, append_chunk, save_upload,
  is_open, contents, append_file, counted, is_finalized,
}
use scene_api.Upload.Requests.{request}
use scene_api.Number.{less}

abbrev pub concat : List (List ℕ) → List ℕ
concat [] = []
concat (c ∷ cs) = c ++ concat cs

-- A client that sends the chunks in order, each in a request of its own.
unfoldable pub send_chunks :
    (tenant_id upload_id : String) → (now offset : ℕ) → List (List ℕ) → World → World
send_chunks tenant_id upload_id now offset [] w = w
send_chunks tenant_id upload_id now offset (c ∷ cs) w =
    send_chunks tenant_id upload_id now (offset + length c) cs
      (request w (append_chunk tenant_id upload_id now offset c w)).0

first-update_where :
    (p q : Upload → Bool) (u v : Upload) (rows : List Upload)
    → ((x : Upload) → q x ≡ false → p x ≡ false)
    → p v ≡ true
    → first p rows ≡ some u
    → first p (update_where q (λ _. v) rows) ≡ some v
first-update_where p q u v [] misses matched e = absurd (none-ne-some _ e)
first-update_where p q u v (x ∷ xs) misses matched e = elim (Bool-cases (q x)) [
  | inl saved ↦ rw (saved, matched) refl
  | inr other ↦
      rw (other, misses x other)
        (first-update_where p q u v xs misses matched (rw (misses x other) at e))
]

first-passes :
    (p : Upload → Bool) (u : Upload) (rows : List Upload) → first p rows ≡ some u → p u ≡ true
first-passes p u [] e = absurd (none-ne-some _ e)
first-passes p u (x ∷ xs) e = elim (Bool-cases (p x)) [
  | inl matched ↦ ap p (sym (some-injective _ _ (rw matched at e))) ∙ matched
  | inr miss ↦ first-passes p u xs (rw miss at e)
]

unexpired-ok :
    (now : ℕ) (o : Option Upload) (u : Upload)
    → unexpired now o ≡ ok u
    → (o ≡ some u) × (upload_expired now u ≡ false)
unexpired-ok now none u e = cc
unexpired-ok now (some v) u e = elim (Bool-cases (upload_expired now v)) [
  | inl late ↦ absurd (ground (arith, rw late at e))
  | inr current ↦
      let same : v ≡ u = ground (arith, rw current at e) in
      (ap some same, ap (upload_expired now) (sym same) ∙ current)
]

module _ (tenant_id upload_id : String) (now : ℕ) where
  -- The row of the upload after it was saved is the one that was saved.
  get_upload-save :
      (u v : Upload) (w w' : World)
      → w'.rows ≡ w.rows
      → get_upload tenant_id upload_id now w.rows ≡ ok u
      → v.upload_id ≡ u.upload_id
      → v.tenant_id ≡ u.tenant_id
      → upload_expired now v ≡ upload_expired now u
      → get_upload tenant_id upload_id now (save_upload v w').rows ≡ ok v
  unfolding get_upload
  get_upload-save u v w w' same found same_id same_tenant same_expiry =
      let (row, current) =
        unexpired-ok now (find_upload tenant_id upload_id w.rows.uploads) u found in
      let named =
        first-passes (λ u. u.tenant_id == tenant_id && u.upload_id == upload_id) u w.rows.uploads
          row in
      let id : v.upload_id ≡ upload_id =
        same_id ∙ (eq_iff u.upload_id upload_id).0 (ground arith) in
      let matched : (v.tenant_id == tenant_id && v.upload_id == upload_id) ≡ true =
        rw (same_tenant, same_id) named in
      let saved =
        first-update_where (λ x. x.tenant_id == tenant_id && x.upload_id == upload_id)
          (λ x. x.upload_id == v.upload_id) u v w'.rows.uploads
          (λ x other.
            miss (x.tenant_id == tenant_id) (x.upload_id == upload_id)
              (subst (λ k. (x.upload_id == k) ≡ false) id other))
          matched
          (subst (λ r. find_upload tenant_id upload_id r.uploads ≡ some u) (sym same) row) in
      ap (unexpired now) saved ∙ rw (same_expiry ∙ current) refl
    where
      miss : (a b : Bool) → b ≡ false → (a && b) ≡ false
      miss a b h = ground arith

  abbrev written : Upload → List ℕ → World → World
  written u bytes w = save_upload u (record w { temp = put u.upload_id bytes w.temp })

  append_chunk-ok :
      (u : Upload) (w : World) (old chunk : List ℕ)
      → get_upload tenant_id upload_id now w.rows ≡ ok u
      → is_open u.state ≡ true
      → contents (get u.upload_id w.temp) ≡ old
      → length old ≡ u.received_bytes
      → u.received_bytes + length chunk ≤ u.expected_size
      → append_chunk tenant_id upload_id now u.received_bytes chunk w
        ≡ (written (counted (length chunk) u) (old ++ chunk) w, ok (counted (length chunk) u))
  unfolding append_chunk append_file
  append_chunk-ok u w old chunk found opened holds counts fits =
      let here : eqb u.received_bytes u.received_bytes ≡ true = ground arith in
      let within : ltb u.expected_size (u.received_bytes + length chunk) ≡ false = ground arith in
      rw (found, opened, here, within, holds, counts, here) refl

  -- All the bytes of an upload have arrived and it is not finalized.
  abbrev pub Whole : (size : ℕ) → Option String → Dict (List ℕ) → List ℕ → World → Type 0
  Whole size expected_sha blobs content w =
      (v : Upload) × (get_upload tenant_id upload_id now w.rows ≡ ok v)
      × (is_finalized v.state ≡ false)
      × (v.received_bytes ≡ v.expected_size)
      × (v.expected_size ≡ size)
      × (v.expected_sha ≡ expected_sha)
      × (get v.upload_id w.temp ≡ some content)
      × (w.blobs ≡ blobs)

  concat-filled : (d : List ℕ) (ds : List (List ℕ)) → d ≢ [] → length (concat (d ∷ ds)) ≢ 0
  concat-filled [] ds filled e = filled refl
  concat-filled (b ∷ bs) ds filled e = omega (arith, e)

  abbrev next_row : Upload → List ℕ → Upload
  next_row u c = counted (length c) u

  get_upload-next :
      (u : Upload) (w : World) (old c : List ℕ)
      → get_upload tenant_id upload_id now w.rows ≡ ok u
      → is_open u.state ≡ true
      → get_upload tenant_id upload_id now (written (next_row u c) (old ++ c) w).rows
        ≡ ok (next_row u c)
  get_upload-next u w old c found opened =
      get_upload-save u (next_row u c) w (record w { temp = put u.upload_id (old ++ c) w.temp })
        refl found refl refl (same_expiry u c opened)
    where
      same_expiry :
          (u : Upload) (c : List ℕ)
          → is_open u.state ≡ true
          → upload_expired now (next_row u c) ≡ upload_expired now u
      same_expiry u c opened = ground arith

  sent-step :
      (u : Upload) (w : World) (old c : List ℕ) (cs : List (List ℕ))
      → get_upload tenant_id upload_id now w.rows ≡ ok u
      → is_open u.state ≡ true
      → contents (get u.upload_id w.temp) ≡ old
      → length old ≡ u.received_bytes
      → u.received_bytes + length c ≤ u.expected_size
      → send_chunks tenant_id upload_id now u.received_bytes (c ∷ cs) w
        ≡ send_chunks tenant_id upload_id now
            (u.received_bytes + length c)
            cs
            (written (next_row u c) (old ++ c) w)
  unfolding send_chunks
  sent-step u w old c cs found opened holds counts fits =
      ap (λ r. send_chunks tenant_id upload_id now (u.received_bytes + length c) cs (request w r).0)
        (append_chunk-ok u w old c found opened holds counts fits)

  pub sent-Whole :
      (cs : List (List ℕ)) (c : List ℕ) (u : Upload) (w : World) (old : List ℕ)
      → All (λ d. d ≢ []) (c ∷ cs)
      → get_upload tenant_id upload_id now w.rows ≡ ok u
      → is_open u.state ≡ true
      → contents (get u.upload_id w.temp) ≡ old
      → length old ≡ u.received_bytes
      → u.received_bytes + length (concat (c ∷ cs)) ≡ u.expected_size
      → Whole u.expected_size u.expected_sha w.blobs
          (old ++ concat (c ∷ cs))
          (send_chunks tenant_id upload_id now u.received_bytes (c ∷ cs) w)
  unfolding send_chunks
  sent-Whole [] c u w old filled found opened holds counts total =
      let exact : u.received_bytes + length c ≡ u.expected_size =
        ap (λ k. u.received_bytes + length k) (sym (append-nil c)) ∙ total in
      subst (Whole u.expected_size u.expected_sha w.blobs (old ++ concat (c ∷ [])))
        (sym (sent-step u w old c [] found opened holds counts (omega (arith, exact))))
        (
          next_row u c,
          get_upload-next u w old c found opened,
          last-state u c exact,
          exact,
          refl,
          refl,
          rw (eq_refl u.upload_id) (ap (λ k. some (old ++ k)) (sym (append-nil c))),
          refl,
        )
    where
      last-state :
          (u : Upload) (c : List ℕ)
          → u.received_bytes + length c ≡ u.expected_size
          → is_finalized (next_row u c).state ≡ false
      last-state u c exact = ground arith
  sent-Whole (d ∷ ds) c u w old filled found opened holds counts total =
      let more : length (concat (d ∷ ds)) ≢ 0 = concat-filled d ds filled.1.0 in
      let sizes = length-append c (concat (d ∷ ds)) in
      let less : u.received_bytes + length c < u.expected_size =
        omega (arith, more, total, sizes) in
      let still : is_open (next_row u c).state ≡ true = still-open u c less opened in
      subst (Whole u.expected_size u.expected_sha w.blobs (old ++ concat (c ∷ d ∷ ds)))
        (sym (sent-step u w old c (d ∷ ds) found opened holds counts (omega (arith, less))))
        (subst
          (λ k. Whole u.expected_size u.expected_sha w.blobs k (
            send_chunks tenant_id upload_id now (u.received_bytes + length c) (d ∷ ds)
              (written (next_row u c) (old ++ c) w)))
          (append_assoc old c (concat (d ∷ ds)))
          (sent-Whole ds d (next_row u c) (written (next_row u c) (old ++ c) w) (old ++ c) filled.1
            (get_upload-next u w old c found opened) still (rw (eq_refl u.upload_id) refl)
            (length-append old c ∙ ap (λ k. k + length c) counts) (omega (arith, total, sizes))))
    where
      still-open :
          (u : Upload) (c : List ℕ)
          → u.received_bytes + length c < u.expected_size
          → is_open u.state ≡ true
          → is_open (next_row u c).state ≡ true
      still-open u c less opened = ground arith
