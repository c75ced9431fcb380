-- ===== src/Pagination/Jobs.antt =====
-- What a client gets that follows the tokens of the listing of jobs.
use mathlib.Core.List.{Memᴰ}
use scene_api.Base.{
  ℕ, ◌+◌, ◌≤◌, String, ◌≡◌, refl, ◌≢◌, ◌↔◌, inl, inr, Bool, true, false, ◌&&◌, Option, none, some,
  List, [], ◌∷◌, arith, ◌==◌, eq_iff, Bool-cases, length, select, All, All-map, All-Memᴰ,
  Memᴰ-select, All-select, Memᴰ-select-of, All-sort_by, Sorted, Memᴰ-sort_by, text_lt,
}
use scene_api.Db.{Job}
use scene_api.Pagination.{all_pages, list_jobs, ordered, jobs_listed, has_status, status_text}
use scene_api.Pagination.Keys.{Keyed, ordered-InOrder}
use scene_api.Pagination.Pages.{all_pages-paginate_keyset}

Keyed-select {ℓ} :
    {A : Type ℓ} (pk : A → String) (descending : Bool) (p : A → Bool) (rows : List A)
    → Keyed pk descending rows
    → Keyed pk descending (select p rows)
Keyed-select pk descending p [] k = tt
Keyed-select pk descending p (x ∷ xs) k = elim (Bool-cases (p x)) [
  | inl kept ↦
      rw kept (
        k.0,
        All-select p (λ y. (pk x == pk y) ≡ false) xs k.1,
        Keyed-select pk descending p xs k.2,
      )
  | inr left ↦ rw left (Keyed-select pk descending p xs k.2)
]

length-select {ℓ} : {A : Type ℓ} (p : A → Bool) (xs : List A) → length (select p xs) ≤ length xs
length-select p [] = omega arith
length-select p (x ∷ xs) = ground (arith, length-select p xs)

-- A job that the client asked for: of the tenant, with the status if one is given.
abbrev pub Asked : (tenant_id : String) → (status : Option String) → Job → Type 0
Asked tenant_id none j = j.tenant_id ≡ tenant_id
Asked tenant_id (some status) j = (j.tenant_id ≡ tenant_id) × (status_text j.status ≡ status)

listed-Asked :
    (tenant_id : String) (status : Option String) (j : Job)
    → (j.tenant_id == tenant_id && has_status status j) ≡ true
    → Asked tenant_id status j
listed-Asked tenant_id none j h = ground (arith, eq_iff j.tenant_id tenant_id)
listed-Asked tenant_id (some s) j h =
    (ground (arith, eq_iff j.tenant_id tenant_id), ground (arith, eq_iff (status_text j.status) s))

Asked-listed :
    (tenant_id : String) (status : Option String) (j : Job)
    → Asked tenant_id status j
    → (j.tenant_id == tenant_id && has_status status j) ≡ true
Asked-listed tenant_id none j h = ground (arith, eq_iff j.tenant_id tenant_id)
Asked-listed tenant_id (some s) j (h, k) =
    ground (arith, eq_iff j.tenant_id tenant_id, eq_iff (status_text j.status) s)

All-self : (xs : List Job) → All (λ x. Memᴰ x xs) xs
All-self [] = tt
All-self (x ∷ xs) =
    (Memᴰ.head refl, All-map _ (λ y. Memᴰ y (x ∷ xs)) xs (λ y m. Memᴰ.tail m) (All-self xs))

-- A client that follows the tokens of the job listing gets, in at most one request more than there
-- are jobs, a list of jobs in strictly descending order of their ids, which has a job exactly if it
-- is stored, of the tenant, and with the status where one is asked for.
pub all_pages-list_jobs :
    (jobs : List Job) (tenant_id : String) (status : Option String) (page_size n : ℕ)
    → Keyed (λ j. j.job_id) true jobs
    → page_size ≢ 0
    → length jobs ≤ n
    → (got : List Job) × (all_pages
          (λ token. list_jobs jobs tenant_id page_size token status)
          (n + 1)
          none
        ≡ some got)
      × Sorted (λ x y. text_lt y.job_id x.job_id) got
      × ((j : Job) → Memᴰ j got ↔ (Memᴰ j jobs × Asked tenant_id status j))
unfolding list_jobs
all_pages-list_jobs jobs tenant_id status page_size n keyed filled enough =
    let by : Job → String = λ j. j.job_id in
    let wanted : Job → Bool = λ j. j.tenant_id == tenant_id && has_status status j in
    let some_keyed = Keyed-select by true wanted jobs keyed in
    (
      ordered by true (jobs_listed tenant_id status jobs),
      all_pages-paginate_keyset (jobs_listed tenant_id status jobs) by true page_size n some_keyed
          filled (omega (arith, enough, length-select wanted jobs)),
      ordered-InOrder by true (jobs_listed tenant_id status jobs) some_keyed,
      λ j. (
        λ m.
            let selected =
              All-Memᴰ (λ x. Memᴰ x (jobs_listed tenant_id status jobs)) _ j
                (All-sort_by _ (λ x. Memᴰ x (jobs_listed tenant_id status jobs))
                  (jobs_listed tenant_id status jobs) (All-self _))
                m in
            let (there, h) = Memᴰ-select wanted jobs j selected in
            (there, listed-Asked tenant_id status j h),
        λ h.
            Memᴰ-sort_by _ j (jobs_listed tenant_id status jobs)
              (Memᴰ-select-of wanted j jobs h.0 (Asked-listed tenant_id status j h.1)),
      ),
    )
