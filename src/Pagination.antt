-- ===== src/Pagination.antt =====
-- sceneapi/server/db/pagination.py, and the listing of jobs in services/job_service.py that uses it.
-- The statement that is paginated is the list of the rows that its filters leave.
pub mod Jobs
pub mod Keys
pub mod Pages
use scene_api.Base.{
  ℕ, zero, suc, ◌+◌, ◌-◌, String, Bool, true, not, ◌&&◌, Option, none, some, List, [], ◌∷◌, ◌++◌,
  ◌==◌, ltb, eqb, if◌then◌else◌, length, select, sort_by, text_lt,
}
use scene_api.Db.{Job, JobStatus}

-- `xs[:n]`
abbrev pub take {ℓ} : {A : Type ℓ} → ℕ → List A → List A
take zero xs = []
take (suc n) [] = []
take (suc n) (x ∷ xs) = x ∷ take n xs

-- `xs[n]`
abbrev pub get_elem? {ℓ} : {A : Type ℓ} → List A → ℕ → Option A
get_elem? [] n = none
get_elem? (x ∷ xs) zero = some x
get_elem? (x ∷ xs) (suc n) = get_elem? xs n

-- The first text comes before the second in the order of the statement.
abbrev pub ahead : (descending : Bool) → String → String → Bool
ahead descending a b = if descending then text_lt b a else text_lt a b

module _ {ℓ} {A : Type ℓ} where
  -- `xs[page_size - 1]`, where -1 is the last
  abbrev pub last_of_page : (page_size : ℕ) → List A → Option A
  last_of_page page_size xs =
      if eqb page_size 0 then get_elem? xs (length xs - 1) else get_elem? xs (page_size - 1)

  abbrev token_of : (A → String) → Option A → Option String
  token_of token_for none = none
  token_of token_for (some x) = some (token_for x)

  unfoldable pub paginate_sequence :
      (rows : List A) (page_size : ℕ) (token_for : A → String) → List A × Option String
  paginate_sequence rows page_size token_for =
      let page = take (page_size + 1) rows in
      if ltb page_size (length page)
      then (take page_size page, token_of token_for (last_of_page page_size page))
      else (page, none)

  -- `order_by`
  abbrev pub ordered : (pk : A → String) (descending : Bool) → List A → List A
  ordered pk descending rows = sort_by (λ x y. not (ahead descending (pk y) (pk x))) rows

  -- `if page_token: stmt.where(...)`
  abbrev pub beyond : (pk : A → String) (descending : Bool) → Option String → List A → List A
  beyond pk descending none rows = rows
  beyond pk descending (some token) rows =
      if token == "" then rows else select (λ x. ahead descending token (pk x)) rows

  unfoldable pub paginate_keyset :
      (rows : List A) (pk : A → String) (page_size : ℕ) (page_token : Option String)
      (descending : Bool)
      → List A × Option String
  paginate_keyset rows pk page_size page_token descending =
      paginate_sequence (beyond pk descending page_token (ordered pk descending rows)) page_size pk

-- What a client has that follows the tokens until there is none, in at most `n` requests.
abbrev pub followed {ℓ} : {A : Type ℓ} → List A → Option (List A) → Option (List A)
followed page none = none
followed page (some rest) = some (page ++ rest)

abbrev pub asked {ℓ} :
    {A : Type ℓ} → (Option String → Option (List A)) → List A × Option String → Option (List A)
asked more (page, none) = some page
asked more (page, some token) = followed page (more (some token))

unfoldable pub all_pages {ℓ} :
    {A : Type ℓ} → (Option String → List A × Option String) → ℕ → Option String → Option (List A)
all_pages ask zero token = none
all_pages ask (suc n) token = asked (λ t. all_pages ask n t) (ask token)

abbrev pub status_text : JobStatus → String
status_text JobStatus.pending = "pending"
status_text JobStatus.succeeded = "succeeded"
status_text JobStatus.failed = "failed"
status_text JobStatus.cancelled = "cancelled"
status_text JobStatus.cancelled_dirty = "cancelled_dirty"

abbrev pub has_status : Option String → Job → Bool
has_status none j = true
has_status (some status) j = status_text j.status == status

-- The rows that the filters of `list_jobs` leave.
abbrev pub jobs_listed : (tenant_id : String) (status : Option String) → List Job → List Job
jobs_listed tenant_id status jobs =
    select (λ j. j.tenant_id == tenant_id && has_status status j) jobs

unfoldable pub list_jobs :
    (jobs : List Job) (tenant_id : String) (page_size : ℕ) (page_token status : Option String)
    → List Job × Option String
list_jobs jobs tenant_id page_size page_token status =
    paginate_keyset (jobs_listed tenant_id status jobs) (λ j. j.job_id) page_size page_token true
