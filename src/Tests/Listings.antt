-- ===== src/Tests/Listings.antt =====
-- A listing of three jobs in pages of two, and an upload in two chunks.
use scene_api.Base.{String, ◌≡◌, refl, ◌↔◌, true, none, some, List, [], ◌∷◌, arith, Sorted, text_lt}
use scene_api.Pagination.{paginate_sequence, paginate_keyset, all_pages, list_jobs}
use mathlib.Core.List.{Memᴰ}
use scene_api.Pagination.Pages.{all_pages-paginate_keyset}
use scene_api.Pagination.Jobs.{all_pages-list_jobs, Asked}
use scene_api.Tests.Data.{job}
use scene_api.Db.{Job, JobStatus}

abbrev ids : List String
ids = "b" ∷ "c" ∷ "a" ∷ []

first_page : paginate_keyset ids (λ id. id) 2 none true ≡ ("c" ∷ "b" ∷ [], some "b")
unfolding paginate_keyset paginate_sequence
first_page = refl

second_page : paginate_keyset ids (λ id. id) 2 (some "b") true ≡ ("a" ∷ [], none)
unfolding paginate_keyset paginate_sequence
second_page = refl

all_pages-paginate_keyset_example :
    all_pages (λ token. paginate_keyset ids (λ id. id) 2 token true) 4 none
    ≡ some ("c" ∷ "b" ∷ "a" ∷ [])
all_pages-paginate_keyset_example =
    all_pages-paginate_keyset ids (λ id. id) true 2 3
      (refl, (refl, (refl, tt)), (refl, (refl, tt), (refl, tt, tt))) (λ e. omega (arith, e))
      (omega arith)

abbrev job_of : (id tenant : String) → Job
job_of id tenant = record (job id JobStatus.pending) { tenant_id = tenant }

abbrev jobs : List Job
jobs = job_of "j1" "acme" ∷ job_of "k1" "other" ∷ job_of "j2" "acme" ∷ []

all_pages-list_jobs_example :
    (got : List Job) × (all_pages (λ token. list_jobs jobs "acme" 1 token (some "pending")) 4 none
      ≡ some got)
    × Sorted (λ x y. text_lt y.job_id x.job_id) got
    × ((j : Job) → Memᴰ j got ↔ (Memᴰ j jobs × Asked "acme" (some "pending") j))
all_pages-list_jobs_example =
    all_pages-list_jobs jobs "acme" (some "pending") 1 3
      (refl, (refl, (refl, tt)), (refl, (refl, tt), (refl, tt, tt))) (λ e. omega (arith, e))
      (omega arith)
