-- ===== src/Tests/Jobs.antt =====
-- Transfer jobs of a service with two pages.
use cloudstorage.Base.{ℕ, ◌+◌, ◌≡◌, refl, ◌⊎◌, Option, none, some, [], ◌∷◌, Str, lit, ok, fail}
use cloudstorage.Google.TransferJobs.{
  TransferJob, ListResponse, TransferJobsService, TransferConfig, gcs_source, list_jobs,
  new_transfer, enabled, transfer_spec, Date, bad_config, bad_filter,
}
use cloudstorage.Google.TransferJobs.Paging.{
  Serves, last, page, list_jobs-Serves, IsComplete, Fits, new_transfer_lem,
}

abbrev job_named : Str → TransferJob
job_named name = record {
  project_id = lit "p";
  status = enabled;
  spec = transfer_spec (gcs_source (lit "b")) (lit "d");
  schedule = none;
  description = name;
}

-- The state is the number of calls.
abbrev page_of : Option Str → ListResponse
page_of none = record { transfer_jobs = job_named (lit "x") ∷ []; next_page_token = lit "n" }
page_of (some token) = record { transfer_jobs = job_named (lit "y") ∷ []; next_page_token = [] }

abbrev two_pages : TransferJobsService ℕ
two_pages = record {
  list = λ filter token n. (ok (page_of token), n + 1);
  get = λ name project n. (ok (job_named name), n + 1);
  create = λ j n. (ok j, n + 1);
}

two_served :
    Serves two_pages (lit "{}") 2 [] 0 (ok (job_named (lit "x") ∷ job_named (lit "y") ∷ [])) 2
two_served = page (job_named (lit "x") ∷ []) 110 [] refl (last (job_named (lit "y") ∷ []) refl)

list_jobs-Serves_example :
    list_jobs two_pages 2 (ok (lit "{}")) 0
    ≡ (ok (job_named (lit "x") ∷ job_named (lit "y") ∷ []), 2)
list_jobs-Serves_example = list_jobs-Serves two_pages (lit "{}") two_served

abbrev conf : TransferConfig
conf = record {
  project_id = lit "p";
  dest_bucket = lit "d";
  src = some (gcs_source (lit "b"));
  include_prefixes = lit "a" ∷ [];
  exclude_prefixes = [];
  schedule = none;
}

abbrev today : Date
today = record { day = 1; month = 2; year = 2020 }

new_transfer_example :
    (IsComplete conf
      → (j : TransferJob) × Fits today conf j
        × (new_transfer two_pages today conf 0 ≡ two_pages.create j 0))
    × (¬ IsComplete conf
        → (new_transfer two_pages today conf 0 ≡ (fail bad_config, 0))
          ⊎ (new_transfer two_pages today conf 0 ≡ (fail bad_filter, 0)))
new_transfer_example = new_transfer_lem two_pages today conf 0
