-- ===== src/Google/TransferJobs/Paging.antt =====
-- List and NewTransfer of google/storeutils/transfer.go.
use cloudstorage.Base.{
  ℕ, suc, ◌+◌, ◌≤◌, ◌≡◌, refl, ◌≢◌, ◌⊎◌, inl, inr, ◌||◌, none, some, List, [], ◌∷◌, ◌++◌, arith,
  Bool-cases, Option-cases, Str, str_eq, str_eq_iff, ltb, ◌==◌, if◌then◌else◌, length, Err, Outcome,
  ok, fail,
}
use mathlib.Core.List.{append_assoc}
use cloudstorage.Google.TransferJobs.{
  TransferJob, TransferJobsService, page_token, turn_token, list_loop, list_jobs, TransferConfig,
  Source, Date, max_prefix, bad_config, bad_filter, job_from, job, new_transfer, described_job,
  Schedule, job_schedule, with_filters,
}

-- The jobs of a page in front of those of the others
abbrev pub put_before : List TransferJob → Outcome (List TransferJob) → Outcome (List TransferJob)
put_before jobs (ok rest) = ok (jobs ++ rest)
put_before jobs (fail e) = fail e

module _ {J : Type 0} (svc : TransferJobsService J) (filter : Str) where
  -- The service serves a number of pages from a token on, with their jobs; an error ends them, and
  -- so does a page without a token.
  pub data Serves : ℕ → Str → J → Outcome (List TransferJob) → J → Type 0 where
    failed :
        {token : Str} {s t : J} {e : Err}
        → svc.list filter (page_token svc token) s ≡ (fail e, t)
        → Serves 1 token s (fail e) t
    last :
        {token : Str} {s t : J} (jobs : List TransferJob)
        → svc.list filter (page_token svc token) s
          ≡ (ok (record { transfer_jobs = jobs; next_page_token = [] }), t)
        → Serves 1 token s (ok jobs) t
    page :
        {n : ℕ} {token : Str} {s v t : J} (jobs : List TransferJob) (c : ℕ) (next : Str)
        {r : Outcome (List TransferJob)}
        → svc.list filter (page_token svc token) s
          ≡ (ok (record { transfer_jobs = jobs; next_page_token = c ∷ next }), v)
        → Serves n (c ∷ next) v r t
        → Serves (suc n) token s (put_before jobs r) t

  put_before-append :
      (seen jobs : List TransferJob) (r : Outcome (List TransferJob))
      → put_before (seen ++ jobs) r ≡ put_before seen (put_before jobs r)
  put_before-append seen jobs (ok rest) = rw append_assoc refl
  put_before-append seen jobs (fail e) = refl

  list_loop-Serves :
      {n : ℕ} {token : Str} {s t : J} {r : Outcome (List TransferJob)} (seen : List TransferJob)
      → Serves n token s r t
      → list_loop svc n filter token seen s ≡ (put_before seen r, t)
  unfolding list_loop turn_token
  list_loop-Serves seen (failed h) = rw h
  list_loop-Serves seen (last jobs h) = rw h
  list_loop-Serves seen (page jobs c next {r = r} h rest) =
      rw h (rw (put_before-append seen jobs r) at (list_loop-Serves (seen ++ jobs) rest))

  put_before-nil : (r : Outcome (List TransferJob)) → put_before [] r ≡ r
  put_before-nil (ok rest) = refl
  put_before-nil (fail e) = refl

  -- With fuel for as many passes as the service serves pages, List returns the jobs of all pages in
  -- order, or the error that ended them.
  pub list_jobs-Serves :
      {n : ℕ} {s t : J} {r : Outcome (List TransferJob)}
      → Serves n [] s r t
      → list_jobs svc n (ok filter) s ≡ (r, t)
  unfolding list_jobs
  list_jobs-Serves {r = r} served = rw (put_before-nil r) at (list_loop-Serves [] served)

-- A config with a bucket, a source, and no more than twenty prefixes of a kind
abbrev pub IsComplete : TransferConfig → Type 0
IsComplete conf =
    (conf.src ≢ none)
    × (conf.dest_bucket ≢ [])
    × (length conf.include_prefixes ≤ max_prefix)
    × (length conf.exclude_prefixes ≤ max_prefix)

-- The job has the project, the bucket, the source and the prefixes of the config, and a schedule if
-- the config has none: it is one for today.
abbrev pub Fits : Date → TransferConfig → TransferJob → Type 0
Fits today conf j =
    (j.project_id ≡ conf.project_id)
    × (j.spec.sink ≡ conf.dest_bucket)
    × (some j.spec.source ≡ conf.src)
    × (j.spec.conditions ≡ (
        if length conf.include_prefixes + length conf.exclude_prefixes == 0
        then none
        else some (record {
          include_prefixes = conf.include_prefixes;
          exclude_prefixes = conf.exclude_prefixes;
        })))
    × (conf.schedule ≡ none → j.schedule ≡ some (record { start_date = today; end_date = today }))
    × ((s : Schedule) → conf.schedule ≡ some s → j.schedule ≡ none)

described_job-Fits :
    (today : Date) (conf : TransferConfig) (src : Source)
    → conf.src ≡ some src
    → Fits today conf (described_job today conf src)
unfolding described_job with_filters job_schedule
described_job-Fits today conf src e = (
  ground arith,
  ground arith,
  ground arith,
  ground arith,
  λ lacks. rw lacks refl,
  λ s has. rw has refl,
)

job-Fits :
    (today : Date) (conf : TransferConfig)
    → IsComplete conf
    → (j : TransferJob) × (job today conf ≡ ok j) × Fits today conf j
unfolding job job_from
job-Fits today conf full = elim (Option-cases conf.src) [
  | inl none_there ↦ absurd (full.0 none_there)
  | inr (src, there) ↦ (
    described_job today conf src,
    ground (arith, str_eq_iff conf.dest_bucket [], full.1),
    described_job-Fits today conf src there,
  )
]

job-incomplete :
    (today : Date) (conf : TransferConfig)
    → ¬ IsComplete conf
    → (job today conf ≡ fail bad_config) ⊎ (job today conf ≡ fail bad_filter)
unfolding job job_from
job-incomplete today conf lacks = elim (Option-cases conf.src) [
  | inl none_there ↦ inl (rw none_there)
  | inr (src, there) ↦ elim (Bool-cases (str_eq conf.dest_bucket [])) [
    | inl none_there ↦ inl (rw there (unfold job_from in rw none_there))
    | inr named ↦
        elim (Bool-cases (
          ltb max_prefix (length conf.include_prefixes)
          || ltb max_prefix (length conf.exclude_prefixes))) [
            | inl many ↦ inr (rw there (unfold job_from in rw named (rw many)))
            | inr few ↦ absurd (
                lacks (
                  λ e. ground (arith, e, there),
                  λ e. ground (arith, e, str_eq_iff conf.dest_bucket []),
                  ground arith,
                  ground arith,
                ))
          ]
  ]
]

module _ {J : Type 0} (svc : TransferJobsService J) (today : Date) (conf : TransferConfig) where
  -- NewTransfer asks the service for one job, if the config has a bucket, a source and no more than
  -- twenty prefixes of a kind. The job has what the config says but for the schedule: it is one for
  -- today if the config has none, and the job has none if the config has one. Else NewTransfer returns
  -- an error, and the service is not asked.
  pub new_transfer_lem :
      (s : J)
      → (IsComplete conf
          → (j : TransferJob) × Fits today conf j
            × (new_transfer svc today conf s ≡ svc.create j s))
        × (¬ IsComplete conf
            → (new_transfer svc today conf s ≡ (fail bad_config, s))
              ⊎ (new_transfer svc today conf s ≡ (fail bad_filter, s)))
  unfolding new_transfer
  new_transfer_lem s = (
    λ full. let (j, made, fits) = job-Fits today conf full in (j, fits, rw (new_transfer, made)),
    λ lacks. elim (job-incomplete today conf lacks) [
      | inl e ↦ inl (rw (new_transfer, e))
      | inr e ↦ inr (rw (new_transfer, e))
    ],
  )
