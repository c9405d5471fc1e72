-- ===== src/Google/TransferJobs.antt =====
-- google/storeutils/transfer.go: the jobs of the service storagetransfer/v1, whose calls are a record.
pub mod Paging
use cloudstorage.Base.{
  ℕ, zero, suc, ◌+◌, ◌-◌, ◌*◌, ◌/◌, ◌%◌, ◌^◌, ◌≤◌, ◌<◌, ◌≡◌, refl, sym, ap, ◌∙◌, ◌≢◌, ◌↔◌, ◌⊎◌, inl,
  inr, Bool, true, false, not, ◌&&◌, ◌||◌, Option, none, some, List, [], ◌∷◌, ◌++◌, map, arith,
  Bool-cases, Option-cases, present, Str, String, lit, str_eq, str_eq_iff, str_eq_refl, ltb, leb,
  ◌==◌, ==_iff, if◌then◌else◌, length, take, drop, keep, All, get_elem?, length-append, length-drop,
  drop-nil, Err, object_not_found, object_exists, iterator_done, canceled, deadline_exceeded,
  not_exist, exist, file_closed, bad_handle, eof, io, message, Outcome, ok, fail, Act, return,
  throw, attempt, ◌>>=◌, ◌>>◌, proceed, proceed-eq-ok, Outcome-cases, deferring, quietly,
  describing, described, proceed-ok,
}

-- Status
pub data Status : Type 0 where
  enabled disabled unspecified deleted : Status

-- storagetransfer.Date and Schedule
pub record Date : Type 0 where
  pub day : ℕ
  pub month : ℕ
  pub year : ℕ

pub record Schedule : Type 0 where
  pub start_date : Date
  pub end_date : Date

pub record ObjectConditions : Type 0 where
  pub include_prefixes : List Str
  pub exclude_prefixes : List Str

-- GcsSource, HttpSource and AwsSource
pub data Source : Type 0 where
  gcs_source : Str → Source
  http_source : Str → Source
  aws_source : Str → Str → Str → Source

-- storagetransfer.TransferSpec; the field that is set of its three sources is `source`.
pub record TransferSpec : Type 0 where
  pub sink : Str
  pub source : Source
  pub conditions : Option ObjectConditions

pub record TransferJob : Type 0 where
  pub project_id : Str
  pub status : Status
  pub spec : TransferSpec
  pub schedule : Option Schedule
  pub description : Str

-- String of a source
unfoldable pub source_name : Source → Str
source_name (gcs_source bucket) = bucket
source_name (http_source url) = url
source_name (aws_source bucket access_key secret) = bucket

-- TransferSpec of a source, on newTransferSpec
abbrev pub transfer_spec : Source → Str → TransferSpec
transfer_spec source sink = record { sink = sink; source = source; conditions = none }

-- TransferConfig
pub record TransferConfig : Type 0 where
  pub project_id : Str
  pub dest_bucket : Str
  pub src : Option Source
  pub include_prefixes : List Str
  pub exclude_prefixes : List Str
  pub schedule : Option Schedule

-- MaxPrefix, ErrBadConfig and ErrBadFilter
abbrev pub max_prefix : ℕ
max_prefix = 20

abbrev pub bad_config : Err
bad_config = message "transferconfig not valid"

abbrev pub bad_filter : Err
bad_filter = message "too many inclusion/exclusion prefixes"

abbrev new_transfer_job : Str → Str → TransferSpec → Option Schedule → TransferJob
new_transfer_job project description spec sched = record {
  project_id = project;
  status = enabled;
  spec = spec;
  schedule = sched;
  description = description;
}

-- oneTimeJobSchedule, on the date that toDate makes of a time
abbrev pub one_time_job_schedule : Date → Schedule
one_time_job_schedule date = record { start_date = date; end_date = date }

-- The file filters are set if there are any.
with_filters : List Str → List Str → TransferSpec → TransferSpec
with_filters include exclude spec =
    if ltb 0 (length include) || ltb 0 (length exclude)
    then record spec {
      conditions = some (record { include_prefixes = include; exclude_prefixes = exclude });
    }
    else spec

-- The variable `schedule` of Job, on today's date: it is set only if the field is nil.
job_schedule : Date → Option Schedule → Option Schedule
job_schedule today none = some (one_time_job_schedule today)
job_schedule today (some given) = none

described_job : Date → TransferConfig → Source → TransferJob
unfolding source_name with_filters job_schedule
described_job today t src =
    new_transfer_job t.project_id (t.dest_bucket ++ lit "_" ++ source_name src ++ lit "_transfer")
      (with_filters t.include_prefixes t.exclude_prefixes (transfer_spec src t.dest_bucket))
      (job_schedule today t.schedule)

job_from : Date → TransferConfig → Option Source → Outcome TransferJob
unfolding described_job
job_from today t none = fail bad_config
job_from today t (some src) =
    if str_eq t.dest_bucket []
    then fail bad_config
    else if ltb max_prefix (length t.include_prefixes) || ltb max_prefix (length t.exclude_prefixes)
    then fail bad_filter
    else ok (described_job today t src)

-- Job
unfoldable pub job : Date → TransferConfig → Outcome TransferJob
unfolding job_from
job today t = job_from today t t.src

-- ListTransferJobsResponse
pub record ListResponse : Type 0 where
  pub transfer_jobs : List TransferJob
  pub next_page_token : Str

-- The calls of TransferJobsService; `list` takes the filter and the token of the page, if it was set.
pub record TransferJobsService (J : Type 0) : Type 0 where
  pub list : Str → Option Str → Act J ListResponse
  pub get : Str → Str → Act J TransferJob
  pub create : TransferJob → Act J TransferJob

module _ {J : Type 0} (svc : TransferJobsService J) where
  -- The token is sent if it is not empty.
  abbrev pub page_token : Str → Option Str
  page_token [] = none
  page_token (c ∷ token) = some (c ∷ token)

  -- What a pass does behind the call; `again` is the next pass.
  turn_token :
      (Str → List TransferJob → Act J (List TransferJob))
      → List TransferJob
      → Str
      → Act J (List TransferJob)
  turn_token again jobs [] = return jobs
  turn_token again jobs (c ∷ token) = again (c ∷ token) jobs

  -- `for { … }` on fuel; running out of it is an error of its own.
  list_loop : ℕ → Str → Str → List TransferJob → Act J (List TransferJob)
  unfolding turn_token
  list_loop zero filter token jobs = throw (message "out of fuel")
  list_loop (suc fuel) filter token jobs = do
    resp ← svc.list filter (page_token token)
    turn_token (list_loop fuel filter) (jobs ++ resp.transfer_jobs) resp.next_page_token

  -- List, with the filter that json.Marshal gives
  unfoldable pub list_jobs : ℕ → Outcome Str → Act J (List TransferJob)
  unfolding list_loop
  list_jobs fuel (fail e) = throw e
  list_jobs fuel (ok filter) = list_loop fuel filter [] []

  -- GetJob
  abbrev pub get_job : Str → Str → Act J TransferJob
  get_job project name = svc.get project name

  -- NewTransfer
  unfoldable pub new_transfer : Date → TransferConfig → Act J TransferJob
  unfolding job
  new_transfer today conf = elim (job today conf) [ fail e ↦ throw e | ok j ↦ svc.create j ]
