-- ===== src/Importer/Jobs/Handlers.antt =====
-- internal/importer/server/server.go: the jobs of the server, and the requests about them.
use vmgather.Prelude.{
  ℕ, Bool, true, false, not, List, [], ◌++◌, Option, none, some, Text, codes, text_eq,
  if◌then◌else◌, lookup, insert,
}
use vmgather.Importer.Endpoints.{Method, get, post}
use vmgather.Importer.Verify.{ellipsis}
use vmgather.Importer.JobDefs.{job_queued, whole, ImportJob}
use vmgather.Importer.Jobs.{World, Run, run_import_job}

-- Go's map of the jobs by their identifiers.
abbrev pub JobTable : Type 0
JobTable = List (Text × ImportJob)

unfoldable pub store_job : ImportJob → JobTable → JobTable
unfolding insert
store_job job jobs = insert job.id job jobs

-- A snapshot of a job has its own copies of the summary and the verification, which are values here.
unfoldable pub get_job_snapshot : Text → JobTable → Option ImportJob
unfolding lookup
get_job_snapshot id jobs = lookup id jobs

-- What a request is answered with.
pub data Reply : Type 0 where
  error_reply : ℕ → Text → Reply
  job_reply : ImportJob → Reply
  resuming_reply : Text → Reply

abbrev pub is_get : Method → Bool
is_get get = true
is_get _ = false

abbrev pub is_post : Method → Bool
is_post post = true
is_post _ = false

abbrev pub not_allowed : Reply
not_allowed = error_reply 405 (codes "method not allowed")

abbrev pub no_job_id : Reply
no_job_id = error_reply 400 (codes "missing job id")

abbrev pub no_job : Reply
no_job = error_reply 404 (codes "job not found")

unfoldable pub handle_job_status : Method → Text → JobTable → Reply
unfolding get_job_snapshot text_eq
handle_job_status method id jobs =
    if not (is_get method)
    then not_allowed
    else if text_eq id []
    then no_job_id
    else elim (get_job_snapshot id jobs) [ none ↦ no_job | some job ↦ job_reply job ]

-- A job that is queued again.
unfoldable pub requeued : ImportJob → ImportJob
requeued j = record j {
  state = job_queued;
  stage = codes "queued";
  message = codes "Queued for resume" ++ ellipsis;
  percent = whole 0;
  error = [];
  resume_ready = false;
}

abbrev pub resume_of : Text → JobTable → Option ImportJob → Reply × JobTable × Option ImportJob
resume_of id jobs none = (no_job, jobs, none)
resume_of id jobs (some job) =
    if job.resume_ready
    then (resuming_reply id, insert id (requeued job) jobs, some (requeued job))
    else (error_reply 400 (codes "job is not resumable"), jobs, none)

-- The answer, the jobs, and the job that a goroutine is started for.
unfoldable pub handle_resume : Method → Text → JobTable → Reply × JobTable × Option ImportJob
unfolding lookup insert requeued text_eq
handle_resume method id jobs =
    if not (is_post method)
    then (not_allowed, jobs, none)
    else if text_eq id []
    then (no_job_id, jobs, none)
    else resume_of id jobs (lookup id jobs)

-- The run that `handleResume` starts; `base` is filepath.Base.
unfoldable pub resume_job : World → (Text → Text) → Run → Run
unfolding run_import_job requeued
resume_job world base r =
    let job = r.job in
    run_import_job world job.config job.bundle_path (base job.bundle_path) job.import_url
      job.query_url job.resume_offset (record r { job = requeued job })
