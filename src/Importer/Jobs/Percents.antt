-- ===== src/Importer/Jobs/Percents.antt =====
-- server.go of the importer: the progress that a job shows.
use vmgather.Prelude.{◌<◌, ◌≤◌, All}
use vmgather.Importer.JobDefs.{Percent, whole, streaming, ImportJob}
use vmgather.Importer.Jobs.{Run}

-- A percentage between 0 and 100; while chunks are sent it is at most 85, as no more are done than there
-- are.
abbrev pub InRange : Percent → Type 0
InRange (whole n) = n ≤ 100
InRange (streaming d t) = (0 < t) × (d ≤ t)

-- The job and the states of it that were seen.
abbrev pub AllInRange : Run → Type 0
AllInRange r = InRange r.job.percent × All (λ (j : ImportJob). InRange j.percent) r.seen
