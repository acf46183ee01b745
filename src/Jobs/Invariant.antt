-- ===== src/Jobs/Invariant.antt =====
-- internal/server/export_jobs.go: the invariant of the manager and its goroutines, and the changes
-- of a job that the actions are made of.
use vmgather.Prelude.{
  ℕ, ◌+◌, ◌≤◌, ◌≡◌, refl, sym, ◌∙◌, ap, inl, inr, Bool, true, false, List, Option, none, some, Text,
  text_eq, text_eq_iff, lookup, insert, lookup-insert, Bool-cases, arith, if◌then◌else◌, subst,
}
use vmgather.Prelude.Maps.{Separated}
use vmgather.Jobs.Defs.{ExportJob, ExportJobManager, ExportJobState, pending, running, is_finished}
use vmgather.Jobs.Manager.{cleanup_locked}
use vmgather.Jobs.World.{Phase, spawned, exporting}
use vmgather.Jobs.Records.{
  KeysDiffer, state_of, weight, count_unfinished, count_unfinished-insert,
  count_unfinished-remove_expired, insert-KeysDiffer, remove_expired-KeysDiffer, unless_expired,
  lookup-remove_expired,
}

-- A job has a goroutine that is not yet at `markRunning` when it is pending, one inside
-- `ExecuteExport` when it is running, and none when it is over.
abbrev pub matches : Option Phase → Option ExportJobState → Bool
matches (some spawned) (some pending) = true
matches (some (exporting b m)) (some running) = true
matches (some p) _ = false
matches none none = true
matches none (some s) = is_finished s

pub record IsSound (m : ExportJobManager) (workers : List (Text × Phase)) : Type 0 where
  pub unique : Separated KeysDiffer m.jobs
  pub matched : (id : Text) → matches (lookup id workers) (state_of (lookup id m.jobs)) ≡ true
  pub counted : m.active_jobs ≡ count_unfinished m.jobs
  pub capped : m.active_jobs ≤ m.max_concurrent_jobs

matches-unless_expired :
    (p : Option Phase) (job : Option ExportJob) (retention now : ℕ)
    → matches p (state_of job) ≡ true
    → matches p (state_of (unless_expired retention now job)) ≡ true
matches-unless_expired none none r n h = refl
matches-unless_expired none (some job) r n h = ground arith
matches-unless_expired (some spawned) none r n h = cc
matches-unless_expired (some (exporting b m)) none r n h = cc
matches-unless_expired (some spawned) (some job) r n h = ground arith
matches-unless_expired (some (exporting b m)) (some job) r n h = ground arith

pub cleanup_locked-IsSound :
    (m : ExportJobManager) (workers : List (Text × Phase)) (now : ℕ)
    → IsSound m workers
    → IsSound (cleanup_locked m now) workers
unfolding cleanup_locked
cleanup_locked-IsSound m workers now v = record {
  unique = remove_expired-KeysDiffer m.retention now m.jobs v.unique;
  matched = λ id. rw (lookup-remove_expired id m.retention now m.jobs v.unique) (
      matches-unless_expired (lookup id workers) (lookup id m.jobs) m.retention now (v.matched id));
  counted = v.counted ∙ sym (count_unfinished-remove_expired m.retention now m.jobs);
  capped = v.capped;
}

-- One job is written, and its goroutine's phase with it.
pub put-IsSound :
    (m : ExportJobManager) (ws ws' : List (Text × Phase)) (k : Text) (job : ExportJob)
    (p : Option Phase) (n : ℕ)
    → IsSound m ws
    → ((id : Text) → lookup id ws' ≡ (if text_eq k id then p else lookup id ws))
    → matches p (some job.status.state) ≡ true
    → n + weight (lookup k m.jobs) ≡ m.active_jobs + weight (some job)
    → n ≤ m.max_concurrent_jobs
    → IsSound (record m { jobs = insert k job m.jobs; active_jobs = n }) ws'
put-IsSound m ws ws' k job p n v e h c b = record {
  unique = insert-KeysDiffer k job m.jobs v.unique;
  matched = λ id. elim (Bool-cases (text_eq k id)) [
    | inl t ↦ rw (e id, lookup-insert k id job m.jobs) (rw t h)
    | inr t ↦ rw (e id, lookup-insert k id job m.jobs) (rw t (v.matched id))
  ];
  counted = omega (arith, count_unfinished-insert k job m.jobs, v.counted);
  capped = b;
}

same_worker :
    (ws : List (Text × Phase)) (k id : Text)
    → lookup id ws ≡ (if text_eq k id then lookup k ws else lookup id ws)
same_worker ws k id = elim (Bool-cases (text_eq k id)) [
  | inl t ↦ rw t (ap (λ j. lookup j ws) (sym ((text_eq_iff k id).0 t)))
  | inr t ↦ rw t
]

-- A job that is replaced by one in the same state, with no change of goroutine.
pub same_state-IsSound :
    (m : ExportJobManager) (ws : List (Text × Phase)) (k : Text) (old job : ExportJob)
    → IsSound m ws
    → lookup k m.jobs ≡ some old
    → job.status.state ≡ old.status.state
    → IsSound (record m { jobs = insert k job m.jobs }) ws
same_state-IsSound m ws k old job v e s =
    put-IsSound m ws ws k job (lookup k ws) m.active_jobs v (same_worker ws k)
      (rw s (subst (λ o. matches (lookup k ws) (state_of o) ≡ true) e (v.matched k))) (rw (e, s))
      v.capped
