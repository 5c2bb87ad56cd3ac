-- ===== src/Queue/Quarantine.antt =====
-- Refused submissions: they always end, they are answered `stale` or `duplicate`, and they leave
-- the jobs and the runs alone.
use verifier_ci.Prelude.{
  ℕ, ◌<◌, ◌≡◌, ◌≢◌, refl, sym, ap, ◌∙◌, true, false, ◌&&◌, Option, none, some, List, [], ◌∷◌, arith,
  inl, inr, any,
}
use verifier_ci.Prelude.Tables.{update_where}
use verifier_ci.Errors.{ErrorClass}
use verifier_ci.Models.Job.{Key, Job, is_terminal}
use verifier_ci.Models.Attempt.{EvaluationAttempt}
use verifier_ci.Models.Attempt.Validation.{check_row}
use verifier_ci.Queue.Database.{Database, AttemptRow, ok, err, find_job, is_rejected, link_holds}
use verifier_ci.Queue.Lease.{mark_running, heartbeat, require_lease}
use verifier_ci.Queue.Complete.{
  Verdict, complete, complete_row, mark_attempt_stale, stale_row, is_open_attempt,
  valid_artifact_digest, lease_is_dead,
}
use verifier_ci.Queue.Claims.{HasUniqueJobs}
use verifier_ci.Queue.Operations.{complete-ok, complete_row-ok, commit_attempt-ok}
use verifier_ci.Queue.History.{Reach, Reach-job}
use verifier_ci.Queue.Fencing.{complete-committed}

valid_digest-link :
    (db : Database) (old new : Option Key)
    → link_holds db.artifacts old (valid_artifact_digest db new) ≡ true
valid_digest-link db old none = ground arith
valid_digest-link db old (some d) = ground arith

stale_is_allowed :
    (db : Database) (attempt : EvaluationAttempt) (now : ℕ) (attempts : List AttemptRow)
    → any (λ a. is_open_attempt attempt a && is_rejected db (stale_row db attempt now) a) attempts
      ≡ false
unfolding check_row
stale_is_allowed db attempt now [] = refl
stale_is_allowed db attempt now (a ∷ attempts) = ground (
  arith,
  stale_is_allowed db attempt now attempts,
  valid_digest-link db a.stdout_hash attempt.stdout_hash,
  valid_digest-link db a.stderr_hash attempt.stderr_hash,
  valid_digest-link db a.report_digest attempt.report_digest,
)

-- Evidence of a refused submission can always be written.
mark_attempt_stale-total :
    (attempt : EvaluationAttempt) (now : ℕ) (db : Database)
    → mark_attempt_stale attempt now db
      ≡ ok (record db {
        attempts = update_where (is_open_attempt attempt) (stale_row db attempt now) db.attempts;
      })
unfolding mark_attempt_stale
mark_attempt_stale-total attempt now db = rw (stale_is_allowed db attempt now db.attempts)

-- If `complete` answers anything but `committed`, no job and no run has changed.
pub complete-refused :
    (job : Job) (attempt : EvaluationAttempt) (now : ℕ) (db db' : Database) (v : Verdict)
    → complete job attempt now db ≡ ok (v, db')
    → v ≢ Verdict.committed
    → (db'.jobs ≡ db.jobs) × (db'.runs ≡ db.runs)
complete-refused job attempt now db db' v h refused =
    let (row, found, e) = complete-ok job attempt now db db' v h in
    elim (complete_row-ok row job attempt now db db' v e) [
      | inl (accepted, done) ↦ absurd (refused (commit_attempt-ok job attempt now db db' v done).0)
      | inr (_, inl same) ↦ (ap (λ (d : Database). d.jobs) same, ap (λ (d : Database). d.runs) same)
      | inr (_, inr marked) ↦
          let kept : db' ≡ record db {
            attempts =
                update_where (is_open_attempt attempt) (stale_row db attempt now) db.attempts;
          } =
            cc (marked, mark_attempt_stale-total attempt now db) in
          (ap (λ (d : Database). d.jobs) kept, ap (λ (d : Database). d.runs) kept)
    ]

-- A stored job that is not terminal and whose fence, token, current attempt or expiry is not the
-- submission's: `complete` commits the transaction with the answer `stale`, and leaves every job
-- and every run as it was.
pub complete-dead_lease :
    (job : Job) (attempt : EvaluationAttempt) (now : ℕ) (db : Database) (row : Job)
    → find_job job.job_id db.jobs ≡ some row
    → is_terminal row.state ≡ false
    → lease_is_dead job attempt now row ≡ true
    → (db' : Database) × (complete job attempt now db ≡ ok (Verdict.stale, db'))
      × (db'.jobs ≡ db.jobs)
      × (db'.runs ≡ db.runs)
unfolding complete complete_row
complete-dead_lease job attempt now db row found open_job dead = (
  record db {
    attempts = update_where (is_open_attempt attempt) (stale_row db attempt now) db.attempts;
  },
  ground (arith, mark_attempt_stale-total attempt now db),
  refl,
  refl,
)

-- A submission under a fence that the stored job is past is dead.
past_fence-dead :
    (job : Job) (attempt : EvaluationAttempt) (now : ℕ) (row : Job)
    → job.fence < row.fence
    → lease_is_dead job attempt now row ≡ true
unfolding lease_is_dead
past_fence-dead job attempt now row h = ground arith

-- Provided that job identifiers are unique, once the stored fence of a job is greater than the one
-- that a worker holds, then after any history `complete` by that worker, with any attempt and at any
-- time, does not answer `committed`, and `mark_running` and `heartbeat` raise LeaseLost.
pub Reach-past_fence :
    (db db' : Database) (job row : Job) (attempt : EvaluationAttempt) (now extension : ℕ)
    → HasUniqueJobs db
    → find_job job.job_id db.jobs ≡ some row
    → job.fence < row.fence
    → Reach db db'
    → ((after : Database) → complete job attempt now db' ≢ ok (Verdict.committed, after))
      × (mark_running job now db' ≡ err ErrorClass.lease_lost)
      × (heartbeat job now extension db' ≡ err ErrorClass.lease_lost)
unfolding mark_running heartbeat require_lease
Reach-past_fence db db' job row attempt now extension u found past r =
    let (row', found', adv) = Reach-job db db' job.job_id row u r found in
    let ahead : job.fence < row'.fence = omega (arith, adv.fence_grows) in
    (
      λ after h.
          let (row'', a, c) = complete-committed job attempt now db' after h in
          let same : row'' ≡ row' = cc (c.found, found') in
          let e : row'.fence ≡ job.fence = ap (λ (j : Job). j.fence) (sym same) ∙ c.same_fence in
          omega arith,
      ground arith,
      ground arith,
    )
