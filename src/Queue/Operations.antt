-- ===== src/Queue/Operations.antt =====
-- Each other operation of jobs.py that commits keeps what `Keeps` says.
use verifier_ci.Prelude.{
  ℕ, ◌+◌, ◌≡◌, ◌≢◌, refl, true, false, Option, some, arith, inl, inr, ◌⊎◌, ◌==◌, Bool-cases, subst,
  sym, ap, ◌∙◌, if◌then◌else◌,
}
use verifier_ci.Models.Job.{Key, Job, JobState, is_active, is_terminal}
use verifier_ci.Models.Attempt.{EvaluationAttempt}
use verifier_ci.Queue.Database.{Database, ok, find_job, update_jobs, update_attempts, has_id}
use verifier_ci.Queue.RunState.{update_run_state}
use verifier_ci.Queue.Evolution.{Advance}
use verifier_ci.Queue.Keeps.{
  Keeps, Keeps-refl, Keeps-trans, update_row-Keeps, update_runs-Keeps, update_run_state-Keeps,
  update_attempts-Keeps, update_attempts-ok,
}
use verifier_ci.Queue.Claim.{fail_pending}
use verifier_ci.Queue.Claims.{fail_pending-Keeps}
use verifier_ci.Queue.Lease.{
  mark_running, heartbeat, require_lease, is_claimed, lease_has_expired, differs_if_known,
}
use verifier_ci.Queue.Complete.{
  Verdict, complete, complete_row, complete_terminal, commit_attempt, mark_attempt_stale,
  terminal_job, authoritative_row, stale_row, lease_is_dead, identity_agrees,
}
use verifier_ci.Queue.Cancel.{request_cancel, mark_cancelled}

-- What a lease that was checked amounts to.
pub record LiveLease (job : Job) (now : ℕ) (row : Job) : Type 0 where
  pub same_fence : row.fence ≡ job.fence
  pub same_token : row.lease_token ≡ job.lease_token
  pub not_expired : lease_has_expired row now ≡ false
  pub still_active : is_active row.state ≡ true

pub require_lease-LiveLease :
    (job : Job) (now : ℕ) (row : Job) → require_lease job now row ≡ ok tt → LiveLease job now row
unfolding require_lease
require_lease-LiveLease job now row h = record {
  same_fence = ground arith;
  same_token = ground arith;
  not_expired = ground arith;
  still_active = ground arith;
}

-- A committed `mark_running` found the row, checked its lease and made it RUNNING if it was not.
pub mark_running-ok :
    (job : Job) (now : ℕ) (db db' : Database) (job' : Job)
    → mark_running job now db ≡ ok (job', db')
    → (row : Job) × (find_job job.job_id db.jobs ≡ some row)
      × (require_lease job now row ≡ ok tt)
      × (db' ≡ (
          if is_claimed row.state
          then update_jobs (has_id job.job_id) (λ j. record j { state = JobState.running }) db
          else db))
unfolding mark_running
mark_running-ok job now db db' job' h = ground arith

pub heartbeat-ok :
    (job : Job) (now extension : ℕ) (db db' : Database) (job' : Job)
    → heartbeat job now extension db ≡ ok (job', db')
    → (row : Job) × (find_job job.job_id db.jobs ≡ some row)
      × (require_lease job now row ≡ ok tt)
      × (db'
          ≡ update_jobs
              (has_id job.job_id)
              (λ j. record j { lease_expires_ms = some (now + extension) })
              db)
unfolding heartbeat
heartbeat-ok job now extension db db' job' h = ground arith

-- A submission to a terminal job writes at most stale evidence.
complete_terminal-ok :
    (row : Job) (attempt : EvaluationAttempt) (now : ℕ) (db db' : Database) (v : Verdict)
    → complete_terminal row attempt now db ≡ ok (v, db')
    → (v ≢ Verdict.committed) × ((db' ≡ db) ⊎ (mark_attempt_stale attempt now db ≡ ok db'))
unfolding complete_terminal
complete_terminal-ok row attempt now db db' v h = ground arith

pub commit_attempt-ok :
    (job : Job) (attempt : EvaluationAttempt) (now : ℕ) (db db' : Database) (v : Verdict)
    → commit_attempt job attempt now db ≡ ok (v, db')
    → (v ≡ Verdict.committed)
      × (mid : Database) × (update_attempts
            (λ a. a.attempt_id == attempt.attempt_id)
            (authoritative_row attempt now)
            db
          ≡ ok mid)
      × (db'
          ≡ update_run_state job.run_id now
              (update_jobs (has_id job.job_id) (terminal_job attempt) mid))
unfolding commit_attempt
commit_attempt-ok job attempt now db db' v h = ground arith

-- What a submission under a live lease has been checked for.
pub record Accepted (job : Job) (attempt : EvaluationAttempt) (now : ℕ) (row : Job) (db : Database)
    : Type 0 where
  pub not_terminal : is_terminal row.state ≡ false
  pub lease_alive : lease_is_dead job attempt now row ≡ false
  pub same_worker : differs_if_known job.worker_id row.worker_id ≡ false
  pub identity : identity_agrees job attempt db ≡ true

pub complete_row-ok :
    (row job : Job) (attempt : EvaluationAttempt) (now : ℕ) (db db' : Database) (v : Verdict)
    → complete_row row job attempt now db ≡ ok (v, db')
    → (Accepted job attempt now row db × (commit_attempt job attempt now db ≡ ok (v, db')))
      ⊎ ((v ≢ Verdict.committed) × ((db' ≡ db) ⊎ (mark_attempt_stale attempt now db ≡ ok db')))
unfolding complete_row
complete_row-ok row job attempt now db db' v h =
    ground (arith, complete_terminal-ok row attempt now db db' v)

pub complete-ok :
    (job : Job) (attempt : EvaluationAttempt) (now : ℕ) (db db' : Database) (v : Verdict)
    → complete job attempt now db ≡ ok (v, db')
    → (row : Job) × (find_job job.job_id db.jobs ≡ some row)
      × (complete_row row job attempt now db ≡ ok (v, db'))
unfolding complete
complete-ok job attempt now db db' v h = ground arith

active-Advance :
    (row : Job) (s : JobState) (t : Option ℕ)
    → is_active row.state ≡ true
    → Advance row (record row { state = s; lease_expires_ms = t })
active-Advance row s t live = ground arith

terminal_job-Advance :
    (attempt : EvaluationAttempt) (row : Job)
    → is_terminal row.state ≡ false
    → Advance row (terminal_job attempt row)
terminal_job-Advance attempt row open_job = ground arith

pub mark_running-Keeps :
    (job : Job) (now : ℕ) (db db' : Database) (job' : Job)
    → mark_running job now db ≡ ok (job', db')
    → Keeps db db'
mark_running-Keeps job now db db' job' h =
    let (row, found, checked, e) = mark_running-ok job now db db' job' h in
    let live = require_lease-LiveLease job now row checked in
    subst (Keeps db) (sym e) (elim (Bool-cases (is_claimed row.state)) [
      | inl first ↦ rw first (
          update_row-Keeps job.job_id (has_id job.job_id)
            (λ j. record j { state = JobState.running }) db row (λ j. refl) (λ j t. ground arith)
            found (active-Advance row JobState.running row.lease_expires_ms live.still_active))
      | inr again ↦ rw again (Keeps-refl db)
    ])

pub heartbeat-Keeps :
    (job : Job) (now extension : ℕ) (db db' : Database) (job' : Job)
    → heartbeat job now extension db ≡ ok (job', db')
    → Keeps db db'
heartbeat-Keeps job now extension db db' job' h =
    let (row, found, checked, e) = heartbeat-ok job now extension db db' job' h in
    let live = require_lease-LiveLease job now row checked in
    subst (Keeps db) (sym e) (
      update_row-Keeps job.job_id (has_id job.job_id)
        (λ j. record j { lease_expires_ms = some (now + extension) }) db row (λ j. refl)
        (λ j t. ground arith) found
        (active-Advance row row.state (some (now + extension)) live.still_active))

mark_attempt_stale-Keeps :
    (attempt : EvaluationAttempt) (now : ℕ) (db db' : Database)
    → mark_attempt_stale attempt now db ≡ ok db'
    → Keeps db db'
unfolding mark_attempt_stale
mark_attempt_stale-Keeps attempt now db db' h =
    update_attempts-Keeps _ (stale_row db attempt now) db db' (λ a. refl) h

commit_attempt-Keeps :
    (job row : Job) (attempt : EvaluationAttempt) (now : ℕ) (db db' : Database) (v : Verdict)
    → find_job job.job_id db.jobs ≡ some row
    → is_terminal row.state ≡ false
    → commit_attempt job attempt now db ≡ ok (v, db')
    → Keeps db db'
commit_attempt-Keeps job row attempt now db db' v found open_job h =
    let (_, mid, written, e) = commit_attempt-ok job attempt now db db' v h in
    let same = update_attempts-ok _ (authoritative_row attempt now) db mid written in
    let found' : find_job job.job_id mid.jobs ≡ some row =
      ap (λ (d : Database). find_job job.job_id d.jobs) same ∙ found in
    subst (Keeps db) (sym e) (
      Keeps-trans db mid _
        (update_attempts-Keeps _ (authoritative_row attempt now) db mid (λ a. refl) written)
        (Keeps-trans mid _ _
          (update_row-Keeps job.job_id (has_id job.job_id) (terminal_job attempt) mid row
            (λ j. refl) (λ j t. ground arith) found' (terminal_job-Advance attempt row open_job))
          (update_run_state-Keeps job.run_id now _)))

pub complete-Keeps :
    (job : Job) (attempt : EvaluationAttempt) (now : ℕ) (db db' : Database) (v : Verdict)
    → complete job attempt now db ≡ ok (v, db')
    → Keeps db db'
complete-Keeps job attempt now db db' v h =
    let (row, found, e) = complete-ok job attempt now db db' v h in
    elim (complete_row-ok row job attempt now db db' v e) [
      | inl (accepted, committed) ↦
          commit_attempt-Keeps job row attempt now db db' v found accepted.not_terminal committed
      | inr (_, inl same) ↦ subst (Keeps db) (sym same) (Keeps-refl db)
      | inr (_, inr marked) ↦ mark_attempt_stale-Keeps attempt now db db' marked
    ]

pub request_cancel-Keeps :
    (run : Key) (now : ℕ) (db db' : Database)
    → request_cancel run now db ≡ ok (tt, db')
    → Keeps db db'
unfolding request_cancel
request_cancel-Keeps run now db db' h = subst (Keeps db) done (
    Keeps-trans db (mark_cancelled run db) _
      (update_runs-Keeps _ _ db (λ r. refl)
        (λ r. record {
          same_manifest = refl;
          cancel_stays = λ _. refl;
          state_stays = λ _. refl;
          finish_stays = λ _. refl;
        }))
      (Keeps-trans (mark_cancelled run db) (fail_pending run (mark_cancelled run db)) _
        (fail_pending-Keeps run (mark_cancelled run db)) (update_run_state-Keeps run now _)))
  where
    done : update_run_state run now (fail_pending run (mark_cancelled run db)) ≡ db'
    done = cc
