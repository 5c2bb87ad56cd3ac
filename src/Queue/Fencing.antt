-- ===== src/Queue/Fencing.antt =====
-- What the fence lets through: when `complete` commits, what a refused submission changes, and that
-- a holder whose fence has been passed never regains the job.
use verifier_ci.Prelude.{
  ℕ, ◌≡◌, ◌⊎◌, ◌↔◌, refl, ap, ◌∙◌, true, false, none, some, List, arith, inl, inr, ◌==◌,
}
use verifier_ci.Prelude.Tables.{find_key, find_key-update, find_key-key, update_where}
use verifier_ci.Models.Job.{Key, Job, JobState, is_terminal}
use verifier_ci.Models.Attempt.{EvaluationAttempt, Outcome, Disposition}
use verifier_ci.Queue.Database.{Database, AttemptRow, ok, find_job, find_attempt, has_id}
use verifier_ci.Queue.RunState.{update_run_state}
use verifier_ci.Queue.Lease.{lease_has_expired}
use verifier_ci.Queue.Complete.{
  Verdict, complete, terminal_job, authoritative_row, lease_is_dead, identity_agrees,
}
use verifier_ci.Queue.Evolution.{job_key}
use verifier_ci.Queue.Keeps.{update_attempts-ok}
use verifier_ci.Queue.Operations.{complete-ok, complete_row-ok, commit_attempt-ok}

-- The columns of a job that an attempt closed: it is terminal and selects the attempt, has no lease,
-- and keeps its identity, its fence and the number of its attempts.
pub record IsClosed (attempt : EvaluationAttempt) (row job : Job) : Type 0 where
  pub terminal : (job.state ≡ JobState.done) ⊎ (job.state ≡ JobState.failed)
  pub failed_on_error : (job.state ≡ JobState.failed) ↔ (attempt.outcome ≡ some Outcome.error)
  pub selected : job.selected_attempt_id ≡ some attempt.attempt_id
  pub no_token : job.lease_token ≡ none
  pub no_worker : job.worker_id ≡ none
  pub no_end : job.lease_expires_ms ≡ none
  pub same_job : job.job_id ≡ row.job_id
  pub same_run : job.run_id ≡ row.run_id
  pub same_fence : job.fence ≡ row.fence
  pub same_count : job.attempts_started ≡ row.attempts_started

-- The columns of an attempt that hold the submitted evidence.
pub record HasEvidence (attempt : EvaluationAttempt) (a : AttemptRow) : Type 0 where
  pub authoritative : a.disposition ≡ Disposition.authoritative
  pub same_outcome : a.outcome ≡ attempt.outcome
  pub same_validity : a.evaluation_validity ≡ attempt.evaluation_validity
  pub same_error : a.error_code ≡ attempt.error_code
  pub same_exit : a.exit_code ≡ attempt.exit_code
  pub same_stdout : a.stdout_hash ≡ attempt.stdout_hash
  pub same_stderr : a.stderr_hash ≡ attempt.stderr_hash
  pub same_report : a.report_digest ≡ attempt.report_digest
  pub same_collection : a.test_collection ≡ attempt.test_collection
  pub same_passed : a.tests_passed ≡ attempt.tests_passed
  pub same_failed : a.tests_failed ≡ attempt.tests_failed
  pub same_artifacts : a.artifact_digests ≡ attempt.artifact_digests
  pub same_truncated : a.capture_truncated ≡ attempt.capture_truncated

terminal_job-IsClosed :
    (attempt : EvaluationAttempt) (row : Job) → IsClosed attempt row (terminal_job attempt row)
terminal_job-IsClosed attempt row = record {
  terminal = ground arith;
  failed_on_error = (λ h. ground arith, λ h. ground arith);
  selected = refl;
  no_token = refl;
  no_worker = refl;
  no_end = refl;
  same_job = refl;
  same_run = refl;
  same_fence = refl;
  same_count = refl;
}

authoritative_row-HasEvidence :
    (attempt : EvaluationAttempt) (now : ℕ) (a : AttemptRow)
    → HasEvidence attempt (authoritative_row attempt now a)
authoritative_row-HasEvidence attempt now a = record {
  authoritative = refl;
  same_outcome = refl;
  same_validity = refl;
  same_error = refl;
  same_exit = refl;
  same_stdout = refl;
  same_stderr = refl;
  same_report = refl;
  same_collection = refl;
  same_passed = refl;
  same_failed = refl;
  same_artifacts = refl;
  same_truncated = refl;
}

-- What a commit rested on and what it wrote.
pub record Committed (job : Job) (attempt : EvaluationAttempt) (now : ℕ) (db db' : Database)
    (row : Job) (a : AttemptRow) : Type 0 where
  pub found : find_job job.job_id db.jobs ≡ some row
  pub open_job : is_terminal row.state ≡ false
  pub same_fence : row.fence ≡ job.fence
  pub same_token : row.lease_token ≡ job.lease_token
  pub unexpired : lease_has_expired row now ≡ false
  pub current : row.attempt_id ≡ some attempt.attempt_id
  pub stored : find_attempt attempt.attempt_id db.attempts ≡ some a
  pub attempt_of_job : a.job_id ≡ job.job_id
  pub attempt_of_fence : a.fence ≡ job.fence
  pub job_closed : find_job job.job_id db'.jobs ≡ some (terminal_job attempt row)
  pub jobs_written : db'.jobs ≡ update_where (has_id job.job_id) (terminal_job attempt) db.jobs
  pub attempt_stored :
      find_attempt attempt.attempt_id db'.attempts ≡ some (authoritative_row attempt now a)
  pub closed : IsClosed attempt row (terminal_job attempt row)
  pub kept : HasEvidence attempt (authoritative_row attempt now a)
  pub attempts_written :
      db'.attempts
      ≡ update_where
          (λ a. a.attempt_id == attempt.attempt_id)
          (authoritative_row attempt now)
          db.attempts

live_lease :
    (job : Job) (attempt : EvaluationAttempt) (now : ℕ) (row : Job)
    → lease_is_dead job attempt now row ≡ false
    → (row.fence ≡ job.fence)
      × (row.lease_token ≡ job.lease_token)
      × (lease_has_expired row now ≡ false)
      × (row.attempt_id ≡ some attempt.attempt_id)
unfolding lease_is_dead
live_lease job attempt now row h = ground arith

agreed :
    (job : Job) (attempt : EvaluationAttempt) (db : Database)
    → identity_agrees job attempt db ≡ true
    → (a : AttemptRow) × (find_attempt attempt.attempt_id db.attempts ≡ some a)
      × (a.job_id ≡ job.job_id)
      × (a.fence ≡ job.fence)
unfolding identity_agrees
agreed job attempt db h = ground arith

find_updated_self :
    {A : Type 0} (key : A → ℕ) (i : Key) (f : A → A) (xs : List A) (a : A)
    → ((a : A) → key (f a) ≡ key a)
    → find_key key i xs ≡ some a
    → find_key key i (update_where (λ a. key a == i) f xs) ≡ some (f a)
find_updated_self key i f xs a keeps h =
    ground (arith, find_key-update key (λ a. key a == i) f keeps i xs, find_key-key key i xs a)

abbrev attempt_key : AttemptRow → ℕ
attempt_key a = a.attempt_id

-- If `complete` answers `committed`, then the job was stored and not terminal, under the fence and
-- the token of the caller, with a lease that had not run out and with the submitted attempt as its
-- current one, and that attempt was stored for this job and fence; and afterwards the job is FAILED
-- if the outcome is `error` and DONE if not, with the attempt selected, the lease cleared and its
-- fence and count of attempts kept, the attempt is stored as authoritative with the submitted
-- evidence, and the two updates by these identities are all that is written to jobs and
-- attempts.
pub complete-committed :
    (job : Job) (attempt : EvaluationAttempt) (now : ℕ) (db db' : Database)
    → complete job attempt now db ≡ ok (Verdict.committed, db')
    → (row : Job) × (a : AttemptRow) × Committed job attempt now db db' row a
unfolding update_run_state
complete-committed job attempt now db db' h =
    let (row, found, e) = complete-ok job attempt now db db' Verdict.committed h in
    elim (complete_row-ok row job attempt now db db' Verdict.committed e) [
      | inr (refused, _) ↦ absurd (refused refl)
      | inl (accepted, done) ↦
          let (_, mid, written, last) =
            commit_attempt-ok job attempt now db db' Verdict.committed done in
          let same = update_attempts-ok _ (authoritative_row attempt now) db mid written in
          let (fence, token, alive, current) =
            live_lease job attempt now row accepted.lease_alive in
          let (a, stored, of_job, of_fence) = agreed job attempt db accepted.identity in
          let jobs' : db'.jobs ≡ update_where (has_id job.job_id) (terminal_job attempt) db.jobs =
            ap (λ (d : Database). d.jobs) last
            ∙ ap (λ (d : Database). update_where (has_id job.job_id) (terminal_job attempt) d.jobs)
                same in
          let attempts' : db'.attempts
              ≡ update_where (λ a. a.attempt_id == attempt.attempt_id)
                  (authoritative_row attempt now) db.attempts =
            ap (λ (d : Database). d.attempts) last ∙ ap (λ (d : Database). d.attempts) same in
          (
            row,
            a,
            record {
              found = found;
              open_job = accepted.not_terminal;
              same_fence = fence;
              same_token = token;
              unexpired = alive;
              current = current;
              stored = stored;
              attempt_of_job = of_job;
              attempt_of_fence = of_fence;
              job_closed =
                  ap (find_job job.job_id) jobs'
                  ∙ find_updated_self job_key job.job_id (terminal_job attempt) db.jobs row
                      (λ j. refl) found;
              jobs_written = jobs';
              attempt_stored =
                  ap (find_attempt attempt.attempt_id) attempts'
                  ∙ find_updated_self attempt_key attempt.attempt_id (authoritative_row attempt now)
                      db.attempts a (λ b. refl) stored;
              closed = terminal_job-IsClosed attempt row;
              kept = authoritative_row-HasEvidence attempt now a;
              attempts_written = attempts';
            },
          )
    ]
