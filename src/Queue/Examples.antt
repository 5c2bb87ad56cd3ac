-- ===== src/Queue/Examples.antt =====
-- A run of two jobs, on which the theorems about the queue are applied: one worker is granted the
-- first job, submits its result late or in time, and another is granted the second.
use verifier_ci.Prelude.{Option, ℕ, ◌≡◌, ◌≢◌, ◌+◌, refl, false, none, some, [], ◌∷◌, arith}
use verifier_ci.Errors.{ErrorClass}
use verifier_ci.Models.Job.{Key, Job, JobState}
use verifier_ci.Models.Attempt.{EvaluationAttempt, Outcome, Validity, Disposition, ResourceUsage}
use verifier_ci.Models.Attempt.Validation.{check_row}
use verifier_ci.Queue.Database.{
  Database, AttemptRow, RunRow, RunState, ok, err, out_of_fuel, after, find_job, find_attempt,
  find_run, get_job,
}
use verifier_ci.Queue.RunState.{update_run_state}
use verifier_ci.Queue.Claim.{ClaimRequest, claim, claimed_job, claimed_handle, new_attempt}
use verifier_ci.Queue.Lease.{mark_running, heartbeat}
use verifier_ci.Queue.Complete.{
  Verdict, complete, authoritative_row, mark_attempt_stale, lease_is_dead, complete_row,
  identity_agrees, commit_attempt, complete_terminal,
}
use verifier_ci.Queue.Reap.{reap_expired, abandon_attempt, effective_max_attempts}
use verifier_ci.Queue.Cancel.{request_cancel}
use verifier_ci.Queue.Evolution.{Advance}
use verifier_ci.Queue.Keeps.{RunAdvance}
use verifier_ci.Queue.History.{Reach, Step, Reach-job, Reach-authoritative, Reach-run, Reach-holder}
use verifier_ci.Queue.Fencing.{Committed, complete-committed}
use verifier_ci.Queue.Quarantine.{complete-refused, complete-dead_lease, Reach-past_fence}
use verifier_ci.Queue.Resubmission.{complete_again}
use verifier_ci.Queue.Verdicts.{Reaped, reap_expired-job}
use verifier_ci.Queue.Grants.{Granted, claim-Granted, claim_twice, claim_then_running}
use verifier_ci.Queue.Cancellation.{request_cancel-claim}
use verifier_ci.Queue.Termination.{claim-returns}

abbrev pending_job : Key → Job
pending_job k = record {
  job_id = k;
  run_id = 7;
  task_key = 20;
  case_id = 30;
  verifier_key = 40;
  repetition = 0;
  state = JobState.pending;
  fence = 0;
  attempt_id = none;
  lease_token = none;
  worker_id = none;
  lease_expires_ms = none;
  attempts_started = 0;
  selected_attempt_id = none;
  terminal_reason = none;
}

abbrev planned_run : RunRow
planned_run = record {
  run_id = 7;
  manifest_hash = 70;
  state = RunState.planned;
  cancel_requested = false;
  finished_at = none;
}

abbrev waiting : Database
waiting = record {
  jobs = pending_job 1 ∷ pending_job 2 ∷ [];
  attempts = [];
  runs = planned_run ∷ [];
  manifests = [];
  artifacts = [];
}

abbrev request : Key → ClaimRequest
request worker = record {
  worker_id = worker;
  now_ms = 1_000;
  run_id = some 7;
  lease_duration_ms = 500;
  new_attempt_id = 100 + worker;
  new_lease_token = 200 + worker;
}

-- The first job is granted to worker 1, then the second to worker 2.
abbrev taken : Database
taken = after waiting (claim (request 1) waiting)

abbrev both_taken : Database
both_taken = after taken (claim (request 2) taken)

abbrev handle : Job
handle = claimed_handle (request 1) (pending_job 1)

abbrev no_resources : ResourceUsage
no_resources = record {
  duration = none;
  allocated_cpu = none;
  cpu_seconds = none;
  peak_memory = none;
  model_usage = none;
  estimated_cost = none;
  pricing_version = none;
  bytes_written = none;
}

abbrev submission : Outcome → EvaluationAttempt
submission o = record {
  attempt_id = 101;
  job_id = 1;
  fence = 1;
  outcome = some o;
  evaluation_validity = Validity.valid;
  error_code = none;
  disposition = Disposition.active;
  started_at = 1_000;
  finished_at = none;
  exit_code = none;
  stdout_hash = none;
  stderr_hash = none;
  report_digest = none;
  test_collection = [];
  tests_passed = some 3;
  tests_failed = some 0;
  resources = no_resources;
  artifact_digests = [];
  capture_truncated = false;
}

abbrev accepted : EvaluationAttempt
accepted = submission Outcome.accept

-- Worker 1 submits in time; or too late.
abbrev finished : Database
finished = after taken (complete handle accepted 1_100 taken)

abbrev quarantined : Database
quarantined = after taken (complete handle accepted 1_500 taken)

-- The reaper takes the first job back, and worker 3 claims it.
abbrev reaped : Database
reaped = after taken (reap_expired none 1_500 taken)

abbrev taken_again : Database
taken_again = after reaped (claim (request 3) reaped)

finishing : Reach waiting finished
unfolding claim complete complete_row lease_is_dead identity_agrees commit_attempt complete_terminal
    update_run_state check_row
finishing =
    Reach.next (Reach.next Reach.here (Step.claims (request 1) (some handle) refl))
      (Step.completes handle accepted 1_100 Verdict.committed refl)

Reach-job_example : (j : Job) × (find_job 1 finished.jobs ≡ some j) × Advance (pending_job 1) j
Reach-job_example = Reach-job waiting finished 1 (pending_job 1) (refl, (refl, tt)) finishing refl

complete-committed_example :
    (row : Job) × (a : AttemptRow) × Committed handle accepted 1_100 taken finished row a
unfolding claim complete complete_row lease_is_dead identity_agrees commit_attempt complete_terminal
    update_run_state check_row
complete-committed_example = complete-committed handle accepted 1_100 taken finished refl

complete_again_example : complete handle accepted 9_000 finished ≡ ok (Verdict.duplicate, finished)
unfolding claim complete complete_row lease_is_dead identity_agrees commit_attempt complete_terminal
    update_run_state check_row
complete_again_example = complete_again handle handle accepted 1_100 9_000 taken finished refl refl

Reach-authoritative_example :
    find_attempt 101 (after finished (request_cancel 7 2_000 finished)).attempts
    ≡ some (authoritative_row accepted 1_100 (new_attempt (request 1) (pending_job 1)))
unfolding claim complete complete_row lease_is_dead identity_agrees commit_attempt complete_terminal
    update_run_state check_row request_cancel
Reach-authoritative_example =
    Reach-authoritative finished (after finished (request_cancel 7 2_000 finished)) 101
      (authoritative_row accepted 1_100 (new_attempt (request 1) (pending_job 1)))
      (refl, (refl, tt)) (Reach.next Reach.here (Step.cancels 7 2_000 refl)) refl refl

Reach-run_example : (r : RunRow) × (find_run 7 finished.runs ≡ some r) × RunAdvance planned_run r
Reach-run_example = Reach-run waiting finished 7 planned_run (refl, (refl, tt)) finishing refl

complete-dead_lease_example :
    (db : Database) × (complete handle accepted 1_500 taken ≡ ok (Verdict.stale, db))
    × (db.jobs ≡ taken.jobs)
    × (db.runs ≡ taken.runs)
unfolding claim lease_is_dead update_run_state
complete-dead_lease_example =
    complete-dead_lease handle accepted 1_500 taken
      (claimed_job (request 1) (pending_job 1) (pending_job 1)) refl refl refl

complete-refused_example : (quarantined.jobs ≡ taken.jobs) × (quarantined.runs ≡ taken.runs)
unfolding claim complete complete_row lease_is_dead identity_agrees commit_attempt complete_terminal
    update_run_state check_row mark_attempt_stale
complete-refused_example =
    complete-refused handle accepted 1_500 taken quarantined Verdict.stale refl (λ h. ground arith)

-- The holder of the first fence, after the second was granted.
Reach-past_fence_example :
    ((db : Database) → complete handle accepted 1_100 taken_again ≢ ok (Verdict.committed, db))
    × (mark_running handle 1_100 taken_again ≡ err ErrorClass.lease_lost)
    × (heartbeat handle 1_100 50 taken_again ≡ err ErrorClass.lease_lost)
unfolding claim reap_expired abandon_attempt effective_max_attempts update_run_state check_row
Reach-past_fence_example =
    Reach-past_fence taken_again taken_again handle
      (record (claimed_job (request 3) (pending_job 1) (pending_job 1)) {
        fence = 2;
        attempts_started = 2;
      })
      accepted 1_100 50 (refl, (refl, tt)) refl (omega arith) Reach.here

-- Worker 1 runs the job that it was granted, and asks for more time.
abbrev running : Database
running = after taken (mark_running handle 1_100 taken)

abbrev extended : Database
extended = after running (heartbeat handle 1_200 900 running)

abbrev extended_job : Job
extended_job = record (claimed_job (request 1) (pending_job 1) (pending_job 1)) {
  state = JobState.running;
  lease_expires_ms = some 2_100;
}

Reach-holder_example :
    (◌≡◌ {A = Option ℕ} (some 201) (some 201))
    × (◌≡◌ {A = Option ℕ} (some 1) (some 1))
    × (◌≡◌ {A = Option ℕ} (some 101) (some 101))
unfolding claim update_run_state mark_running heartbeat
Reach-holder_example =
    Reach-holder taken extended 1 201 (claimed_job (request 1) (pending_job 1) (pending_job 1))
      extended_job (refl, (refl, tt))
      (Reach.next
        (Reach.next Reach.here
          (Step.runs handle 1_100 (record handle { state = JobState.running }) refl))
        (Step.beats handle 1_200 900
          (record handle { state = JobState.running; lease_expires_ms = some 2_100 }) refl))
      refl refl refl refl

reap_expired-job_example :
    (db : Database) × (reap_expired none 1_500 taken ≡ ok (1 ∷ [], db))
    × ((j : Job) × (find_job 1 db.jobs ≡ some j)
        × Reaped none 1_500 taken (claimed_job (request 1) (pending_job 1) (pending_job 1)) j)
unfolding claim reap_expired abandon_attempt effective_max_attempts update_run_state check_row
reap_expired-job_example =
    reap_expired-job none 1_500 taken 1 (claimed_job (request 1) (pending_job 1) (pending_job 1))
      (refl, (refl, tt)) refl

claim-Granted_example : (row : Job) × Granted (request 1) waiting taken handle row
unfolding claim update_run_state
claim-Granted_example = claim-Granted (request 1) waiting taken handle (refl, (refl, tt)) refl

claim_twice_example : ◌≢◌ {A = ℕ} 1 2
unfolding claim update_run_state
claim_twice_example =
    claim_twice (request 1) (request 2) waiting taken both_taken handle
      (claimed_handle (request 2) (pending_job 2)) (refl, (refl, tt)) refl refl

claim_then_running_example :
    (job : Job) × (later : Database) × (mark_running handle 1_400 taken ≡ ok (job, later))
    × (job.state ≡ JobState.running)
    × (job.fence ≡ 1)
unfolding claim update_run_state
claim_then_running_example =
    claim_then_running (request 1) waiting taken handle 1_400 (refl, (refl, tt)) refl (omega arith)

claim-returns_example : claim (request 1) waiting ≢ out_of_fuel
claim-returns_example = claim-returns (request 1) waiting

abbrev cancelled : Database
cancelled = after waiting (request_cancel 7 2_000 waiting)

request_cancel-claim_example : claim (request 1) cancelled ≡ ok (none, cancelled)
unfolding request_cancel
request_cancel-claim_example = request_cancel-claim 7 2_000 (request 1) waiting cancelled refl refl

-- A second job of the run waits while the first is done, and the run is still running.
run_keeps_going : find_run 7 finished.runs ≡ some (record planned_run { state = RunState.running })
unfolding claim complete complete_row lease_is_dead identity_agrees commit_attempt complete_terminal
    update_run_state check_row
run_keeps_going = refl

reading_a_job : get_job waiting 2 ≡ some (pending_job 2)
unfolding get_job
reading_a_job = refl
