-- ===== src/Queue/Grants.antt =====
-- What a claim hands out.
use verifier_ci.Prelude.{
  ℕ, ◌+◌, ◌<◌, ◌≡◌, ◌≢◌, refl, sym, ap, subst, ◌∙◌, true, ◌&&◌, some, arith, ==_refl,
}
use verifier_ci.Prelude.Tables.{find_key-update}
use verifier_ci.Models.Job.{Key, Job, JobState, is_pending}
use verifier_ci.Queue.Database.{Database, ok, find_job, update_jobs, has_id}
use verifier_ci.Queue.RunState.{update_run_state}
use verifier_ci.Queue.Claim.{
  ClaimRequest, claim, in_run, grant, fail_pending, is_pending_in, cancelled_job, claimed_job,
  claimed_handle,
}
use verifier_ci.Queue.Lease.{mark_running, require_lease}
use verifier_ci.Queue.Evolution.{job_key}
use verifier_ci.Queue.Keeps.{Keeps, Keeps-trans, update_run_state-Keeps}
use verifier_ci.Queue.Claims.{
  HasUniqueJobs, Keeps-HasUniqueJobs, Claims, empty_queue, skip_run, grant_row, claim-Claims,
  selected_row, Claims-Keeps, fail_pending-Keeps,
}

-- What a claim that returns a job did with the row that it selected.
pub record Granted (r : ClaimRequest) (db db' : Database) (handle row : Job) : Type 0 where
  pub was_stored : find_job row.job_id db.jobs ≡ some row
  pub was_pending : row.state ≡ JobState.pending
  pub of_run : in_run r.run_id row ≡ true
  pub handed_out : handle ≡ claimed_handle r row
  pub now_claimed : find_job row.job_id db'.jobs ≡ some (claimed_job r row row)

-- A pending job that the failing of a run's jobs left pending was not touched by it.
still_pending :
    (run k : Key) (now : ℕ) (db : Database) (row : Job)
    → find_job k (update_run_state run now (fail_pending run db)).jobs ≡ some row
    → row.state ≡ JobState.pending
    → find_job k db.jobs ≡ some row
unfolding update_run_state
still_pending run k now db row h waiting =
    ground
      (arith, find_key-update job_key (is_pending_in run) cancelled_job (λ j. refl) k db.jobs, h)

pending_state : (s : JobState) → is_pending s ≡ true → s ≡ JobState.pending
pending_state s h = ground arith

granted :
    (r : ClaimRequest) (row handle : Job) (db db' : Database)
    → find_job row.job_id db.jobs ≡ some row
    → row.state ≡ JobState.pending
    → grant r row db ≡ ok (some handle, db')
    → (handle ≡ claimed_handle r row)
      × (find_job row.job_id db'.jobs ≡ some (claimed_job r row row))
unfolding grant update_run_state
granted r row handle db db' found waiting h = ground (
  arith,
  ==_refl row.job_id,
  find_key-update job_key (λ j. has_id row.job_id j && is_pending j.state) (claimed_job r row)
      (λ j. refl) row.job_id db.jobs,
)

Claims-Granted :
    (r : ClaimRequest) (handle : Job) (db' : Database) {db : Database}
    → HasUniqueJobs db
    → Claims r (some handle) db' db
    → (row : Job) × Granted r db db' handle row
Claims-Granted r handle db' {db} u (empty_queue e none_left same) = cc
Claims-Granted r handle db' {db} u (skip_run row e stopped rest) =
    let first : Keeps db (update_run_state row.run_id r.now_ms (fail_pending row.run_id db)) =
      Keeps-trans db _ _ (fail_pending-Keeps row.run_id db)
        (update_run_state-Keeps row.run_id r.now_ms _) in
    let (row', g) = Claims-Granted r handle db' (Keeps-HasUniqueJobs db _ first u) rest in
    (
      row',
      record {
        was_stored =
            still_pending row.run_id row'.job_id r.now_ms db row' g.was_stored g.was_pending;
        was_pending = g.was_pending;
        of_run = g.of_run;
        handed_out = g.handed_out;
        now_claimed = g.now_claimed;
      },
    )
Claims-Granted r handle db' {db} u (grant_row row e going h) =
    let (found, ready) = selected_row r.run_id db row u e in
    let waiting = pending_state row.state (ground arith) in
    let (same, stored) = granted r row handle db db' found waiting h in
    (
      row,
      record {
        was_stored = found;
        was_pending = waiting;
        of_run = ground arith;
        handed_out = same;
        now_claimed = stored;
      },
    )

-- Provided that job identifiers are unique, a claim that returns a job took a stored PENDING job of
-- the asked run (of any run if none was asked for), returns it as CLAIMED with its fence and its
-- number of attempts one higher, under the new attempt and token and with a lease of the asked
-- length from now, and has stored it so.
pub claim-Granted :
    (r : ClaimRequest) (db db' : Database) (handle : Job)
    → HasUniqueJobs db
    → claim r db ≡ ok (some handle, db')
    → (row : Job) × Granted r db db' handle row
claim-Granted r db db' handle u h =
    Claims-Granted r handle db' u (claim-Claims r db db' (some handle) h)

-- Provided that job identifiers are unique, two claims in a row, by any workers, that each return a
-- job return different jobs.
pub claim_twice :
    (r r' : ClaimRequest) (db mid db' : Database) (first second : Job)
    → HasUniqueJobs db
    → claim r db ≡ ok (some first, mid)
    → claim r' mid ≡ ok (some second, db')
    → first.job_id ≢ second.job_id
claim_twice r r' db mid db' first second u h h' same =
    let keeps = Claims-Keeps r (some first) mid u (claim-Claims r db mid (some first) h) in
    let (row, g) = claim-Granted r db mid first u h in
    let (row', g') = claim-Granted r' mid db' second (Keeps-HasUniqueJobs db mid keeps u) h' in
    let ids : row.job_id ≡ row'.job_id =
      sym (ap (λ (j : Job). j.job_id) g.handed_out)
      ∙ same
      ∙ ap (λ (j : Job). j.job_id) g'.handed_out in
    let taken = subst (λ k. find_job k mid.jobs ≡ some (claimed_job r row row)) ids g.now_claimed in
    let same_row : claimed_job r row row ≡ row' = cc (taken, g'.was_stored) in
    cc (g'.was_pending, ap (λ (j : Job). j.state) same_row)

abbrev running_handle : ClaimRequest → Job → Job
running_handle r row = record (claimed_handle r row) {
  state = JobState.running;
  selected_attempt_id = row.selected_attempt_id;
  terminal_reason = row.terminal_reason;
}

abbrev running_database : Job → Database → Database
running_database row = update_jobs (has_id row.job_id) (λ j. record j { state = JobState.running })

run_claimed :
    (r : ClaimRequest) (row : Job) (db : Database) (now : ℕ)
    → find_job row.job_id db.jobs ≡ some (claimed_job r row row)
    → now < r.now_ms + r.lease_duration_ms
    → mark_running (claimed_handle r row) now db
      ≡ ok (running_handle r row, running_database row db)
unfolding mark_running require_lease
run_claimed r row db now found early = ground (
  arith,
  ==_refl (row.fence + 1),
  ==_refl r.new_lease_token,
  ==_refl r.worker_id,
  ==_refl r.new_attempt_id,
)

-- Provided that job identifiers are unique, the job that a claim returns can be marked RUNNING by
-- its holder at every time before the end of the lease, and keeps its fence.
pub claim_then_running :
    (r : ClaimRequest) (db db' : Database) (handle : Job) (now : ℕ)
    → HasUniqueJobs db
    → claim r db ≡ ok (some handle, db')
    → now < r.now_ms + r.lease_duration_ms
    → (job : Job) × (later : Database) × (mark_running handle now db' ≡ ok (job, later))
      × (job.state ≡ JobState.running)
      × (job.fence ≡ handle.fence)
claim_then_running r db db' handle now u h early =
    let (row, g) = claim-Granted r db db' handle u h in
    let done : mark_running handle now db' ≡ ok (running_handle r row, running_database row db') =
      subst (λ x. mark_running x now db' ≡ ok (running_handle r row, running_database row db'))
        (sym g.handed_out) (run_claimed r row db' now g.now_claimed early) in
    (
      running_handle r row,
      running_database row db',
      done,
      refl,
      ap (λ (j : Job). j.fence) (sym g.handed_out),
    )
