-- ===== src/Queue/Termination.antt =====
-- The loop of `claim` ends: each round that goes on has failed a pending job.
use verifier_ci.Prelude.{
  ℕ, zero, suc, ◌<◌, ◌≤◌, ◌≡◌, ◌≢◌, true, ◌&&◌, none, some, List, [], ◌∷◌, arith, inl, inr, ==_refl,
  Option-cases, count_if,
}
use verifier_ci.Prelude.Tables.{IsIn, update_where}
use verifier_ci.Models.Job.{Key, Job, is_pending}
use verifier_ci.Queue.Database.{Database, out_of_fuel, has_id}
use verifier_ci.Queue.RunState.{update_run_state}
use verifier_ci.Queue.Claim.{
  ClaimRequest, claim, claim_loop, least_job, is_claimable, grant, fail_pending, is_pending_in,
  cancelled_job,
}
use verifier_ci.Queue.Claims.{least_job-IsIn}

abbrev pending_count : List Job → ℕ
pending_count = count_if (λ j. is_pending j.state)

fail_pending-count-le :
    (run : Key) (jobs : List Job)
    → pending_count (update_where (is_pending_in run) cancelled_job jobs) ≤ pending_count jobs
fail_pending-count-le run [] = omega arith
fail_pending-count-le run (j ∷ jobs) = ground (arith, fail_pending-count-le run jobs)

-- Failing the pending jobs of a run that has one leaves fewer.
fail_pending-count-lt :
    (run : Key) (row : Job) (jobs : List Job)
    → IsIn row jobs
    → is_pending_in run row ≡ true
    → pending_count (update_where (is_pending_in run) cancelled_job jobs) < pending_count jobs
fail_pending-count-lt run row [] m h = absurd m
fail_pending-count-lt run row (j ∷ jobs) (inl e) h =
    let hit : is_pending_in run j ≡ true = rw (← e) h in
    ground (arith, fail_pending-count-le run jobs)
fail_pending-count-lt run row (j ∷ jobs) (inr m) h =
    ground (arith, fail_pending-count-lt run row jobs m h)

-- The UPDATE of a row that is there matches a row.
matched :
    (row : Job) (jobs : List Job)
    → IsIn row jobs
    → is_pending row.state ≡ true
    → 0 < count_if (λ j. has_id row.job_id j && is_pending j.state) jobs
matched row [] m h = absurd m
matched row (j ∷ jobs) (inl e) h =
    let hit : (has_id row.job_id j && is_pending j.state) ≡ true =
      rw (← e) (ground (arith, ==_refl row.job_id)) in
    ground arith
matched row (j ∷ jobs) (inr m) h = ground (arith, matched row jobs m h)

grant-returns : (r : ClaimRequest) (row : Job) (db : Database) → grant r row db ≢ out_of_fuel
unfolding grant
grant-returns r row db h = ground arith

module _ (fuel : ℕ) (r : ClaimRequest) (db : Database) where
  abbrev skipped : Job → Database
  skipped row = update_run_state row.run_id r.now_ms (fail_pending row.run_id db)

  round-ends :
      (row : Job)
      → least_job (is_claimable r.run_id) db.jobs ≡ some row
      → 0 < count_if (λ j. has_id row.job_id j && is_pending j.state) db.jobs
      → claim_loop fuel r (skipped row) ≢ out_of_fuel
      → claim_loop (suc fuel) r db ≢ out_of_fuel
  unfolding claim_loop
  round-ends row e hit rest h = ground (arith, grant-returns r row db)

  round-empty :
      least_job (is_claimable r.run_id) db.jobs ≡ none → claim_loop (suc fuel) r db ≢ out_of_fuel
  unfolding claim_loop
  round-empty e h = ground arith

claim_loop-returns :
    (fuel : ℕ) (r : ClaimRequest) (db : Database)
    → pending_count db.jobs < fuel
    → claim_loop fuel r db ≢ out_of_fuel
unfolding update_run_state
claim_loop-returns zero r db h = elim h [ ]
claim_loop-returns (suc fuel) r db h =
    elim (Option-cases (least_job (is_claimable r.run_id) db.jobs)) [
      | inl e ↦ round-empty fuel r db e
      | inr (row, e) ↦
          let (here, ready) = least_job-IsIn (is_claimable r.run_id) db.jobs row e in
          let waiting : is_pending row.state ≡ true = ground arith in
          let fewer =
            fail_pending-count-lt row.run_id row db.jobs here
              (ground (arith, ==_refl row.run_id)) in
          round-ends fuel r db row e (matched row db.jobs here waiting)
            (claim_loop-returns fuel r (skipped fuel r db row) (omega (arith, fewer)))
    ]

-- On every database `claim` returns or raises: the rounds that its loop is given, one more than there
-- are PENDING jobs, are enough.
pub claim-returns : (r : ClaimRequest) (db : Database) → claim r db ≢ out_of_fuel
unfolding claim
claim-returns r db = claim_loop-returns (suc (pending_count db.jobs)) r db (omega arith)
