-- ===== src/Queue/Cancellation.antt =====
-- What a request for cancellation achieves, and when a run ends.
use verifier_ci.Prelude.{
  ℕ, ◌≡◌, ◌↔◌, refl, sym, subst, true, false, ◌||◌, not, none, some, List, [], ◌∷◌, arith, all,
  ◌==◌, ◌<◌,
}
use verifier_ci.Prelude.Tables.{update_where}
use verifier_ci.Models.Job.{Key, Job, is_finished}
use verifier_ci.Queue.Database.{Database, RunRow, ok}
use verifier_ci.Queue.RunState.{
  update_run_state, next_run_row, run_is_terminal, active_count, total_count,
}
use verifier_ci.Queue.Claim.{
  ClaimRequest, claim, claim_loop, least_job, is_claimable, is_pending_in, cancelled_job,
}
use verifier_ci.Queue.Cancel.{request_cancel}

-- Every job of the run is DONE or FAILED.
abbrev pub AllFinished : Key → List Job → Type 0
AllFinished run jobs = all (λ j. not (j.run_id == run) || is_finished j.state) jobs ≡ true

active_count-AllFinished :
    (run : Key) (jobs : List Job) → (active_count run jobs ≡ 0) ↔ AllFinished run jobs
active_count-AllFinished run [] = ground arith
active_count-AllFinished run (j ∷ jobs) = ground (arith, active_count-AllFinished run jobs)

-- Of a run that has not ended and has a job, updating the state of the run ends it if and only if
-- every job of the run is DONE or FAILED.
pub next_run_row-AllFinished :
    (jobs : List Job) (now : ℕ) (r : RunRow)
    → run_is_terminal r.state ≡ false
    → 0 < total_count r.run_id jobs
    → (run_is_terminal (next_run_row jobs now r).state ≡ true) ↔ AllFinished r.run_id jobs
unfolding next_run_row
next_run_row-AllFinished jobs now r going some_job =
    ground (arith, active_count-AllFinished r.run_id jobs)

none_claimable :
    (run : Key) (jobs : List Job)
    → least_job (is_claimable (some run)) (update_where (is_pending_in run) cancelled_job jobs)
      ≡ none
unfolding least_job
none_claimable run [] = refl
none_claimable run (j ∷ jobs) = ground (arith, none_claimable run jobs)

claim-empty :
    (r : ClaimRequest) (db : Database)
    → least_job (is_claimable r.run_id) db.jobs ≡ none
    → claim r db ≡ ok (none, db)
unfolding claim claim_loop
claim-empty r db e = ground arith

-- After a request for the cancellation of a run, a claim in this run at any time returns no job and
-- changes nothing.
pub request_cancel-claim :
    (run : Key) (now : ℕ) (r : ClaimRequest) (db db' : Database)
    → request_cancel run now db ≡ ok (tt, db')
    → r.run_id ≡ some run
    → claim r db' ≡ ok (none, db')
unfolding request_cancel update_run_state
request_cancel-claim run now r db db' h e =
    let jobs' : update_where (is_pending_in run) cancelled_job db.jobs ≡ db'.jobs = ground arith in
    let in_run' : least_job (is_claimable (some run)) db'.jobs ≡ none =
      subst (λ jobs. least_job (is_claimable (some run)) jobs ≡ none) jobs'
        (none_claimable run db.jobs) in
    claim-empty r db' (subst (λ o. least_job (is_claimable o) db'.jobs ≡ none) (sym e) in_run')
