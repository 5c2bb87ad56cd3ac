-- ===== src/Worker/Turn.antt =====
-- `run_one` and `run_until_terminal`. What other processes do to the database between two
-- transactions of this worker is a function, as is each time that the clock shows.
use verifier_ci.Prelude.{
  ℕ, suc, Bool, true, false, Option, none, some, List, [], ◌∷◌, or_default, is_some,
}
use verifier_ci.Errors.{ErrorClass, Failure, Fallible, returned, failed}
use verifier_ci.Models.Job.{Key, Job}
use verifier_ci.Models.Attempt.{EvaluationAttempt}
use verifier_ci.Queue.Database.{Database, Result, ok, err, out_of_fuel}
use verifier_ci.Queue.Claim.{ClaimRequest, claim}
use verifier_ci.Queue.Lease.{mark_running, heartbeat}
use verifier_ci.Queue.Complete.{Verdict, complete}
use verifier_ci.Worker.State.{Host, Shared}
use verifier_ci.Worker.Running.{prepare, manifest_of}
use verifier_ci.Worker.Evaluate.{evaluate}

-- A beat of the heartbeat thread, and what others did before it.
pub record Beat : Type 0 where
  pub others : Database → Database
  pub time : ℕ

pub record Schedule : Type 0 where
  pub before_running : Database → Database
  pub running_at : ℕ
  pub beats : List Beat
  pub before_complete : Database → Database
  pub complete_at : ℕ

-- The database, the job as it was last returned, and whether a beat met LeaseLost.
pub record Beating : Type 0 where
  pub db : Database
  pub job : Job
  pub lost : Bool

-- What the others do when this worker beats no more.
abbrev pub idle_beats : List Beat → Database → Database
idle_beats [] db = db
idle_beats (b ∷ bs) db = idle_beats bs (b.others db)

abbrev pub is_lease_lost : ErrorClass → Bool
is_lease_lost ErrorClass.lease_lost = true
is_lease_lost _ = false

-- `_heartbeat_worker`: any exception ends the thread, and LeaseLost is recorded.
unfoldable pub beat : ℕ → List Beat → Database → Job → Beating
unfolding heartbeat
beat extension [] db job = record { db = db; job = job; lost = false }
beat extension (b ∷ bs) db job = elim (heartbeat job b.time extension (b.others db)) [
  | ok (job', db') ↦ beat extension bs db' job'
  | err e ↦ record { db = idle_beats bs (b.others db); job = job; lost = is_lease_lost e }
  | out_of_fuel ↦ record { db = idle_beats bs (b.others db); job = job; lost = false }
]

-- The thread is started when the parameters are resolved.
abbrev pub beat_if : Bool → ℕ → List Beat → Database → Job → Beating
beat_if true extension bs db job = beat extension bs db job
beat_if false extension bs db job = record { db = idle_beats bs db; job = job; lost = false }

-- Why `run_one` raises: a transaction of the queue, or a step of its own.
pub data Stop : Type 0 where
  queue_error : ErrorClass → Stop
  worker_error : Failure → Stop
  never_ends : Stop

-- How `run_one` ends: `idle` is False, `finished` is True.
pub data Turn : Type 0 where
  idle : Shared → Turn
  finished : Verdict → Job → EvaluationAttempt → Shared → Turn
  stopped : Stop → Shared → Turn

abbrev pub with_db : Database → Shared → Shared
with_db db s = record s { db = db }

abbrev pub completed : Job → EvaluationAttempt → Shared → Result (Verdict × Database) → Turn
completed job attempt s (ok (v, db)) = finished v job attempt (with_db db s)
completed job attempt s (err e) = stopped (queue_error e) s
completed job attempt s out_of_fuel = stopped never_ends s

-- Step 7.
unfoldable pub submit : Schedule → Job → Fallible EvaluationAttempt × Shared → Turn
unfolding complete
submit t job (failed e, s) = stopped (worker_error e) s
submit t job (returned attempt, s) =
    completed job attempt (with_db (t.before_complete s.db) s)
      (complete job attempt t.complete_at (t.before_complete s.db))

-- From the RUNNING job on.
unfoldable pub work : Host → ℕ → Schedule → Key → Job → Shared → Turn
unfolding prepare beat evaluate submit
work h extension t attempt_id job s =
    let p = prepare h s job in
    let b = beat_if (is_some (manifest_of p)) extension t.beats s.db job in
    submit t b.job (evaluate h attempt_id b.job b.lost p (with_db b.db s))

abbrev pub started : Host → ℕ → Schedule → Key → Shared → Result (Job × Database) → Turn
started h extension t attempt_id s (ok (job, db)) = work h extension t attempt_id job (with_db db s)
started h extension t attempt_id s (err e) = stopped (queue_error e) s
started h extension t attempt_id s out_of_fuel = stopped never_ends s

-- `mark_running` and what follows.
unfoldable pub run_claimed : Host → ℕ → Schedule → Job → Shared → Turn
unfolding mark_running work
run_claimed h extension t job s =
    started h extension t (or_default job.attempt_id h.new_attempt_id)
      (with_db (t.before_running s.db) s) (mark_running job t.running_at (t.before_running s.db))

abbrev pub claimed : Host → ℕ → Schedule → Shared → Result (Option Job × Database) → Turn
claimed h extension t s (ok (none, db)) = idle (with_db db s)
claimed h extension t s (ok (some job, db)) = run_claimed h extension t job (with_db db s)
claimed h extension t s (err e) = stopped (queue_error e) s
claimed h extension t s out_of_fuel = stopped never_ends s

-- `run_one`; the lease of each heartbeat has the length that was asked for in the claim.
unfoldable pub run_one : Host → ClaimRequest → Schedule → Shared → Turn
unfolding claim run_claimed
run_one h r t s = claimed h r.lease_duration_ms t s (claim r s.db)

-- The surroundings of one round of the loop.
pub record Round : Type 0 where
  pub host : Host
  pub request : ClaimRequest
  pub schedule : Schedule

-- The count so far, and why the loop ended: after all rounds, with nothing to claim, or by an
-- exception, which leaves `run_until_terminal` too.
pub data Ended : Type 0 where
  exhausted : ℕ → Shared → Ended
  drained : ℕ → Shared → Ended
  raised : Stop → Shared → Ended

-- `run_until_terminal`, with one entry of the list for each of the iterations that are allowed.
unfoldable pub run_until_terminal : ℕ → List Round → Shared → Ended
unfolding run_one
run_until_terminal count [] s = exhausted count s
run_until_terminal count (r ∷ rounds) s = elim (run_one r.host r.request r.schedule s) [
  | idle s' ↦ drained count s'
  | stopped e s' ↦ raised e s'
  | finished v job attempt s' ↦ run_until_terminal (suc count) rounds s'
]
