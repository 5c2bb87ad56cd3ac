-- ===== src/Worker/Refinement.antt =====
-- A worker changes the database only as the queue allows: its rounds are sequences of transactions
-- of the queue and of registrations of artifacts, with those of the others in between.
use verifier_ci.Prelude.{
  ◌≡◌, refl, ℕ, Bool, true, false, Option, none, some, List, [], ◌∷◌, is_some, or_default,
}
use verifier_ci.Errors.{Fallible, returned, failed}
use verifier_ci.Models.Job.{Key, Job}
use verifier_ci.Models.Attempt.{EvaluationAttempt}
use verifier_ci.Models.Capture.{VerifierManifest}
use verifier_ci.Queue.Database.{Database, Result, ok, err, out_of_fuel}
use verifier_ci.Queue.Claim.{ClaimRequest, claim}
use verifier_ci.Queue.Lease.{mark_running, heartbeat}
use verifier_ci.Queue.Complete.{Verdict, complete}
use verifier_ci.Queue.History.{Step}
use verifier_ci.Worker.State.{Host, Shared}
use verifier_ci.Worker.Running.{Preparation, Ran, prepare, manifest_of, run_commands}
use verifier_ci.Worker.Evaluate.{collect, evaluate, after_run}
use verifier_ci.Worker.Turn.{
  Schedule, Beat, Beating, beat, beat_if, idle_beats, is_lease_lost, Turn, idle, finished, stopped,
  with_db, completed, submit, work, started, run_claimed, claimed, run_one,
}
use verifier_ci.Worker.Moves.{Move, Moves, here, Moves-trans, one, then_with-Moves, collect-Moves}

-- What the others do in between are moves too.
abbrev pub BeatsMove : List Beat → Type 0
BeatsMove [] = Unit
BeatsMove (b ∷ bs) = ((db : Database) → Moves db (b.others db)) × BeatsMove bs

pub record ScheduleMoves (t : Schedule) : Type 0 where
  pub running : (db : Database) → Moves db (t.before_running db)
  pub beating : BeatsMove t.beats
  pub completing : (db : Database) → Moves db (t.before_complete db)

after_run-Moves :
    (h : Host) (k : Key) (job : Job) (lost : Bool) (m : Option VerifierManifest) (s : Shared)
    (x : Fallible Ran)
    → Moves s.db (after_run h k job lost m s x).1.db
unfolding after_run
after_run-Moves h k job lost m s (failed e) = here
after_run-Moves h k job lost m s (returned r) =
    then_with-Moves s.db (collect h r s) _ (collect-Moves h r s) (λ c s1. here)

evaluate-Moves :
    (h : Host) (k : Key) (job : Job) (lost : Bool) (p : Preparation) (s : Shared)
    → Moves s.db (evaluate h k job lost p s).1.db
unfolding evaluate
evaluate-Moves h k job lost p s =
    after_run-Moves h k job lost (manifest_of p) s (run_commands h job k p)

idle_beats-Moves : (bs : List Beat) (db : Database) → BeatsMove bs → Moves db (idle_beats bs db)
idle_beats-Moves [] db m = here
idle_beats-Moves (b ∷ bs) db (first, later) =
    Moves-trans (first db) (idle_beats-Moves bs (b.others db) later)

beaten-Moves :
    (job : Job) (now extension : ℕ) (bs : List Beat) (db : Database)
    (later : Job → Database → Beating) (m : Result (Job × Database))
    → BeatsMove bs
    → heartbeat job now extension db ≡ m
    → ((job' : Job) (db' : Database) → Moves db' (later job' db').db)
    → Moves db
        (elim m as (λ _. Beating) [
          | ok (job', db') ↦ later job' db'
          | err e ↦ record { db = idle_beats bs db; job = job; lost = is_lease_lost e }
          | out_of_fuel ↦ record { db = idle_beats bs db; job = job; lost = false }
        ]).db
beaten-Moves job now extension bs db later (ok (job', db')) others e each =
    Moves-trans (one (Move.steps (Step.beats job now extension job' e))) (each job' db')
beaten-Moves job now extension bs db later (err c) others e each = idle_beats-Moves bs db others
beaten-Moves job now extension bs db later out_of_fuel others e each = idle_beats-Moves bs db others

beat-Moves :
    (extension : ℕ) (bs : List Beat) (db : Database) (job : Job)
    → BeatsMove bs
    → Moves db (beat extension bs db job).db
unfolding beat
beat-Moves extension [] db job m = here
beat-Moves extension (b ∷ bs) db job (first, others) = Moves-trans (first db) (
    beaten-Moves job b.time extension bs (b.others db) (λ job' db'. beat extension bs db' job')
      (heartbeat job b.time extension (b.others db)) others refl
      (λ job' db'. beat-Moves extension bs db' job' others))

beat_if-Moves :
    (on : Bool) (extension : ℕ) (bs : List Beat) (db : Database) (job : Job)
    → BeatsMove bs
    → Moves db (beat_if on extension bs db job).db
beat_if-Moves true extension bs db job m = beat-Moves extension bs db job m
beat_if-Moves false extension bs db job m = idle_beats-Moves bs db m

abbrev pub shared_after : Turn → Shared
shared_after (idle s) = s
shared_after (finished v job attempt s) = s
shared_after (stopped e s) = s

completed-Moves :
    (job : Job) (attempt : EvaluationAttempt) (now : ℕ) (s : Shared)
    (m : Result (Verdict × Database))
    → complete job attempt now s.db ≡ m
    → Moves s.db (shared_after (completed job attempt s m)).db
completed-Moves job attempt now s (ok (v, db)) e =
    one (Move.steps (Step.completes job attempt now v e))
completed-Moves job attempt now s (err c) e = here
completed-Moves job attempt now s out_of_fuel e = here

submit-Moves :
    (t : Schedule) (job : Job) (m : Fallible EvaluationAttempt × Shared)
    → ScheduleMoves t
    → Moves m.1.db (shared_after (submit t job m)).db
unfolding submit
submit-Moves t job (failed e, s) others = here
submit-Moves t job (returned attempt, s) others = Moves-trans (others.completing s.db) (
    completed-Moves job attempt t.complete_at (with_db (t.before_complete s.db) s)
      (complete job attempt t.complete_at (t.before_complete s.db)) refl)

work-Moves :
    (h : Host) (extension : ℕ) (t : Schedule) (k : Key) (job : Job) (s : Shared)
    → ScheduleMoves t
    → Moves s.db (shared_after (work h extension t k job s)).db
unfolding work
work-Moves h extension t k job s others =
    let p = prepare h s job in
    let b = beat_if (is_some (manifest_of p)) extension t.beats s.db job in
    Moves-trans (beat_if-Moves (is_some (manifest_of p)) extension t.beats s.db job others.beating)
      (Moves-trans (evaluate-Moves h k b.job b.lost p (with_db b.db s))
        (submit-Moves t b.job (evaluate h k b.job b.lost p (with_db b.db s)) others))

started-Moves :
    (h : Host) (extension : ℕ) (t : Schedule) (k : Key) (handle : Job) (now : ℕ) (s : Shared)
    (m : Result (Job × Database))
    → ScheduleMoves t
    → mark_running handle now s.db ≡ m
    → Moves s.db (shared_after (started h extension t k s m)).db
started-Moves h extension t k handle now s (ok (job, db)) others e =
    Moves-trans (one (Move.steps (Step.runs handle now job e)))
      (work-Moves h extension t k job (with_db db s) others)
started-Moves h extension t k handle now s (err c) others e = here
started-Moves h extension t k handle now s out_of_fuel others e = here

run_claimed-Moves :
    (h : Host) (extension : ℕ) (t : Schedule) (handle : Job) (s : Shared)
    → ScheduleMoves t
    → Moves s.db (shared_after (run_claimed h extension t handle s)).db
unfolding run_claimed
run_claimed-Moves h extension t handle s others = Moves-trans (others.running s.db) (
    started-Moves h extension t (or_default handle.attempt_id h.new_attempt_id) handle t.running_at
      (with_db (t.before_running s.db) s) (mark_running handle t.running_at (t.before_running s.db))
      others refl)

claimed-Moves :
    (h : Host) (r : ClaimRequest) (t : Schedule) (s : Shared) (m : Result (Option Job × Database))
    → ScheduleMoves t
    → claim r s.db ≡ m
    → Moves s.db (shared_after (claimed h r.lease_duration_ms t s m)).db
claimed-Moves h r t s (ok (none, db)) others e = one (Move.steps (Step.claims r none e))
claimed-Moves h r t s (ok (some job, db)) others e =
    Moves-trans (one (Move.steps (Step.claims r (some job) e)))
      (run_claimed-Moves h r.lease_duration_ms t job (with_db db s) others)
claimed-Moves h r t s (err c) others e = here
claimed-Moves h r t s out_of_fuel others e = here

pub run_one-Moves :
    (h : Host) (r : ClaimRequest) (t : Schedule) (s : Shared)
    → ScheduleMoves t
    → Moves s.db (shared_after (run_one h r t s)).db
unfolding run_one
run_one-Moves h r t s others = claimed-Moves h r t s (claim r s.db) others refl
