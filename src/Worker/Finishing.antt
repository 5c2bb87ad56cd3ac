-- ===== src/Worker/Finishing.antt =====
-- The steps of `run_one` when it returns True.
use verifier_ci.Prelude.{◌≡◌, ◌⊎◌, inl, inr, refl, ℕ, Option, none, some, is_some, or_default}
use verifier_ci.Errors.{ErrorClass, Fallible, returned, failed}
use verifier_ci.Models.Job.{Key, Job}
use verifier_ci.Models.Attempt.{EvaluationAttempt}
use verifier_ci.Queue.Database.{Database, Result, ok, err, out_of_fuel}
use verifier_ci.Queue.Claim.{ClaimRequest, claim}
use verifier_ci.Queue.Lease.{mark_running}
use verifier_ci.Queue.Complete.{Verdict, complete}
use verifier_ci.Worker.State.{Host, Shared}
use verifier_ci.Worker.Running.{Preparation, prepare, manifest_of}
use verifier_ci.Worker.Evaluate.{evaluate}
use verifier_ci.Worker.Turn.{
  Schedule, Beating, beat_if, Turn, finished, with_db, completed, submit, work, started,
  run_claimed, claimed, run_one,
}

-- What was claimed, marked running, evaluated and submitted.
pub record Finished (h : Host) (r : ClaimRequest) (t : Schedule) (s : Shared) (v : Verdict)
    (job : Job) (attempt : EvaluationAttempt) (s' : Shared) : Type 0 where
  pub handle : Job
  pub running : Job
  pub claim_db : Database
  pub running_db : Database
  pub after : Shared
  pub complete_db : Database
  pub was_claimed : claim r s.db ≡ ok (some handle, claim_db)
  pub was_marked :
      mark_running handle t.running_at (t.before_running claim_db) ≡ ok (running, running_db)
  pub preparation : Preparation
  pub was_prepared : preparation ≡ prepare h (with_db running_db s) running
  pub beating : Beating
  pub was_beating :
      beating
      ≡ beat_if (is_some (manifest_of preparation)) r.lease_duration_ms t.beats running_db running
  pub attempt_id : Key
  pub same_id : attempt_id ≡ or_default handle.attempt_id h.new_attempt_id
  pub was_evaluated :
      evaluate h attempt_id job beating.lost preparation (with_db beating.db s)
      ≡ (returned attempt, after)
  pub same_job : job ≡ beating.job
  pub was_completed :
      complete job attempt t.complete_at (t.before_complete after.db) ≡ ok (v, complete_db)
  pub same_end : s' ≡ with_db complete_db after

pub Result-cases {ℓ} :
    {A : Type ℓ} (m : Result A)
    → ((a : A) × (m ≡ ok a)) ⊎ ((e : ErrorClass) × (m ≡ err e)) ⊎ (m ≡ out_of_fuel)
Result-cases (ok a) = inl (a, refl)
Result-cases (err e) = inr (inl (e, refl))
Result-cases out_of_fuel = inr (inr refl)

completed-finished :
    (job : Job) (attempt : EvaluationAttempt) (s : Shared) (m : Result (Verdict × Database))
    (v : Verdict) (job' : Job) (attempt' : EvaluationAttempt) (s' : Shared)
    → completed job attempt s m ≡ finished v job' attempt' s'
    → (db : Database) × (m ≡ ok (v, db)) × (job' ≡ job) × (attempt' ≡ attempt) × (s' ≡ with_db db s)
completed-finished job attempt s (ok (w, db)) v job' attempt' s' e = (db, cc, cc, cc, cc)
completed-finished job attempt s (err x) v job' attempt' s' e = cc
completed-finished job attempt s out_of_fuel v job' attempt' s' e = cc

submit-finished :
    (t : Schedule) (job : Job) (m : Fallible EvaluationAttempt × Shared) (v : Verdict) (job' : Job)
    (attempt : EvaluationAttempt) (s' : Shared)
    → submit t job m ≡ finished v job' attempt s'
    → (s : Shared) × (db : Database) × (m ≡ (returned attempt, s))
      × (job' ≡ job)
      × (complete job attempt t.complete_at (t.before_complete s.db) ≡ ok (v, db))
      × (s' ≡ with_db db s)
unfolding submit
submit-finished t job (failed f, s) v job' attempt s' e = cc
submit-finished t job (returned a, s) v job' attempt s' e =
    let (db, m, j, same, last) =
      completed-finished job a (with_db (t.before_complete s.db) s)
        (complete job a t.complete_at (t.before_complete s.db)) v job' attempt s' e in
    (s, db, cc, j, cc, last)

claimed-finished :
    (h : Host) (extension : ℕ) (t : Schedule) (s : Shared) (m : Result (Option Job × Database))
    (v : Verdict) (job : Job) (attempt : EvaluationAttempt) (s' : Shared)
    → claimed h extension t s m ≡ finished v job attempt s'
    → (handle : Job) × (db : Database) × (m ≡ ok (some handle, db))
      × (run_claimed h extension t handle (with_db db s) ≡ finished v job attempt s')
claimed-finished h extension t s (ok (none, db)) v job attempt s' e = cc
claimed-finished h extension t s (ok (some handle, db)) v job attempt s' e = (handle, db, refl, e)
claimed-finished h extension t s (err x) v job attempt s' e = cc
claimed-finished h extension t s out_of_fuel v job attempt s' e = cc

started-finished :
    (h : Host) (extension : ℕ) (t : Schedule) (k : Key) (s : Shared) (m : Result (Job × Database))
    (v : Verdict) (job : Job) (attempt : EvaluationAttempt) (s' : Shared)
    → started h extension t k s m ≡ finished v job attempt s'
    → (running : Job) × (db : Database) × (m ≡ ok (running, db))
      × (work h extension t k running (with_db db s) ≡ finished v job attempt s')
started-finished h extension t k s (ok (running, db)) v job attempt s' e = (running, db, refl, e)
started-finished h extension t k s (err x) v job attempt s' e = cc
started-finished h extension t k s out_of_fuel v job attempt s' e = cc

work-finished :
    (h : Host) (extension : ℕ) (t : Schedule) (k : Key) (running : Job) (s : Shared) (v : Verdict)
    (job : Job) (attempt : EvaluationAttempt) (s' : Shared)
    → work h extension t k running s ≡ finished v job attempt s'
    → submit t
        (beat_if (is_some (manifest_of (prepare h s running))) extension t.beats s.db running).job
        (evaluate h k
          (beat_if (is_some (manifest_of (prepare h s running))) extension t.beats s.db running).job
          (beat_if
            (is_some (manifest_of (prepare h s running)))
            extension
            t.beats
            s.db
            running).lost
          (prepare h s running)
          (with_db
            (beat_if
              (is_some (manifest_of (prepare h s running)))
              extension
              t.beats
              s.db
              running).db
            s))
      ≡ finished v job attempt s'
unfolding work
work-finished h extension t k running s v job attempt s' e = e

run_claimed-started :
    (h : Host) (extension : ℕ) (t : Schedule) (handle : Job) (s : Shared) (u : Turn)
    → run_claimed h extension t handle s ≡ u
    → started h extension t
        (or_default handle.attempt_id h.new_attempt_id)
        (with_db (t.before_running s.db) s)
        (mark_running handle t.running_at (t.before_running s.db))
      ≡ u
unfolding run_claimed
run_claimed-started h extension t handle s u e = e

run_one-claimed :
    (h : Host) (r : ClaimRequest) (t : Schedule) (s : Shared) (u : Turn)
    → run_one h r t s ≡ u
    → claimed h r.lease_duration_ms t s (claim r s.db) ≡ u
unfolding run_one
run_one-claimed h r t s u e = e

pub run_one-Finished :
    (h : Host) (r : ClaimRequest) (t : Schedule) (s : Shared) (v : Verdict) (job : Job)
    (attempt : EvaluationAttempt) (s' : Shared)
    → run_one h r t s ≡ finished v job attempt s'
    → Finished h r t s v job attempt s'
run_one-Finished h r t s v job attempt s' e =
    let x = r.lease_duration_ms in
    let (handle, claim_db, was_claimed, e1) =
      claimed-finished h x t s (claim r s.db) v job attempt s'
        (run_one-claimed h r t s (finished v job attempt s') e) in
    let k = or_default handle.attempt_id h.new_attempt_id in
    let (running, running_db, was_marked, e2) =
      started-finished h x t k (with_db (t.before_running claim_db) s)
        (mark_running handle t.running_at (t.before_running claim_db)) v job attempt s'
        (run_claimed-started h x t handle (with_db claim_db s) (finished v job attempt s') e1) in
    let s2 = with_db running_db s in
    let p = prepare h s2 running in
    let b = beat_if (is_some (manifest_of p)) x t.beats running_db running in
    let (after, complete_db, evaluated, same, done, last) =
      submit-finished t b.job (evaluate h k b.job b.lost p (with_db b.db s)) v job attempt s'
        (work-finished h x t k running s2 v job attempt s' e2) in
    record {
      handle = handle;
      running = running;
      claim_db = claim_db;
      running_db = running_db;
      after = after;
      complete_db = complete_db;
      was_claimed = was_claimed;
      was_marked = was_marked;
      preparation = p;
      was_prepared = refl;
      beating = b;
      was_beating = refl;
      attempt_id = k;
      same_id = refl;
      was_evaluated = cc;
      same_job = same;
      was_completed = cc;
      same_end = last;
    }
