-- ===== src/Queue/History.antt =====
-- Histories of the queue: workers, the reaper and the controller commit transactions in any order,
-- each on the database that the one before left behind (BEGIN IMMEDIATE admits one at a time).
use verifier_ci.Prelude.{ℕ, ◌≡◌, sym, subst, ◌∙◌, true, Option, some, List, inl, inr, arith}
use verifier_ci.Models.Job.{Key, Job}
use verifier_ci.Models.Attempt.{EvaluationAttempt, is_authoritative}
use verifier_ci.Queue.Database.{Database, AttemptRow, RunRow, ok, find_job, find_attempt, find_run}
use verifier_ci.Queue.Claim.{ClaimRequest, claim}
use verifier_ci.Queue.Lease.{mark_running, heartbeat}
use verifier_ci.Queue.Complete.{Verdict, complete}
use verifier_ci.Queue.Reap.{reap_expired}
use verifier_ci.Queue.Cancel.{request_cancel}
use verifier_ci.Queue.Evolution.{Advance, KeepsHolder}
use verifier_ci.Queue.Keeps.{Keeps, Keeps-refl, Keeps-trans, RunAdvance}
use verifier_ci.Queue.Claims.{HasUniqueJobs, Keeps-HasUniqueJobs, claim-Claims, Claims-Keeps}
use verifier_ci.Queue.Operations.{
  mark_running-Keeps, heartbeat-Keeps, complete-Keeps, request_cancel-Keeps,
}
use verifier_ci.Queue.Expiry.{reap_expired-Keeps}

-- One committed transaction. A transaction that raises is rolled back and is no step.
pub data Step (db db' : Database) : Type 0 where
  claims : (r : ClaimRequest) (o : Option Job) → claim r db ≡ ok (o, db') → Step db db'
  runs : (job : Job) (now : ℕ) (job' : Job) → mark_running job now db ≡ ok (job', db') → Step db db'
  beats :
      (job : Job) (now extension : ℕ) (job' : Job)
      → heartbeat job now extension db ≡ ok (job', db')
      → Step db db'
  completes :
      (job : Job) (attempt : EvaluationAttempt) (now : ℕ) (v : Verdict)
      → complete job attempt now db ≡ ok (v, db')
      → Step db db'
  reaps :
      (limit : Option ℕ) (now : ℕ) (ids : List Key)
      → reap_expired limit now db ≡ ok (ids, db')
      → Step db db'
  cancels : (run : Key) (now : ℕ) → request_cancel run now db ≡ ok (tt, db') → Step db db'

pub data Reach (db : Database) : Database → Type 0 where
  here : Reach db db
  next : {mid db' : Database} → Reach db mid → Step mid db' → Reach db db'

pub Step-Keeps : (db db' : Database) → HasUniqueJobs db → Step db db' → Keeps db db'
Step-Keeps db db' u (claims r o h) = Claims-Keeps r o db' u (claim-Claims r db db' o h)
Step-Keeps db db' u (runs job now job' h) = mark_running-Keeps job now db db' job' h
Step-Keeps db db' u (beats job now extension job' h) =
    heartbeat-Keeps job now extension db db' job' h
Step-Keeps db db' u (completes job attempt now v h) = complete-Keeps job attempt now db db' v h
Step-Keeps db db' u (reaps limit now ids h) = reap_expired-Keeps limit now db db' ids u h
Step-Keeps db db' u (cancels run now h) = request_cancel-Keeps run now db db' h

pub Reach-Keeps : (db : Database) {db' : Database} → HasUniqueJobs db → Reach db db' → Keeps db db'
Reach-Keeps db u here = Keeps-refl db
Reach-Keeps db u (next {mid} {db'} r s) =
    let k = Reach-Keeps db u r in
    Keeps-trans db mid db' k (Step-Keeps mid db' (Keeps-HasUniqueJobs db mid k u) s)

-- Provided that job identifiers are unique, through any history of committed claims, lease checks,
-- heartbeats, completions, reaps and cancellations a stored job stays stored under its identifier,
-- with the same run, task, case, verifier and repetition; its fence and its number of started
-- attempts never fall; and once it is DONE, FAILED or ABANDONED no column of it changes again.
pub Reach-job :
    (db db' : Database) (k : Key) (j : Job)
    → HasUniqueJobs db
    → Reach db db'
    → find_job k db.jobs ≡ some j
    → (j' : Job) × (find_job k db'.jobs ≡ some j') × Advance j j'
Reach-job db db' k j u r found = (Reach-Keeps db u r).jobs_evolve k j found

-- Provided that job identifiers are unique, an attempt that is authoritative is, through any
-- history, stored unchanged in every column.
pub Reach-authoritative :
    (db db' : Database) (k : Key) (a : AttemptRow)
    → HasUniqueJobs db
    → Reach db db'
    → find_attempt k db.attempts ≡ some a
    → is_authoritative a.disposition ≡ true
    → find_attempt k db'.attempts ≡ some a
Reach-authoritative db db' k a u r found auth = (Reach-Keeps db u r).authority_stays k a found auth

-- Provided that job identifiers are unique, a stored run is, through any history, still stored with
-- its manifest; a request for its cancellation is never withdrawn; and once it is COMPLETE,
-- CANCELLED or FAILED its state and its finishing time stay.
pub Reach-run :
    (db db' : Database) (k : Key) (r : RunRow)
    → HasUniqueJobs db
    → Reach db db'
    → find_run k db.runs ≡ some r
    → (r' : RunRow) × (find_run k db'.runs ≡ some r') × RunAdvance r r'
Reach-run db db' k r u reach found = (Reach-Keeps db u reach).runs_evolve k r found

-- Provided that job identifiers are unique, whenever a stored job has, after any history, the fence
-- that it had and is leased under a token, it had the same token, the same worker and the same
-- attempt then: under one fence a job has one holder.
pub Reach-holder :
    (db db' : Database) (k token : Key) (j j' : Job)
    → HasUniqueJobs db
    → Reach db db'
    → find_job k db.jobs ≡ some j
    → find_job k db'.jobs ≡ some j'
    → j'.fence ≡ j.fence
    → j'.lease_token ≡ some token
    → (j.lease_token ≡ some token) × (j.worker_id ≡ j'.worker_id) × (j.attempt_id ≡ j'.attempt_id)
Reach-holder db db' k token j j' u r found found' same held =
    let (last, at, adv) = Reach-job db db' k j u r found in
    let e : last ≡ j' = cc (at, found') in
    let kept : KeepsHolder j j' = subst (KeepsHolder j) e adv.keeps_holder in
    elim kept [
      | inl newer ↦ absurd (omega arith)
      | inr (inl cleared) ↦ cc
      | inr (inr (t, w, i)) ↦ (sym t ∙ held, sym w, sym i)
    ]
