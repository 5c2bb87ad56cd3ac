-- ===== src/Queue/Verdicts.antt =====
-- `reap_expired` for one stored job, column by column.
use verifier_ci.Prelude.{
  ℕ, ◌≡◌, ◌⊎◌, ◌<◌, ◌≤◌, inl, inr, refl, true, false, Option, none, some, arith, Bool-cases,
  if◌then◌else◌, ltb, subst, sym,
}
use verifier_ci.Prelude.Tables.{Unique}
use verifier_ci.Models.Job.{Key, Job, JobState}
use verifier_ci.Queue.Database.{
  Database, RunRow, ManifestRow, ok, find_job, find_run, find_manifest,
}
use verifier_ci.Queue.Claim.{run_is_cancelled}
use verifier_ci.Queue.Reap.{reap_expired, job_ids, expired_rows, is_expired, effective_max_attempts}
use verifier_ci.Queue.Reaping.{verdict_on}
use verifier_ci.Queue.Expiry.{reap_expired-jobs}

-- The job is CLAIMED or RUNNING, and its lease ends at a time that is not after `now`.
abbrev pub IsLate : ℕ → Job → Type 0
IsLate now j =
    ((j.state ≡ JobState.claimed) ⊎ (j.state ≡ JobState.running))
    × ((t : ℕ) × (j.lease_expires_ms ≡ some t) × (t ≤ now))

-- Cancellation of the run has been requested.
abbrev pub HasCancellation : Key → Database → Type 0
HasCancellation run db =
    (r : RunRow) × (find_run run db.runs ≡ some r) × (r.cancel_requested ≡ true)

-- The attempts that a job of the run may start: those that the caller gives, else those that the
-- manifest of the run gives, else 3.
pub data Allows (run : Key) (db : Database) : Option ℕ → ℕ → Type 0 where
  by_caller : (n : ℕ) → Allows run db (some n) n
  without_run : find_run run db.runs ≡ none → Allows run db none 3
  without_manifest :
      (r : RunRow)
      → find_run run db.runs ≡ some r
      → find_manifest r.manifest_hash db.manifests ≡ none
      → Allows run db none 3
  without_limit :
      (r : RunRow) (m : ManifestRow)
      → find_run run db.runs ≡ some r
      → find_manifest r.manifest_hash db.manifests ≡ some m
      → m.max_attempts_per_job ≡ none
      → Allows run db none 3
  by_manifest :
      (r : RunRow) (m : ManifestRow) (n : ℕ)
      → find_run run db.runs ≡ some r
      → find_manifest r.manifest_hash db.manifests ≡ some m
      → m.max_attempts_per_job ≡ some n
      → Allows run db none n

-- What becomes of a job, all its columns.
pub data Reaped (limit : Option ℕ) (now : ℕ) (db : Database) (j : Job) : Job → Type 0 where
  stays : ¬ IsLate now j → Reaped limit now db j j
  cancelled :
      IsLate now j
      → HasCancellation j.run_id db
      → Reaped limit now db j (record j {
        state = JobState.failed;
        terminal_reason = some "CANCELLED";
        attempt_id = none;
        lease_token = none;
        worker_id = none;
        lease_expires_ms = none;
      })
  requeued :
      (n : ℕ)
      → IsLate now j
      → ¬ HasCancellation j.run_id db
      → Allows j.run_id db limit n
      → j.attempts_started < n
      → Reaped limit now db j (record j {
        state = JobState.pending;
        terminal_reason = none;
        attempt_id = none;
        lease_token = none;
        worker_id = none;
        lease_expires_ms = none;
      })
  spent :
      (n : ℕ)
      → IsLate now j
      → ¬ HasCancellation j.run_id db
      → Allows j.run_id db limit n
      → n ≤ j.attempts_started
      → Reaped limit now db j (record j {
        state = JobState.failed;
        terminal_reason = some "LEASE_EXPIRED";
        attempt_id = none;
        lease_token = none;
        worker_id = none;
        lease_expires_ms = none;
      })

is_expired-IsLate : (now : ℕ) (j : Job) → is_expired now j ≡ true → IsLate now j
is_expired-IsLate now j h = ground arith

IsLate-is_expired : (now : ℕ) (j : Job) → is_expired now j ≡ false → ¬ IsLate now j
IsLate-is_expired now j h (inl s, (t, e, le)) = ground arith
IsLate-is_expired now j h (inr s, (t, e, le)) = ground arith

run_is_cancelled-HasCancellation :
    (run : Key) (db : Database) → run_is_cancelled run db ≡ true → HasCancellation run db
unfolding run_is_cancelled
run_is_cancelled-HasCancellation run db h = ground arith

HasCancellation-run_is_cancelled :
    (run : Key) (db : Database) → run_is_cancelled run db ≡ false → ¬ HasCancellation run db
unfolding run_is_cancelled
HasCancellation-run_is_cancelled run db h (r, found, on) = ground arith

allows :
    (run : Key) (db : Database) (n : ℕ)
    → effective_max_attempts none run db ≡ n
    → Allows run db none n
    → Allows run db none (effective_max_attempts none run db)
allows run db n e a = subst (Allows run db none) (sym e) a

module _ (run : Key) (db : Database) where
  manifest-Allows :
      (r : RunRow) (m : ManifestRow) (most : Option ℕ)
      → find_run run db.runs ≡ some r
      → find_manifest r.manifest_hash db.manifests ≡ some m
      → m.max_attempts_per_job ≡ most
      → Allows run db none (effective_max_attempts none run db)
  unfolding effective_max_attempts
  manifest-Allows r m none e f g =
      allows run db 3 (ground (arith, e, f, g)) (without_limit r m e f g)
  manifest-Allows r m (some n) e f g =
      allows run db n (ground (arith, e, f, g)) (by_manifest r m n e f g)

  run-Allows :
      (r : RunRow) (m : Option ManifestRow)
      → find_run run db.runs ≡ some r
      → find_manifest r.manifest_hash db.manifests ≡ m
      → Allows run db none (effective_max_attempts none run db)
  unfolding effective_max_attempts
  run-Allows r none e f = allows run db 3 (ground (arith, e, f)) (without_manifest r e f)
  run-Allows r (some m) e f = manifest-Allows r m m.max_attempts_per_job e f refl

  default-Allows :
      (found : Option RunRow)
      → find_run run db.runs ≡ found
      → Allows run db none (effective_max_attempts none run db)
  unfolding effective_max_attempts
  default-Allows none e = allows run db 3 (ground (arith, e)) (without_run e)
  default-Allows (some r) e = run-Allows r (find_manifest r.manifest_hash db.manifests) e refl

effective_max_attempts-Allows :
    (limit : Option ℕ) (run : Key) (db : Database)
    → Allows run db limit (effective_max_attempts limit run db)
unfolding effective_max_attempts
effective_max_attempts-Allows (some n) run db = by_caller n
effective_max_attempts-Allows none run db = default-Allows run db (find_run run db.runs) refl

verdict_on-Reaped :
    (limit : Option ℕ) (now : ℕ) (db : Database) (j : Job)
    → IsLate now j
    → Reaped limit now db j (verdict_on limit db j)
verdict_on-Reaped limit now db j late =
    let most = effective_max_attempts limit j.run_id db in
    let allows = effective_max_attempts-Allows limit j.run_id db in
    elim (Bool-cases (run_is_cancelled j.run_id db)) [
      | inl on ↦ rw on (cancelled late (run_is_cancelled-HasCancellation j.run_id db on))
      | inr off ↦
          let going = HasCancellation-run_is_cancelled j.run_id db off in
          elim (Bool-cases (ltb j.attempts_started most)) [
            | inl more ↦ rw (off, more) (requeued most late going allows (ground arith))
            | inr over ↦ rw (off, over) (spent most late going allows (ground arith))
          ]
    ]

-- Provided that job identifiers are unique, reaping at `now` always commits and returns the
-- identifiers of the expired jobs. A stored job stays as it is if it is not CLAIMED or RUNNING or its
-- lease ends after `now`; otherwise it loses its attempt and its lease, and becomes FAILED as
-- CANCELLED if its run has been asked to cancel, else PENDING without a reason if it has started
-- fewer attempts than the caller, the manifest of its run or the default of 3 allows, else FAILED as
-- LEASE_EXPIRED; and its other columns stay.
pub reap_expired-job :
    (limit : Option ℕ) (now : ℕ) (db : Database) (k : Key) (j : Job)
    → Unique (job_ids db.jobs)
    → find_job k db.jobs ≡ some j
    → (db' : Database) × (reap_expired limit now db ≡ ok (job_ids (expired_rows now db.jobs), db'))
      × ((j' : Job) × (find_job k db'.jobs ≡ some j') × Reaped limit now db j j')
reap_expired-job limit now db k j u found =
    let (db', e, each) = reap_expired-jobs limit now db u in (db', e, (_, each k j found, verdict))
  where
    verdict : Reaped limit now db j (if is_expired now j then verdict_on limit db j else j)
    verdict = elim (Bool-cases (is_expired now j)) [
      | inl late ↦ rw late (verdict_on-Reaped limit now db j (is_expired-IsLate now j late))
      | inr live ↦ rw live (stays (IsLate-is_expired now j live))
    ]
