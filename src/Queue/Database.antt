-- ===== src/Queue/Database.antt =====
-- The tables that jobs.py reads and writes, and its transactions. A JSON column holds the value
-- that the program writes to it and reads back from it.
use verifier_ci.Prelude.{
  ℕ, Bool, true, false, ◌&&◌, ◌||◌, not, Option, none, some, List, String, if◌then◌else◌, any,
  contains, ◌==◌, opt_eq,
}
use verifier_ci.Prelude.Int.{ℤ}
use verifier_ci.Prelude.Tables.{find_key, update_where}
use verifier_ci.Errors.{ErrorClass}
use verifier_ci.Models.Job.{Key, Job}
use verifier_ci.Models.Attempt.{Outcome, Validity, Disposition, ResourceUsage, is_authoritative}
use verifier_ci.Models.Attempt.Validation.{check_row}

-- A row of `evaluation_attempts`; `resources` is `none` for the empty object `{}`.
pub record AttemptRow : Type 0 where
  pub attempt_id : Key
  pub job_id : Key
  pub fence : ℕ
  pub outcome : Option Outcome
  pub evaluation_validity : Validity
  pub error_code : Option String
  pub disposition : Disposition
  pub started_at : ℕ
  pub finished_at : Option ℕ
  pub exit_code : Option ℤ
  pub stdout_hash : Option Key
  pub stderr_hash : Option Key
  pub report_digest : Option Key
  pub test_collection : List String
  pub tests_passed : Option ℕ
  pub tests_failed : Option ℕ
  pub resources : Option ResourceUsage
  pub artifact_digests : List Key
  pub capture_truncated : Bool

pub data RunState : Type 0 where
  planned running complete cancelled failed : RunState

-- A row of `audit_runs`.
pub record RunRow : Type 0 where
  pub run_id : Key
  pub manifest_hash : Key
  pub state : RunState
  pub cancel_requested : Bool
  pub finished_at : Option ℕ

-- What the queue reads of a row of `audit_manifests`.
pub record ManifestRow : Type 0 where
  pub manifest_hash : Key
  pub max_attempts_per_job : Option ℕ

-- `artifacts` lists the digests of the table of that name.
pub record Database : Type 0 where
  pub jobs : List Job
  pub attempts : List AttemptRow
  pub runs : List RunRow
  pub manifests : List ManifestRow
  pub artifacts : List Key

-- How a transaction ends: it commits a database and returns, or it raises and is rolled back.
-- `out_of_fuel` is the end of a loop that was given too few rounds.
pub data Result {ℓ} (A : Type ℓ) : Type ℓ where
  ok : A → Result A
  err : ErrorClass → Result A
  out_of_fuel : Result A

infixl 5 ◌>>=◌ ◌>>◌
abbrev pub ◌>>=◌ {ℓ κ} : {A : Type ℓ} {B : Type κ} → Result A → (A → Result B) → Result B
ok a >>= f = f a
err e >>= f = err e
out_of_fuel >>= f = out_of_fuel

abbrev pub ◌>>◌ {ℓ} : {B : Type ℓ} → Result (Unit {0}) → Result B → Result B
m >> k = m >>= λ _. k

abbrev pub raise_if : Bool → ErrorClass → Result (Unit {0})
raise_if true e = err e
raise_if false e = ok tt

-- The database that a transaction leaves behind: the old one after a rollback.
abbrev pub after {ℓ} : {A : Type ℓ} → Database → Result (A × Database) → Database
after db (ok (_, db')) = db'
after db (err _) = db
after db out_of_fuel = db

abbrev pub find_job : Key → List Job → Option Job
find_job = find_key (λ j. j.job_id)

abbrev pub find_attempt : Key → List AttemptRow → Option AttemptRow
find_attempt = find_key (λ a. a.attempt_id)

abbrev pub find_run : Key → List RunRow → Option RunRow
find_run = find_key (λ r. r.run_id)

abbrev pub find_manifest : Key → List ManifestRow → Option ManifestRow
find_manifest = find_key (λ m. m.manifest_hash)

abbrev pub update_jobs : (Job → Bool) → (Job → Job) → Database → Database
update_jobs p f db = record db { jobs = update_where p f db.jobs }

abbrev pub has_id : Key → Job → Bool
has_id k j = j.job_id == k

-- A foreign key into `artifacts`: null or the digest of a row.
abbrev pub references : List Key → Option Key → Bool
references artifacts none = true
references artifacts (some d) = contains d artifacts

-- A foreign key is checked where an update changes it.
abbrev pub link_holds : List Key → Option Key → Option Key → Bool
link_holds artifacts old new = opt_eq ◌==◌ new old || references artifacts new

-- The unique index on the authoritative attempts of a job.
abbrev pub has_rival : Database → AttemptRow → Bool
has_rival db a =
    any
      (λ b.
        is_authoritative b.disposition
        && (b.job_id == a.job_id)
        && not (b.attempt_id == a.attempt_id))
      db.attempts

-- `UPDATE evaluation_attempts SET … WHERE …`: the immutability trigger aborts on an authoritative
-- row, and a new row has to pass the CHECK constraint, the foreign keys and the unique index.
abbrev pub is_rejected : Database → (AttemptRow → AttemptRow) → AttemptRow → Bool
is_rejected db f a =
    is_authoritative a.disposition
    || not (check_row (f a).outcome (f a).evaluation_validity (f a).disposition)
    || not (link_holds db.artifacts a.stdout_hash (f a).stdout_hash)
    || not (link_holds db.artifacts a.stderr_hash (f a).stderr_hash)
    || not (link_holds db.artifacts a.report_digest (f a).report_digest)
    || (is_authoritative (f a).disposition && has_rival db (f a))

abbrev pub update_attempts :
    (AttemptRow → Bool) → (AttemptRow → AttemptRow) → Database → Result Database
update_attempts p f db =
    if any (λ a. p a && is_rejected db f a) db.attempts
    then err ErrorClass.foreign
    else ok (record db { attempts = update_where p f db.attempts })

-- `get_job`
unfoldable pub get_job : Database → Key → Option Job
get_job db k = find_job k db.jobs
