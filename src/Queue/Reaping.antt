-- ===== src/Queue/Reaping.antt =====
-- `reap_expired` row by row: what each stored job becomes.
use verifier_ci.Prelude.{
  map, ℕ, ◌≡◌, refl, ◌∙◌, Bool, false, ◌&&◌, Option, none, some, List, [], ◌∷◌, arith, inl, inr,
  ◌==◌, Bool-cases, contains, any, sym, ap, subst, opt_eq_refl, ==_refl, ==_iff,
}
use verifier_ci.Prelude.Tables.{
  IsIn, Unique, IsIn-contains, find_key-update, find_key-key, update_where, keys-update,
}
use verifier_ci.Models.Job.{Key, Job}
use verifier_ci.Queue.Database.{
  Database, AttemptRow, ok, update_attempts, find_job, update_jobs, has_id, is_rejected,
}
use verifier_ci.Models.Attempt.Validation.{check_row}
use verifier_ci.Queue.Evolution.{job_key}
use verifier_ci.Queue.Keeps.{KeepsAuthority, update_attempts-Keeps}
use verifier_ci.Queue.Claim.{run_is_cancelled}
use verifier_ci.Queue.Reap.{
  abandon_attempt, abandoned_row, has_active_id, reap_row, reap_rows, reaped_job,
  effective_max_attempts, job_ids,
}

-- An active attempt may always be abandoned.
abandon_is_allowed :
    (db : Database) (k : Key) (now : ℕ) (attempts : List AttemptRow)
    → any (λ a. has_active_id k a && is_rejected db (abandoned_row now) a) attempts ≡ false
unfolding check_row
abandon_is_allowed db k now [] = refl
abandon_is_allowed db k now (a ∷ attempts) = ground (
  arith,
  abandon_is_allowed db k now attempts,
  opt_eq_refl ◌==◌ ==_refl a.stdout_hash,
  opt_eq_refl ◌==◌ ==_refl a.stderr_hash,
  opt_eq_refl ◌==◌ ==_refl a.report_digest,
)

-- Two databases that differ in their attempts only.
record SameButAttempts (db db' : Database) : Type 0 where
  same_jobs : db'.jobs ≡ db.jobs
  same_runs : db'.runs ≡ db.runs
  same_manifests : db'.manifests ≡ db.manifests
  same_authority : KeepsAuthority db.attempts db'.attempts

abandon_attempt-ok :
    (o : Option Key) (now : ℕ) (db : Database)
    → (mid : Database) × (abandon_attempt o now db ≡ ok mid) × SameButAttempts db mid
unfolding abandon_attempt
abandon_attempt-ok none now db = (
  db,
  refl,
  record {
    same_jobs = refl;
    same_runs = refl;
    same_manifests = refl;
    same_authority = λ k a h _. h;
  },
)
abandon_attempt-ok (some k) now db =
    let mid : Database = record db {
      attempts = update_where (has_active_id k) (abandoned_row now) db.attempts;
    } in
    let done : update_attempts (has_active_id k) (abandoned_row now) db ≡ ok mid =
      rw (abandon_is_allowed db k now db.attempts) in
    let kept =
      update_attempts-Keeps (has_active_id k) (abandoned_row now) db mid (λ a. refl) done in
    (
      mid,
      done,
      record {
        same_jobs = refl;
        same_runs = refl;
        same_manifests = refl;
        same_authority = kept.authority_stays;
      },
    )

-- What the passes over the rows make of the database, step by step.
record Reaped (limit : Option ℕ) (row : Job) (db db' : Database) : Type 0 where
  new_jobs :
      db'.jobs
      ≡ update_where
          (has_id row.job_id)
          (reaped_job
            (run_is_cancelled row.run_id db)
            row.attempts_started
            (effective_max_attempts limit row.run_id db))
          db.jobs
  kept_runs : db'.runs ≡ db.runs
  kept_manifests : db'.manifests ≡ db.manifests
  kept_authority : KeepsAuthority db.attempts db'.attempts

same_cancelled :
    (run : Key) (db db' : Database)
    → db'.runs ≡ db.runs
    → run_is_cancelled run db' ≡ run_is_cancelled run db
unfolding run_is_cancelled
same_cancelled run db db' e = rw e

same_limit :
    (limit : Option ℕ) (run : Key) (db db' : Database)
    → db'.runs ≡ db.runs
    → db'.manifests ≡ db.manifests
    → effective_max_attempts limit run db' ≡ effective_max_attempts limit run db
unfolding effective_max_attempts
same_limit none run db db' e m = rw (e, m)
same_limit (some n) run db db' e m = refl

reap_row-ok :
    (limit : Option ℕ) (now : ℕ) (row : Job) (db : Database)
    → (db' : Database) × (reap_row limit now row db ≡ ok db') × Reaped limit row db db'
unfolding reap_row
reap_row-ok limit now row db =
    let (mid, e, s) = abandon_attempt-ok row.attempt_id now db in
    let cancelled = same_cancelled row.run_id db mid s.same_runs in
    let bound = same_limit limit row.run_id db mid s.same_runs s.same_manifests in
    (
      update_jobs (has_id row.job_id)
          (reaped_job (run_is_cancelled row.run_id mid) row.attempts_started
            (effective_max_attempts limit row.run_id mid))
          mid,
      rw e,
      record {
        new_jobs = rw (s.same_jobs, cancelled, bound);
        kept_runs = s.same_runs;
        kept_manifests = s.same_manifests;
        kept_authority = s.same_authority;
      },
    )

-- What becomes of an expired job.
abbrev pub verdict_on : Option ℕ → Database → Job → Job
verdict_on limit db j =
    reaped_job (run_is_cancelled j.run_id db) j.attempts_started
      (effective_max_attempts limit j.run_id db) j

-- What the whole loop has done: jobs that are not among the rows stay, and each row has its verdict.
pub record ReapedAll (limit : Option ℕ) (rows : List Job) (db db' : Database) : Type 0 where
  pub kept_runs : db'.runs ≡ db.runs
  pub kept_manifests : db'.manifests ≡ db.manifests
  pub kept_authority : KeepsAuthority db.attempts db'.attempts
  pub kept_ids : map job_key db'.jobs ≡ map job_key db.jobs
  pub others_stay :
      (k : Key) → contains k (job_ids rows) ≡ false → find_job k db'.jobs ≡ find_job k db.jobs
  pub rows_change :
      (j : Job)
      → IsIn j rows
      → find_job j.job_id db.jobs ≡ some j
      → find_job j.job_id db'.jobs ≡ some (verdict_on limit db j)

find_job-other :
    (i k : Key) (f : Job → Job) (jobs : List Job)
    → ((j : Job) → job_key (f j) ≡ job_key j)
    → (k == i) ≡ false
    → find_job k (update_where (has_id i) f jobs) ≡ find_job k jobs
find_job-other i k f [] keeps ne = refl
find_job-other i k f (x ∷ jobs) keeps ne =
    ground (arith, keeps x, find_job-other i k f jobs keeps ne)

find_job_self :
    (i : Key) (f : Job → Job) (jobs : List Job) (j : Job)
    → ((j : Job) → job_key (f j) ≡ job_key j)
    → find_job i jobs ≡ some j
    → find_job i (update_where (has_id i) f jobs) ≡ some (f j)
find_job_self i f jobs j keeps h =
    ground (arith, find_key-update job_key (has_id i) f keeps i jobs, find_key-key job_key i jobs j)

reaped_job-key :
    (c : Bool) (started limit : ℕ) (j : Job) → job_key (reaped_job c started limit j) ≡ job_key j
reaped_job-key c started limit j = ground arith

module _ (limit : Option ℕ) (row : Job) (rows : List Job) (db mid db' : Database)
    (u : Unique (job_ids (row ∷ rows))) (s : Reaped limit row db mid)
    (s' : ReapedAll limit rows mid db') where
  abbrev change : Job → Job
  change =
      reaped_job (run_is_cancelled row.run_id db) row.attempts_started
        (effective_max_attempts limit row.run_id db)

  change-key : (j : Job) → job_key (change j) ≡ job_key j
  change-key =
      reaped_job-key (run_is_cancelled row.run_id db) row.attempts_started
        (effective_max_attempts limit row.run_id db)

  first_others : (k : Key) → (k == row.job_id) ≡ false → find_job k mid.jobs ≡ find_job k db.jobs
  first_others k ne =
      ap (find_job k) s.new_jobs ∙ find_job-other row.job_id k change db.jobs change-key ne

  row_in_rows : (j : Job) → IsIn j rows → (j.job_id == row.job_id) ≡ false
  row_in_rows j m = elim (Bool-cases (j.job_id == row.job_id)) [
    | inl same ↦
        let twice = IsIn-contains job_key j rows m in
        cc (twice, u.0, ap (λ k. contains k (job_ids rows)) ((==_iff _ _).0 same))
    | inr other ↦ other
  ]

  same_verdict : (j : Job) → verdict_on limit mid j ≡ verdict_on limit db j
  same_verdict j = rw (
    same_cancelled j.run_id db mid s.kept_runs,
    same_limit limit j.run_id db mid s.kept_runs s.kept_manifests,
  )

  row_changes :
      (j : Job)
      → IsIn j (row ∷ rows)
      → find_job j.job_id db.jobs ≡ some j
      → find_job j.job_id db'.jobs ≡ some (verdict_on limit db j)
  row_changes j (inl e) found =
      let here : find_job row.job_id db.jobs ≡ some row =
        subst (λ x. find_job x.job_id db.jobs ≡ some x) e found in
      let hit : find_job row.job_id mid.jobs ≡ some (verdict_on limit db row) =
        ap (find_job row.job_id) s.new_jobs
        ∙ find_job_self row.job_id change db.jobs row change-key here in
      subst (λ x. find_job x.job_id db'.jobs ≡ some (verdict_on limit db x)) (sym e)
        (s'.others_stay row.job_id u.0 ∙ hit)
  row_changes j (inr m) found =
      s'.rows_change j m (first_others j.job_id (row_in_rows j m) ∙ found)
      ∙ ap some (same_verdict j)

  extend_reaped : ReapedAll limit (row ∷ rows) db db'
  extend_reaped = record {
    kept_runs = s'.kept_runs ∙ s.kept_runs;
    kept_manifests = s'.kept_manifests ∙ s.kept_manifests;
    kept_authority = λ k a h t. s'.kept_authority k a (s.kept_authority k a h t) t;
    kept_ids =
        s'.kept_ids
        ∙ ap (map job_key) s.new_jobs
        ∙ keys-update job_key (has_id row.job_id) change change-key db.jobs;
    others_stay = λ k h. s'.others_stay k (ground arith) ∙ first_others k (ground arith);
    rows_change = row_changes;
  }

pub reap_rows-ok :
    (limit : Option ℕ) (now : ℕ) (rows : List Job) (db : Database)
    → Unique (job_ids rows)
    → (db' : Database) × (reap_rows limit now rows db ≡ ok db') × ReapedAll limit rows db db'
unfolding reap_rows
reap_rows-ok limit now [] db u = (
  db,
  refl,
  record {
    kept_runs = refl;
    kept_manifests = refl;
    kept_authority = λ k a h _. h;
    kept_ids = refl;
    others_stay = λ k _. refl;
    rows_change = λ j m _. absurd m;
  },
)
reap_rows-ok limit now (row ∷ rows) db u =
    let (mid, e, s) = reap_row-ok limit now row db in
    let (db', e', s') = reap_rows-ok limit now rows mid u.1 in
    (db', rw (e, e'), extend_reaped limit row rows db mid db' u s s')
