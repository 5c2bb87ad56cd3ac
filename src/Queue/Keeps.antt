-- ===== src/Queue/Keeps.antt =====
-- What every operation of jobs.py keeps across the three tables that it writes, and that the
-- single statements keep it.
use verifier_ci.Prelude.{
  ℕ, ◌≡◌, refl, ◌∙◌, Bool, true, false, ◌&&◌, some, List, [], ◌∷◌, ◌++◌, map, arith, Bool-cases,
  inl, inr, any, subst, sym,
}
use verifier_ci.Prelude.Tables.{
  find_key-key, find_key-update, find_key-append_new, keys-update, update_where, any-find_key,
}
use verifier_ci.Models.Job.{Key, Job}
use verifier_ci.Models.Attempt.{is_authoritative}
use verifier_ci.Queue.Database.{
  Database, AttemptRow, RunRow, ok, find_job, find_attempt, find_run, update_jobs, update_attempts,
  is_rejected,
}
use verifier_ci.Queue.RunState.{run_is_terminal, next_run_row, update_run_state}
use verifier_ci.Queue.Evolution.{
  job_key, Advance, Evolves, Evolves-refl, Evolves-trans, update-Evolves,
}

-- From one row of a run to a later one: a terminal run keeps its state and its end, a request for
-- cancellation stays, and the manifest is the same.
pub record RunAdvance (r r' : RunRow) : Type 0 where
  pub same_manifest : r'.manifest_hash ≡ r.manifest_hash
  pub cancel_stays : r.cancel_requested ≡ true → r'.cancel_requested ≡ true
  pub state_stays : run_is_terminal r.state ≡ true → r'.state ≡ r.state
  pub finish_stays : run_is_terminal r.state ≡ true → r'.finished_at ≡ r.finished_at

abbrev pub RunsEvolve : List RunRow → List RunRow → Type 0
RunsEvolve runs runs' =
    (k : Key) (r : RunRow)
    → find_run k runs ≡ some r
    → (r' : RunRow) × (find_run k runs' ≡ some r') × RunAdvance r r'

-- An authoritative attempt is still stored, as it was.
abbrev pub KeepsAuthority : List AttemptRow → List AttemptRow → Type 0
KeepsAuthority attempts attempts' =
    (k : Key) (a : AttemptRow)
    → find_attempt k attempts ≡ some a
    → is_authoritative a.disposition ≡ true
    → find_attempt k attempts' ≡ some a

pub record Keeps (db db' : Database) : Type 0 where
  pub jobs_evolve : Evolves db.jobs db'.jobs
  pub runs_evolve : RunsEvolve db.runs db'.runs
  pub authority_stays : KeepsAuthority db.attempts db'.attempts
  pub same_ids : map job_key db'.jobs ≡ map job_key db.jobs

RunAdvance-refl : (r : RunRow) → RunAdvance r r
RunAdvance-refl r = record {
  same_manifest = refl;
  cancel_stays = λ h. h;
  state_stays = λ _. refl;
  finish_stays = λ _. refl;
}

RunAdvance-trans : (a b c : RunRow) → RunAdvance a b → RunAdvance b c → RunAdvance a c
RunAdvance-trans a b c h k = record {
  same_manifest = k.same_manifest ∙ h.same_manifest;
  cancel_stays = λ t. k.cancel_stays (h.cancel_stays t);
  state_stays = λ t. k.state_stays (rw (h.state_stays t) t) ∙ h.state_stays t;
  finish_stays = λ t. k.finish_stays (rw (h.state_stays t) t) ∙ h.finish_stays t;
}

RunsEvolve-refl : (runs : List RunRow) → RunsEvolve runs runs
RunsEvolve-refl runs k r h = (r, h, RunAdvance-refl r)

RunsEvolve-trans : (a b c : List RunRow) → RunsEvolve a b → RunsEvolve b c → RunsEvolve a c
RunsEvolve-trans a b c f g k r h =
    let (r', h', adv') = f k r h in
    let (r'', h'', adv'') = g k r' h' in (r'', h'', RunAdvance-trans r r' r'' adv' adv'')

pub Keeps-refl : (db : Database) → Keeps db db
Keeps-refl db = record {
  jobs_evolve = Evolves-refl db.jobs;
  runs_evolve = RunsEvolve-refl db.runs;
  authority_stays = λ k a h _. h;
  same_ids = refl;
}

pub Keeps-trans : (a b c : Database) → Keeps a b → Keeps b c → Keeps a c
Keeps-trans a b c f g = record {
  jobs_evolve = Evolves-trans a.jobs b.jobs c.jobs f.jobs_evolve g.jobs_evolve;
  runs_evolve = RunsEvolve-trans a.runs b.runs c.runs f.runs_evolve g.runs_evolve;
  authority_stays = λ k r h t. g.authority_stays k r (f.authority_stays k r h t) t;
  same_ids = g.same_ids ∙ f.same_ids;
}

-- An UPDATE of jobs that advances each job that it touches.
pub update_jobs-Keeps :
    (p : Job → Bool) (f : Job → Job) (db : Database)
    → ((j : Job) → job_key (f j) ≡ job_key j)
    → ((k : Key) (j : Job) → find_job k db.jobs ≡ some j → p j ≡ true → Advance j (f j))
    → Keeps db (update_jobs p f db)
update_jobs-Keeps p f db keeps adv = record {
  jobs_evolve = update-Evolves p f keeps db.jobs adv;
  runs_evolve = RunsEvolve-refl db.runs;
  authority_stays = λ k a h _. h;
  same_ids = keys-update job_key p f keeps db.jobs;
}

-- An UPDATE of runs that advances each run that it touches.
pub update_runs-Keeps :
    (p : RunRow → Bool) (f : RunRow → RunRow) (db : Database)
    → ((r : RunRow) → (f r).run_id ≡ r.run_id)
    → ((r : RunRow) → RunAdvance r (f r))
    → Keeps db (record db { runs = update_where p f db.runs })
update_runs-Keeps p f db keeps adv = record {
  jobs_evolve = Evolves-refl db.jobs;
  runs_evolve = λ k r h. elim (Bool-cases (p r)) [
    | inl hit ↦ (f r, rw (find_key-update (λ r. r.run_id) p f keeps k db.runs, h) (rw hit), adv r)
    | inr miss ↦ (
      r,
      rw (find_key-update (λ r. r.run_id) p f keeps k db.runs, h) (rw miss),
      RunAdvance-refl r,
    )
  ];
  authority_stays = λ k a h _. h;
  same_ids = refl;
}

next_run_row-RunAdvance :
    (jobs : List Job) (now : ℕ) (r : RunRow) → RunAdvance r (next_run_row jobs now r)
unfolding next_run_row
next_run_row-RunAdvance jobs now r = record {
  same_manifest = ground arith;
  cancel_stays = λ h. ground arith;
  state_stays = λ h. ground arith;
  finish_stays = λ h. ground arith;
}

pub next_run_row-key :
    (jobs : List Job) (now : ℕ) (r : RunRow) → (next_run_row jobs now r).run_id ≡ r.run_id
unfolding next_run_row
next_run_row-key jobs now r = ground arith

pub update_run_state-Keeps :
    (run : Key) (now : ℕ) (db : Database) → Keeps db (update_run_state run now db)
unfolding update_run_state
update_run_state-Keeps run now db =
    update_runs-Keeps _ _ db (next_run_row-key db.jobs now) (next_run_row-RunAdvance db.jobs now)

abbrev attempt_key : AttemptRow → ℕ
attempt_key a = a.attempt_id

-- An INSERT of an attempt.
pub insert-Keeps :
    (a : AttemptRow) (db : Database) → Keeps db (record db { attempts = db.attempts ++ a ∷ [] })
insert-Keeps a db = record {
  jobs_evolve = Evolves-refl db.jobs;
  runs_evolve = RunsEvolve-refl db.runs;
  authority_stays = λ k b h _. find_key-append_new attempt_key k db.attempts a b h;
  same_ids = refl;
}

-- What an UPDATE of attempts that goes through has done.
pub update_attempts-ok :
    (p : AttemptRow → Bool) (f : AttemptRow → AttemptRow) (db db' : Database)
    → update_attempts p f db ≡ ok db'
    → db' ≡ record db { attempts = update_where p f db.attempts }
update_attempts-ok p f db db' h = ground arith

-- No row that it touched was authoritative.
update_attempts-open :
    (p : AttemptRow → Bool) (f : AttemptRow → AttemptRow) (db db' : Database)
    → update_attempts p f db ≡ ok db'
    → any (λ a. p a && is_rejected db f a) db.attempts ≡ false
update_attempts-open p f db db' h = ground arith

touched_is_open :
    (p : AttemptRow → Bool) (f : AttemptRow → AttemptRow) (db : Database) (a : AttemptRow)
    → (p a && is_rejected db f a) ≡ false
    → is_authoritative a.disposition ≡ true
    → p a ≡ false
touched_is_open p f db a h t = ground arith

-- An UPDATE of attempts that goes through leaves the authoritative ones alone.
pub update_attempts-Keeps :
    (p : AttemptRow → Bool) (f : AttemptRow → AttemptRow) (db db' : Database)
    → ((a : AttemptRow) → (f a).attempt_id ≡ a.attempt_id)
    → update_attempts p f db ≡ ok db'
    → Keeps db db'
update_attempts-Keeps p f db db' keeps h =
    subst (Keeps db) (sym (update_attempts-ok p f db db' h)) (record {
      jobs_evolve = Evolves-refl db.jobs;
      runs_evolve = RunsEvolve-refl db.runs;
      authority_stays = λ k a e t.
          let open_rows = update_attempts-open p f db db' h in
          let unhit =
            any-find_key attempt_key (λ b. p b && is_rejected db f b) k db.attempts a open_rows e in
          rw (find_key-update attempt_key p f keeps k db.attempts, e)
            (rw (touched_is_open p f db a unhit t));
      same_ids = refl;
    })

-- An UPDATE of one job by its identity.
pub update_row-Keeps :
    (i : Key) (p : Job → Bool) (f : Job → Job) (db : Database) (row : Job)
    → ((j : Job) → job_key (f j) ≡ job_key j)
    → ((j : Job) → p j ≡ true → j.job_id ≡ i)
    → find_job i db.jobs ≡ some row
    → Advance row (f row)
    → Keeps db (update_jobs p f db)
update_row-Keeps i p f db row keeps by_id found adv = update_jobs-Keeps p f db keeps λ k j h hit.
    let here : k ≡ i = sym (find_key-key job_key k db.jobs j h) ∙ by_id j hit in
    let same : row ≡ j = cc (subst (λ x. find_job x db.jobs ≡ some j) here h, found) in
    subst (λ x. Advance x (f x)) same adv
