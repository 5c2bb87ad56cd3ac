-- ===== src/Planner/Expand.antt =====
-- `expand`: from a manifest to its jobs. The digest of the coordinates of a job is a parameter.
use verifier_ci.Prelude.{
  ℕ, zero, suc, Bool, ◌&&◌, ◌||◌, Option, none, some, List, [], ◌∷◌, ◌++◌, if◌then◌else◌, ◌==◌, ltb,
  leb, map, is_empty,
}
use verifier_ci.Models.Job.{Key, Job, JobState}
use verifier_ci.Planner.Manifest.{TaskPin, PanelView, AuditManifest}

-- The arguments of `job_id`.
pub record Coordinates : Type 0 where
  pub run_id : Key
  pub task_key : Key
  pub case_id : Key
  pub verifier_key : Key
  pub repetition : ℕ

abbrev pub planned_job : (Coordinates → Key) → Coordinates → Job
planned_job job_id c = record {
  job_id = job_id c;
  run_id = c.run_id;
  task_key = c.task_key;
  case_id = c.case_id;
  verifier_key = c.verifier_key;
  repetition = c.repetition;
  state = JobState.pending;
  fence = 0;
  attempt_id = none;
  lease_token = none;
  worker_id = none;
  lease_expires_ms = none;
  attempts_started = 0;
  selected_attempt_id = none;
  terminal_reason = none;
}

-- The cases of the pin, or those of the panel if the pin has none and the panel has memberships.
unfoldable pub cases_of : TaskPin → Option PanelView → List Key
cases_of pin none = pin.case_ids
cases_of pin (some panel) =
    if is_empty pin.case_ids
    then elim panel.memberships [ none ↦ pin.case_ids | some cases ↦ cases ]
    else pin.case_ids

abbrev pub coordinates : Key → TaskPin → Key → Key → ℕ → Coordinates
coordinates run pin case verifier repetition = record {
  run_id = run;
  task_key = pin.task_key;
  case_id = case;
  verifier_key = verifier;
  repetition = repetition;
}

-- `for rep in range(…)`, from `r` on.
unfoldable pub repetitions_of : Key → TaskPin → Key → Key → ℕ → ℕ → List Coordinates
repetitions_of run pin case verifier r zero = []
repetitions_of run pin case verifier r (suc left) =
    coordinates run pin case verifier r ∷ repetitions_of run pin case verifier (suc r) left

-- `for v_key in verifiers`
unfoldable pub verifiers_of : Key → TaskPin → ℕ → Key → List Coordinates
unfolding repetitions_of
verifiers_of run pin repetitions case =
    repetitions_of run pin case pin.verifier_baseline_version 0 repetitions
    ++ repetitions_of run pin case pin.verifier_candidate_version 0 repetitions

-- `for case_id in case_ids`
unfoldable pub cases_in : Key → TaskPin → ℕ → List Key → List Coordinates
unfolding verifiers_of
cases_in run pin repetitions [] = []
cases_in run pin repetitions (case ∷ cases) =
    verifiers_of run pin repetitions case ++ cases_in run pin repetitions cases

-- `for pin in manifest.task_pins`
unfoldable pub pins_in : Key → ℕ → Option PanelView → List TaskPin → List Coordinates
unfolding cases_in cases_of
pins_in run repetitions panel [] = []
pins_in run repetitions panel (pin ∷ pins) =
    cases_in run pin repetitions (cases_of pin panel) ++ pins_in run repetitions panel pins

-- `a <= b` on the tuples (task_key, case_id, verifier_key, repetition).
abbrev pub job_le : Job → Job → Bool
job_le a b =
    ltb a.task_key b.task_key
    || ((a.task_key == b.task_key)
        && (ltb a.case_id b.case_id
            || ((a.case_id == b.case_id)
                && (ltb a.verifier_key b.verifier_key
                    || ((a.verifier_key == b.verifier_key) && leb a.repetition b.repetition)))))

abbrev pub insert_job : Job → List Job → List Job
insert_job j [] = j ∷ []
insert_job j (k ∷ ks) = if job_le j k then j ∷ k ∷ ks else k ∷ insert_job j ks

-- `sorted`, which keeps the order of equal keys.
unfoldable pub sort_jobs : List Job → List Job
sort_jobs [] = []
sort_jobs (j ∷ js) = insert_job j (sort_jobs js)

unfoldable pub expand : (Coordinates → Key) → AuditManifest → Option PanelView → List Job
unfolding pins_in sort_jobs
expand job_id manifest panel = sort_jobs (
    map (planned_job job_id)
      (pins_in manifest.run_id manifest.max_repetitions panel manifest.task_pins))
