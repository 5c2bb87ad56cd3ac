-- ===== src/Planner/Build.antt =====
-- `build_manifest` and `compute_expansion_digest`. The digests, the clock and the new run identity
-- are parameters.
use verifier_ci.Prelude.{
  ℕ, Bool, false, ◌&&◌, Option, none, some, List, [], ◌∷◌, if◌then◌else◌, ◌==◌, ltb, leb, not,
  or_default, length, is_empty, map,
}
use verifier_ci.Errors.{ErrorClass, ErrorCode}
use verifier_ci.Models.Job.{Key, Job}
use verifier_ci.Planner.Manifest.{TaskPin, PanelView, AuditOptions, AuditManifest}
use verifier_ci.Planner.Expand.{Coordinates, expand}

-- The keyword arguments.
pub record BuildRequest : Type 0 where
  pub run_id : Option Key
  pub task_pins : List TaskPin
  pub panel_key : Option Key
  pub adjudication_version : Option Key
  pub policy_hash : Option Key
  pub repetitions : Option ℕ
  pub benchmark_version : Key
  pub timeout_seconds : ℕ
  pub max_attempts : ℕ
  pub resource_policy : Option Key
  pub seed : Option ℕ

-- The texts and digests of texts that the function names.
pub record Constants : Type 0 where
  pub panel_1 : Key
  pub adj_1 : Key
  pub default_policy : Key
  pub default_config : Key
  pub sandbox_policy : Key
  pub harness_version : Key
  pub host : Key
  pub temp : Key

pub data Built : Type 0 where
  built : AuditManifest → Built
  refused : ErrorClass → ErrorCode → Built

abbrev insert_key : Key → List Key → List Key
insert_key k [] = k ∷ []
insert_key k (x ∷ xs) = if leb k x then k ∷ x ∷ xs else x ∷ insert_key k xs

unfoldable pub sort_keys : List Key → List Key
sort_keys [] = []
sort_keys (k ∷ ks) = insert_key k (sort_keys ks)

-- `compute_expansion_digest` on jobs; `digest` is that of a list of identifiers.
unfoldable pub compute_expansion_digest : (List Key → Key) → List Job → Key
unfolding sort_keys
compute_expansion_digest digest jobs = digest (sort_keys (map (λ j. j.job_id) jobs))

-- `repetitions or 3`
abbrev or_three : Option ℕ → ℕ
or_three none = 3
or_three (some n) = if n == 0 then 3 else n

abbrev from_options {ℓ} : {A : Type ℓ} → Option AuditOptions → (AuditOptions → A) → A → A
from_options none f default = default
from_options (some o) f default = f o

abbrev from_panel {ℓ} : {A : Type ℓ} → Option PanelView → (PanelView → A) → A → A
from_panel none f default = default
from_panel (some p) f default = f p

-- `task_pins or pins`
abbrev pub effective_pins : BuildRequest → List TaskPin → List TaskPin
effective_pins r pins = if is_empty r.task_pins then pins else r.task_pins

-- `options and options.max_jobs and len(planned_jobs) > options.max_jobs`
abbrev pub exceeds : Option AuditOptions → List Job → Bool
exceeds none jobs = false
exceeds (some o) jobs = not (o.max_jobs == 0) && ltb o.max_jobs (length jobs)

-- The manifest before its digests are known.
abbrev pub temp_manifest :
    Constants
    → Key
    → ℕ
    → BuildRequest
    → Option AuditOptions
    → List TaskPin
    → Option PanelView
    → AuditManifest
temp_manifest c new_run now r options pins panel = record {
  manifest_hash = c.temp;
  run_id = or_default r.run_id new_run;
  benchmark_version =
      from_options options (λ o. or_default o.benchmark_file r.benchmark_version)
        r.benchmark_version;
  task_pins = effective_pins r pins;
  panel_key = from_panel panel (λ p. p.panel_key) (or_default r.panel_key c.panel_1);
  adjudication_version =
      from_panel panel (λ p. p.membership_digest) (or_default r.adjudication_version c.adj_1);
  evaluation_harness_version = c.harness_version;
  config_hash = c.default_config;
  policy_hash = or_default r.policy_hash c.default_policy;
  analysis_plan_hash = none;
  timestamp = now;
  host_fingerprint = c.host;
  seed = from_options options (λ o. o.seed) r.seed;
  agent_version = none;
  model_identifier = none;
  max_repetitions = from_options options (λ o. o.repetitions) (or_three r.repetitions);
  max_attempts_per_job = from_options options (λ o. o.max_attempts) r.max_attempts;
  timeout_seconds = from_options options (λ o. o.timeout_seconds) r.timeout_seconds;
  resource_policy = or_default r.resource_policy c.sandbox_policy;
  expansion_digest = c.temp;
  parent_run_id = from_options options (λ o. o.parent_run_id) none;
}

-- `job_id` is the digest of coordinates, `ids_digest` that of a list of identifiers and `content_hash`
-- that of a manifest without its own hash.
module _ (job_id : Coordinates → Key) (ids_digest : List Key → Key)
    (content_hash : AuditManifest → Key) where
  abbrev pub finished : AuditManifest → List Job → AuditManifest
  finished m jobs =
      let planned = record m { expansion_digest = compute_expansion_digest ids_digest jobs } in
      record planned { manifest_hash = content_hash planned }

  unfoldable pub build_manifest :
      Constants
      → Key
      → ℕ
      → BuildRequest
      → Option AuditOptions
      → List TaskPin
      → Option PanelView
      → Built
  unfolding expand compute_expansion_digest
  build_manifest c new_run now r options pins panel =
      let m = temp_manifest c new_run now r options pins panel in
      if is_empty (effective_pins r pins)
      then refused ErrorClass.validation_error ErrorCode.validation_error
      else if exceeds options (expand job_id m panel)
      then refused ErrorClass.validation_error ErrorCode.resource_exhausted
      else built (finished m (expand job_id m panel))
