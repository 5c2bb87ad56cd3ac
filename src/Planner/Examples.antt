-- ===== src/Planner/Examples.antt =====
-- A plan of one task with one case, two verifiers and two repetitions.
use verifier_ci.Prelude.{
  ◌+◌, ◌*◌, ◌≡◌, ◌↔◌, refl, false, none, some, List, [], ◌∷◌, arith, map, is_empty, length,
}
use verifier_ci.Prelude.Tables.{IsIn}
use verifier_ci.Errors.{ErrorClass, ErrorCode}
use verifier_ci.Models.Job.{Key, Job}
use verifier_ci.Queue.Database.{Database}
use verifier_ci.Queue.Claims.{HasUniqueJobs}
use verifier_ci.Planner.Manifest.{TaskPin, AuditOptions, AuditManifest}
use verifier_ci.Planner.Expand.{Coordinates, expand, cases_of}
use verifier_ci.Planner.Build.{
  BuildRequest, Constants, Built, built, refused, build_manifest, compute_expansion_digest,
}
use verifier_ci.Planner.Coverage.{OfPins}
use verifier_ci.Planner.Asked.{IsAsked, new_job, expand-IsAsked}
use verifier_ci.Planner.Distinct.{expand-HasUniqueJobs}
use verifier_ci.Planner.Records.{WithinCeiling, build_manifest-expand}

abbrev pin : TaskPin
pin = record {
  task_key = 20;
  task_version = 1;
  contract_hash = 2;
  repository_snapshot_digest = 3;
  environment_id = 4;
  environment_image_digest = none;
  verifier_baseline_version = 5;
  verifier_candidate_version = 6;
  baseline_manifest_hash = 7;
  candidate_manifest_hash = 8;
  case_ids = 30 ∷ [];
}

abbrev request : BuildRequest
request = record {
  run_id = some 9;
  task_pins = [];
  panel_key = none;
  adjudication_version = none;
  policy_hash = none;
  repetitions = some 2;
  benchmark_version = 10;
  timeout_seconds = 120;
  max_attempts = 3;
  resource_policy = none;
  seed = none;
}

abbrev constants : Constants
constants = record {
  panel_1 = 11;
  adj_1 = 12;
  default_policy = 13;
  default_config = 14;
  sandbox_policy = 15;
  harness_version = 16;
  host = 17;
  temp = 18;
}

-- Digests that tell these coordinates apart.
abbrev id_of : Coordinates → Key
id_of c = c.verifier_key * 10 + c.repetition

abbrev sum_of : List Key → Key
sum_of [] = 0
sum_of (k ∷ ks) = k + sum_of ks

abbrev hash_of : AuditManifest → Key
hash_of m = m.run_id + m.expansion_digest

abbrev result : Built
result = build_manifest id_of sum_of hash_of constants 99 1_000 request none (pin ∷ []) none

abbrev manifest_of : Built → AuditManifest → AuditManifest
manifest_of (built m) default = m
manifest_of (refused _ _) default = default

abbrev manifest : AuditManifest
manifest = record {
  manifest_hash = 231;
  run_id = 9;
  benchmark_version = 10;
  task_pins = pin ∷ [];
  panel_key = 11;
  adjudication_version = 12;
  evaluation_harness_version = 16;
  config_hash = 14;
  policy_hash = 13;
  analysis_plan_hash = none;
  timestamp = 1_000;
  host_fingerprint = 17;
  seed = none;
  agent_version = none;
  model_identifier = none;
  max_repetitions = 2;
  max_attempts_per_job = 3;
  timeout_seconds = 120;
  resource_policy = 15;
  expansion_digest = 222;
  parent_run_id = none;
}

abbrev options : AuditOptions
options = record {
  benchmark_file = none;
  repetitions = 2;
  max_attempts = 3;
  parent_run_id = none;
  max_jobs = 4;
  timeout_seconds = 120;
  seed = none;
}

-- Four jobs are too many for a ceiling of three.
too_many :
    build_manifest id_of sum_of hash_of constants 99 1_000 request
      (some (record options { max_jobs = 3 }))
      (pin ∷ [])
      none
    ≡ refused ErrorClass.validation_error ErrorCode.resource_exhausted
unfolding build_manifest expand compute_expansion_digest
too_many = refl

build_manifest-expand_example :
    (222 ≡ compute_expansion_digest sum_of (expand id_of manifest none))
    × (is_empty (pin ∷ []) ≡ false)
    × WithinCeiling (some options) (length (expand id_of manifest none))
unfolding build_manifest expand compute_expansion_digest
build_manifest-expand_example =
    build_manifest-expand id_of sum_of hash_of constants 99 1_000 request (some options) (pin ∷ [])
      none manifest refl

abbrev first : Coordinates
first = record { run_id = 9; task_key = 20; case_id = 30; verifier_key = 5; repetition = 0 }

expand-IsAsked_example :
    IsIn (new_job 50 first) (expand id_of manifest none)
    ↔ ((c : Coordinates) × IsAsked manifest none c × (new_job 50 first ≡ new_job (id_of c) c))
expand-IsAsked_example = expand-IsAsked id_of manifest none (new_job 50 first)

abbrev planned : Database
planned = record {
  jobs = expand id_of manifest none;
  attempts = [];
  runs = [];
  manifests = [];
  artifacts = [];
}

apart :
    (c c' : Coordinates)
    → OfPins 9 2 none (pin ∷ []) c
    → OfPins 9 2 none (pin ∷ []) c'
    → id_of c ≡ id_of c'
    → c ≡ c'
unfolding cases_of
apart c c' h h' e = ground arith

expand-HasUniqueJobs_example : HasUniqueJobs planned
unfolding cases_of
expand-HasUniqueJobs_example =
    expand-HasUniqueJobs id_of manifest none planned (refl, (refl, tt), (λ e. ground arith), tt)
      apart refl

four_jobs : map (λ (j : Job). j.job_id) (expand id_of manifest none) ≡ 50 ∷ 51 ∷ 60 ∷ 61 ∷ []
unfolding expand
four_jobs = refl

-- A panel without memberships does not stand in for cases that a pin leaves out.
no_cases :
    expand id_of
      (record manifest { task_pins = record pin { case_ids = [] } ∷ [] })
      (some (record { panel_key = 1; membership_digest = 2; memberships = none }))
    ≡ []
unfolding expand
no_cases = refl
