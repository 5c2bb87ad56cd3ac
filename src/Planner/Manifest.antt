-- ===== src/Planner/Manifest.antt =====
-- What a plan is made of: `TaskPin` and the fields of `AuditOptions` that the planner reads
-- (src/verifierci/models/protocol.py), and `AuditManifest` (src/verifierci/models/result.py). A text
-- that is only copied or compared is a key.
use verifier_ci.Prelude.{ℕ, Option, List}
use verifier_ci.Models.Job.{Key}

pub record TaskPin : Type 0 where
  pub task_key : Key
  pub task_version : Key
  pub contract_hash : Key
  pub repository_snapshot_digest : Key
  pub environment_id : Key
  pub environment_image_digest : Option Key
  pub verifier_baseline_version : Key
  pub verifier_candidate_version : Key
  pub baseline_manifest_hash : Key
  pub candidate_manifest_hash : Key
  pub case_ids : List Key

-- The panel that is passed in. `memberships` is `none` for an object without such an attribute, which
-- a `PatchPanel` is.
pub record PanelView : Type 0 where
  pub panel_key : Key
  pub membership_digest : Key
  pub memberships : Option (List Key)

pub record AuditOptions : Type 0 where
  pub benchmark_file : Option Key
  pub repetitions : ℕ
  pub max_attempts : ℕ
  pub parent_run_id : Option Key
  pub max_jobs : ℕ
  pub timeout_seconds : ℕ
  pub seed : Option ℕ

pub record AuditManifest : Type 0 where
  pub manifest_hash : Key
  pub run_id : Key
  pub benchmark_version : Key
  pub task_pins : List TaskPin
  pub panel_key : Key
  pub adjudication_version : Key
  pub evaluation_harness_version : Key
  pub config_hash : Key
  pub policy_hash : Key
  pub analysis_plan_hash : Option Key
  pub timestamp : ℕ
  pub host_fingerprint : Key
  pub seed : Option ℕ
  pub agent_version : Option Key
  pub model_identifier : Option Key
  pub max_repetitions : ℕ
  pub max_attempts_per_job : ℕ
  pub timeout_seconds : ℕ
  pub resource_policy : Key
  pub expansion_digest : Key
  pub parent_run_id : Option Key
