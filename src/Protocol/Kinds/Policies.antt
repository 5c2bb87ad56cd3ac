-- ===== src/Protocol/Kinds/Policies.antt =====
-- The annotated fields of the dataclasses of src/verifierci/models/protocol.py.
use verifier_ci.Prelude.{[], ◌∷◌}
use verifier_ci.Protocol.Annotation.{Annotation, FieldTypes, optional, fields_from}

-- `ReviewVote`
abbrev pub review_vote_fields : FieldTypes
review_vote_fields = fields_from (
    ("reviewer_id", Annotation.text)
    ∷ ("label", Annotation.literal ("valid" ∷ "invalid" ∷ "unresolved" ∷ []))
    ∷ ("rationale", Annotation.text)
    ∷ ("minutes", optional Annotation.float)
    ∷ ("blinded_to_verifier", Annotation.boolean)
    ∷ ("independent_of_author", Annotation.boolean)
    ∷ ("recorded_at", Annotation.moment)
    ∷ [])

-- `TaskPin`
abbrev pub task_pin_fields : FieldTypes
task_pin_fields = fields_from (
    ("task_key", Annotation.text)
    ∷ ("task_version", Annotation.text)
    ∷ ("contract_hash", Annotation.text)
    ∷ ("repository_snapshot_digest", Annotation.text)
    ∷ ("environment_id", Annotation.text)
    ∷ ("environment_image_digest", optional Annotation.text)
    ∷ ("verifier_baseline_version", Annotation.text)
    ∷ ("verifier_candidate_version", Annotation.text)
    ∷ ("baseline_manifest_hash", Annotation.text)
    ∷ ("candidate_manifest_hash", Annotation.text)
    ∷ ("case_ids", Annotation.tuple_of Annotation.text)
    ∷ [])

-- `ResourceUsage`
abbrev pub resource_usage_fields : FieldTypes
resource_usage_fields = fields_from (
    ("duration", optional Annotation.float)
    ∷ ("allocated_cpu", optional Annotation.float)
    ∷ ("cpu_seconds", optional Annotation.float)
    ∷ ("peak_memory", optional Annotation.integer)
    ∷ ("model_usage", optional (Annotation.mapping Annotation.integer))
    ∷ ("estimated_cost", optional Annotation.text)
    ∷ ("pricing_version", optional Annotation.text)
    ∷ ("bytes_written", optional Annotation.integer)
    ∷ [])

-- `Job`
abbrev pub job_fields : FieldTypes
job_fields = fields_from (
    ("job_id", Annotation.text)
    ∷ ("run_id", Annotation.text)
    ∷ ("task_key", Annotation.text)
    ∷ ("case_id", Annotation.text)
    ∷ ("verifier_key", Annotation.text)
    ∷ ("repetition", Annotation.integer)
    ∷ (
      "state",
      Annotation.literal ("PENDING" ∷ "CLAIMED" ∷ "RUNNING" ∷ "DONE" ∷ "FAILED" ∷ "ABANDONED" ∷ []),
    )
    ∷ ("fence", Annotation.integer)
    ∷ ("attempt_id", optional Annotation.text)
    ∷ ("lease_token", optional Annotation.text)
    ∷ ("worker_id", optional Annotation.text)
    ∷ ("lease_expires_ms", optional Annotation.integer)
    ∷ ("attempts_started", Annotation.integer)
    ∷ ("selected_attempt_id", optional Annotation.text)
    ∷ ("terminal_reason", optional Annotation.text)
    ∷ [])

-- `AcceptanceCell`
abbrev pub acceptance_cell_fields : FieldTypes
acceptance_cell_fields = fields_from (
    ("task_key", Annotation.text)
    ∷ ("repository_id", Annotation.text)
    ∷ ("case_id", Annotation.text)
    ∷ ("verifier_key", Annotation.text)
    ∷ ("adjudication_id", Annotation.text)
    ∷ ("label", Annotation.literal ("valid" ∷ "invalid" ∷ "unresolved" ∷ []))
    ∷ ("role", Annotation.literal ("challenge" ∷ "reference" ∷ "noop" ∷ []))
    ∷ (
      "outcome",
      Annotation.literal ("accept" ∷ "reject" ∷ "invalid_evaluation" ∷ "flaky" ∷ "error" ∷ []),
    )
    ∷ ("evaluation_validity", Annotation.literal ("valid" ∷ "invalid" ∷ []))
    ∷ ("planned_repetitions", Annotation.integer)
    ∷ ("selected_attempt_ids", Annotation.tuple_of Annotation.text)
    ∷ ("excluded_attempt_ids", Annotation.tuple_of Annotation.text)
    ∷ ("repetition_outcomes", Annotation.tuple_of Annotation.text)
    ∷ ("diagnostic_codes", Annotation.tuple_of Annotation.text)
    ∷ [])

-- `MetricTerm`
abbrev pub metric_term_fields : FieldTypes
metric_term_fields = fields_from (
    ("task_key", Annotation.text)
    ∷ ("numerator", Annotation.integer)
    ∷ ("denominator", Annotation.integer)
    ∷ ("excluded", Annotation.mapping Annotation.integer)
    ∷ [])

-- `GateEvidence`
abbrev pub gate_evidence_fields : FieldTypes
gate_evidence_fields = fields_from (
    ("rule_id", Annotation.text)
    ∷ ("case_id", Annotation.text)
    ∷ ("adjudication_id", Annotation.text)
    ∷ ("contract_hash", Annotation.text)
    ∷ ("baseline_outcome", Annotation.text)
    ∷ ("candidate_outcome", Annotation.text)
    ∷ ("witness_ids", Annotation.tuple_of Annotation.text)
    ∷ ("artifact_digests", Annotation.tuple_of Annotation.text)
    ∷ ("explanation", Annotation.text)
    ∷ [])

-- `ImportRequest`
abbrev pub import_request_fields : FieldTypes
import_request_fields = fields_from (
    ("adapter", Annotation.text)
    ∷ ("instance", Annotation.text)
    ∷ ("source", Annotation.text)
    ∷ ("source_revision", Annotation.text)
    ∷ ("environment_manifest", optional Annotation.text)
    ∷ ("output_dir", Annotation.text)
    ∷ ("dry_run", Annotation.boolean)
    ∷ [])

-- `SandboxPolicy`
abbrev pub sandbox_policy_fields : FieldTypes
sandbox_policy_fields = fields_from (
    ("policy_hash", Annotation.text)
    ∷ ("cpus", Annotation.float)
    ∷ ("memory_bytes", Annotation.integer)
    ∷ ("pids", Annotation.integer)
    ∷ ("wall_seconds", Annotation.integer)
    ∷ ("cleanup_grace_seconds", Annotation.integer)
    ∷ ("workspace_bytes", Annotation.integer)
    ∷ ("workspace_inodes", Annotation.integer)
    ∷ ("tmp_bytes", Annotation.integer)
    ∷ ("artifact_bytes", Annotation.integer)
    ∷ ("stream_bytes", Annotation.integer)
    ∷ ("artifact_files", Annotation.integer)
    ∷ ("network", Annotation.literal ("none" ∷ []))
    ∷ ("seccomp_digest", Annotation.text)
    ∷ ("max_jobs", Annotation.integer)
    ∷ ("max_concurrency", Annotation.integer)
    ∷ [])

-- `GatePolicy`
abbrev pub gate_policy_fields : FieldTypes
gate_policy_fields = fields_from (
    ("policy_hash", Annotation.text)
    ∷ ("scope", Annotation.literal ("diagnostic" ∷ "panel_release" ∷ "research" ∷ []))
    ∷ ("max_flaky_rate", Annotation.float)
    ∷ ("max_invalid_evaluation_rate", Annotation.float)
    ∷ ("max_error_rate", Annotation.float)
    ∷ ("min_valid_per_task", Annotation.integer)
    ∷ ("min_invalid_per_task", Annotation.integer)
    ∷ ("min_paired_tasks", Annotation.integer)
    ∷ ("min_pair_coverage", Annotation.float)
    ∷ ("min_caught_invalid", Annotation.integer)
    ∷ ("min_iar_improvement", Annotation.float)
    ∷ ("max_vrr_increase", Annotation.float)
    ∷ ("require_independent_review", Annotation.boolean)
    ∷ ("require_no_new_invalid_acceptance", Annotation.boolean)
    ∷ ("require_controls_match", Annotation.boolean)
    ∷ [])

-- `AnalysisPlan`
abbrev pub analysis_plan_fields : FieldTypes
analysis_plan_fields = fields_from (
    ("plan_hash", Annotation.text)
    ∷ ("registered_at", Annotation.moment)
    ∷ ("cohort_digest", Annotation.text)
    ∷ ("verifier_candidates", Annotation.tuple_of Annotation.text)
    ∷ ("primary_outcomes", Annotation.tuple_of Annotation.text)
    ∷ ("min_iar_improvement", Annotation.float)
    ∷ ("vrr_noninferiority_margin", Annotation.float)
    ∷ ("alpha", Annotation.float)
    ∷ ("bootstrap_draws", Annotation.integer)
    ∷ ("seed", Annotation.integer)
    ∷ ("budgets", Annotation.mapping Annotation.float)
    ∷ ("exclusions", Annotation.tuple_of Annotation.text)
    ∷ ("secondary_hypotheses", Annotation.tuple_of Annotation.text)
    ∷ ("stopping_rule", Annotation.text)
    ∷ [])
