-- ===== src/Protocol/Kinds/Results.antt =====
-- The annotated fields of the dataclasses of src/verifierci/models/result.py.
use verifier_ci.Prelude.{[], ◌∷◌}
use verifier_ci.Protocol.Annotation.{Annotation, FieldTypes, optional, fields_from}
use verifier_ci.Protocol.Kinds.Policies.{
  acceptance_cell_fields, gate_evidence_fields, metric_term_fields, resource_usage_fields,
  task_pin_fields,
}

-- `EvaluationAttempt`
abbrev pub evaluation_attempt_fields : FieldTypes
evaluation_attempt_fields = fields_from (
    ("attempt_id", Annotation.text)
    ∷ ("job_id", Annotation.text)
    ∷ ("fence", Annotation.integer)
    ∷ (
      "outcome",
      optional (Annotation.literal ("accept" ∷ "reject" ∷ "invalid_evaluation" ∷ "error" ∷ [])),
    )
    ∷ ("evaluation_validity", Annotation.literal ("pending" ∷ "valid" ∷ "invalid" ∷ []))
    ∷ ("error_code", optional Annotation.text)
    ∷ ("disposition", Annotation.literal ("active" ∷ "authoritative" ∷ "stale" ∷ "abandoned" ∷ []))
    ∷ ("started_at", Annotation.moment)
    ∷ ("finished_at", optional Annotation.moment)
    ∷ ("exit_code", optional Annotation.integer)
    ∷ ("stdout_hash", optional Annotation.text)
    ∷ ("stderr_hash", optional Annotation.text)
    ∷ ("report_digest", optional Annotation.text)
    ∷ ("test_collection", Annotation.tuple_of Annotation.text)
    ∷ ("tests_passed", optional Annotation.integer)
    ∷ ("tests_failed", optional Annotation.integer)
    ∷ ("resources", Annotation.dataclass "ResourceUsage" resource_usage_fields)
    ∷ ("artifact_digests", Annotation.tuple_of Annotation.text)
    ∷ ("capture_truncated", Annotation.boolean)
    ∷ [])

-- `AcceptanceMatrix`
abbrev pub acceptance_matrix_fields : FieldTypes
acceptance_matrix_fields = fields_from (
    ("matrix_id", Annotation.text)
    ∷ ("run_id", Annotation.text)
    ∷ ("reducer_version", Annotation.text)
    ∷ ("cells", Annotation.tuple_of (Annotation.dataclass "AcceptanceCell" acceptance_cell_fields))
    ∷ ("complete", Annotation.boolean)
    ∷ ("source_attempts_digest", Annotation.text)
    ∷ ("created_at", Annotation.moment)
    ∷ [])

-- `MetricResult`
abbrev pub metric_result_fields : FieldTypes
metric_result_fields = fields_from (
    ("metric_id", Annotation.text)
    ∷ ("matrix_id", Annotation.text)
    ∷ ("name", Annotation.text)
    ∷ ("definition_version", Annotation.text)
    ∷ ("verifier_key", optional Annotation.text)
    ∷ ("cohort", Annotation.literal ("challenge" ∷ "controls" ∷ "all" ∷ []))
    ∷ ("value", optional Annotation.float)
    ∷ ("numerator", optional Annotation.integer)
    ∷ ("denominator", optional Annotation.integer)
    ∷ ("task_terms", Annotation.tuple_of (Annotation.dataclass "MetricTerm" metric_term_fields))
    ∷ ("ci_low", optional Annotation.float)
    ∷ ("ci_high", optional Annotation.float)
    ∷ ("analysis_plan_hash", optional Annotation.text)
    ∷ ("coverage", Annotation.mapping Annotation.integer)
    ∷ [])

-- `GateDecision`
abbrev pub gate_decision_fields : FieldTypes
gate_decision_fields = fields_from (
    ("decision_id", Annotation.text)
    ∷ ("run_id", Annotation.text)
    ∷ ("matrix_id", optional Annotation.text)
    ∷ ("policy_hash", Annotation.text)
    ∷ (
      "state",
      Annotation.literal (
          "PASSED" ∷ "BLOCKED" ∷ "INCONCLUSIVE" ∷ "INSUFFICIENT_EVIDENCE" ∷ "INFRASTRUCTURE_ERROR"
          ∷ []),
    )
    ∷ ("exit_code", Annotation.integer)
    ∷ ("reasons", Annotation.tuple_of Annotation.text)
    ∷ ("evidence", Annotation.tuple_of (Annotation.dataclass "GateEvidence" gate_evidence_fields))
    ∷ ("reliability_flags", Annotation.tuple_of Annotation.text)
    ∷ ("created_at", Annotation.moment)
    ∷ [])

-- `Artifact`
abbrev pub artifact_fields : FieldTypes
artifact_fields = fields_from (
    ("digest", Annotation.text)
    ∷ ("kind", Annotation.text)
    ∷ ("size_bytes", Annotation.integer)
    ∷ ("storage_uri", Annotation.text)
    ∷ ("media_type", Annotation.text)
    ∷ ("access_policy", Annotation.literal ("public" ∷ "restricted" ∷ "sealed" ∷ []))
    ∷ ("retention_until", optional Annotation.moment)
    ∷ ("available", Annotation.boolean)
    ∷ ("created_at", Annotation.moment)
    ∷ [])

-- `AuditManifest`
abbrev pub audit_manifest_fields : FieldTypes
audit_manifest_fields = fields_from (
    ("manifest_hash", Annotation.text)
    ∷ ("run_id", Annotation.text)
    ∷ ("benchmark_version", Annotation.text)
    ∷ ("task_pins", Annotation.tuple_of (Annotation.dataclass "TaskPin" task_pin_fields))
    ∷ ("panel_key", Annotation.text)
    ∷ ("adjudication_version", Annotation.text)
    ∷ ("evaluation_harness_version", Annotation.text)
    ∷ ("config_hash", Annotation.text)
    ∷ ("policy_hash", Annotation.text)
    ∷ ("analysis_plan_hash", optional Annotation.text)
    ∷ ("timestamp", Annotation.moment)
    ∷ ("host_fingerprint", Annotation.text)
    ∷ ("seed", optional Annotation.integer)
    ∷ ("agent_version", optional Annotation.text)
    ∷ ("model_identifier", optional Annotation.text)
    ∷ ("max_repetitions", Annotation.integer)
    ∷ ("max_attempts_per_job", Annotation.integer)
    ∷ ("timeout_seconds", Annotation.integer)
    ∷ ("resource_policy", Annotation.text)
    ∷ ("expansion_digest", Annotation.text)
    ∷ ("parent_run_id", optional Annotation.text)
    ∷ [])

-- `AuditRun`
abbrev pub audit_run_fields : FieldTypes
audit_run_fields = fields_from (
    ("run_id", Annotation.text)
    ∷ ("manifest_hash", Annotation.text)
    ∷ (
      "state",
      Annotation.literal ("PLANNED" ∷ "RUNNING" ∷ "COMPLETE" ∷ "CANCELLED" ∷ "FAILED" ∷ []),
    )
    ∷ ("cancel_requested", Annotation.boolean)
    ∷ ("created_at", Annotation.moment)
    ∷ ("finished_at", optional Annotation.moment)
    ∷ ("diagnostic_code", optional Annotation.text)
    ∷ [])
