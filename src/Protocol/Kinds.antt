-- ===== src/Protocol/Kinds.antt =====
-- `_KIND_REGISTRY` of src/verifierci/models/protocol.py.
pub mod Tasks
pub mod Verifiers
pub mod Policies
pub mod Runs
pub mod Panels
pub mod Results
pub mod Bundles
use verifier_ci.Prelude.{List, [], ◌∷◌, String}
use verifier_ci.Protocol.Annotation.{FieldTypes}
use verifier_ci.Protocol.Kinds.Tasks.{
  task_fields, requirement_fields, contract_fields, repository_snapshot_fields, environment_fields,
}
use verifier_ci.Protocol.Kinds.Verifiers.{
  command_spec_fields, verifier_version_fields, verifier_manifest_fields,
}
use verifier_ci.Protocol.Kinds.Policies.{
  review_vote_fields, task_pin_fields, resource_usage_fields, job_fields, acceptance_cell_fields,
  metric_term_fields, gate_evidence_fields, import_request_fields, sandbox_policy_fields,
  gate_policy_fields, analysis_plan_fields,
}
use verifier_ci.Protocol.Kinds.Runs.{
  test_result_fields, test_report_fields, execution_capture_fields, parsed_outcome_fields,
  audit_options_fields, telemetry_event_fields, bootstrap_result_fields, review_agreement_fields,
  training_example_fields, benchmark_version_fields,
}
use verifier_ci.Protocol.Kinds.Panels.{
  patch_case_fields, witness_fields, adjudication_fields, patch_panel_fields,
  patch_panel_membership_fields, agent_run_fields,
}
use verifier_ci.Protocol.Kinds.Results.{
  evaluation_attempt_fields, acceptance_matrix_fields, metric_result_fields, gate_decision_fields,
  artifact_fields, audit_manifest_fields, audit_run_fields,
}
use verifier_ci.Protocol.Kinds.Bundles.{
  import_bundle_fields, local_import_manifest_fields, audit_result_fields,
}

unfoldable pub kind_registry : List (String × FieldTypes)
kind_registry =
    ("ReviewVote", review_vote_fields)
    ∷ ("TaskPin", task_pin_fields)
    ∷ ("ResourceUsage", resource_usage_fields)
    ∷ ("Job", job_fields)
    ∷ ("AcceptanceCell", acceptance_cell_fields)
    ∷ ("MetricTerm", metric_term_fields)
    ∷ ("GateEvidence", gate_evidence_fields)
    ∷ ("ImportRequest", import_request_fields)
    ∷ ("ImportBundle", import_bundle_fields)
    ∷ ("LocalImportManifest", local_import_manifest_fields)
    ∷ ("SandboxPolicy", sandbox_policy_fields)
    ∷ ("GatePolicy", gate_policy_fields)
    ∷ ("AnalysisPlan", analysis_plan_fields)
    ∷ ("TestResult", test_result_fields)
    ∷ ("TestReport", test_report_fields)
    ∷ ("ExecutionCapture", execution_capture_fields)
    ∷ ("ParsedOutcome", parsed_outcome_fields)
    ∷ ("CommandSpec", command_spec_fields)
    ∷ ("AuditOptions", audit_options_fields)
    ∷ ("AuditResult", audit_result_fields)
    ∷ ("TelemetryEvent", telemetry_event_fields)
    ∷ ("BootstrapResult", bootstrap_result_fields)
    ∷ ("ReviewAgreement", review_agreement_fields)
    ∷ ("TrainingExample", training_example_fields)
    ∷ ("BenchmarkVersion", benchmark_version_fields)
    ∷ ("Task", task_fields)
    ∷ ("Requirement", requirement_fields)
    ∷ ("Contract", contract_fields)
    ∷ ("RepositorySnapshot", repository_snapshot_fields)
    ∷ ("Environment", environment_fields)
    ∷ ("PatchCase", patch_case_fields)
    ∷ ("Witness", witness_fields)
    ∷ ("Adjudication", adjudication_fields)
    ∷ ("PatchPanel", patch_panel_fields)
    ∷ ("PatchPanelMembership", patch_panel_membership_fields)
    ∷ ("AgentRun", agent_run_fields)
    ∷ ("VerifierVersion", verifier_version_fields)
    ∷ ("VerifierManifest", verifier_manifest_fields)
    ∷ ("EvaluationAttempt", evaluation_attempt_fields)
    ∷ ("AcceptanceMatrix", acceptance_matrix_fields)
    ∷ ("MetricResult", metric_result_fields)
    ∷ ("GateDecision", gate_decision_fields)
    ∷ ("Artifact", artifact_fields)
    ∷ ("AuditManifest", audit_manifest_fields)
    ∷ ("AuditRun", audit_run_fields)
    ∷ []
