-- ===== src/Protocol/Kinds/Runs.antt =====
-- The annotated fields of the dataclasses of src/verifierci/models/protocol.py.
use verifier_ci.Prelude.{[], ◌∷◌}
use verifier_ci.Protocol.Annotation.{Annotation, FieldTypes, optional, fields_from}
use verifier_ci.Protocol.Kinds.Policies.{resource_usage_fields}

-- `TestResult`
abbrev pub test_result_fields : FieldTypes
test_result_fields = fields_from (
    ("test_id", Annotation.text)
    ∷ ("status", Annotation.literal ("passed" ∷ "failed" ∷ "skipped" ∷ "error" ∷ []))
    ∷ ("duration", optional Annotation.float)
    ∷ ("failure_digest", optional Annotation.text)
    ∷ [])

-- `TestReport`
abbrev pub test_report_fields : FieldTypes
test_report_fields = fields_from (
    ("schema_version", Annotation.text)
    ∷ ("collected_ids", Annotation.tuple_of Annotation.text)
    ∷ ("results", Annotation.tuple_of (Annotation.dataclass "TestResult" test_result_fields))
    ∷ ("completed", Annotation.boolean)
    ∷ ("runner_error", optional Annotation.text)
    ∷ [])

-- `ExecutionCapture`
abbrev pub execution_capture_fields : FieldTypes
execution_capture_fields = fields_from (
    ("attempt_id", Annotation.text)
    ∷ ("exit_code", optional Annotation.integer)
    ∷ ("timed_out", Annotation.boolean)
    ∷ ("oom_killed", optional Annotation.boolean)
    ∷ ("cancelled", Annotation.boolean)
    ∷ ("build_exit_code", optional Annotation.integer)
    ∷ ("stdout_hash", optional Annotation.text)
    ∷ ("stderr_hash", optional Annotation.text)
    ∷ ("report_digest", optional Annotation.text)
    ∷ ("truncated", Annotation.boolean)
    ∷ ("resources", Annotation.dataclass "ResourceUsage" resource_usage_fields)
    ∷ ("runtime_error", optional Annotation.text)
    ∷ [])

-- `ParsedOutcome`
abbrev pub parsed_outcome_fields : FieldTypes
parsed_outcome_fields = fields_from (
    ("outcome", Annotation.literal ("accept" ∷ "reject" ∷ "invalid_evaluation" ∷ "error" ∷ []))
    ∷ ("evaluation_validity", Annotation.literal ("valid" ∷ "invalid" ∷ []))
    ∷ ("error_code", optional Annotation.text)
    ∷ ("report", optional (Annotation.dataclass "TestReport" test_report_fields))
    ∷ ("evidence_digests", Annotation.tuple_of Annotation.text)
    ∷ [])

-- `AuditOptions`
abbrev pub audit_options_fields : FieldTypes
audit_options_fields = fields_from (
    ("task_files", Annotation.tuple_of Annotation.text)
    ∷ ("benchmark_file", optional Annotation.text)
    ∷ ("panel_file", Annotation.text)
    ∷ ("baseline_file", Annotation.text)
    ∷ ("candidate_file", Annotation.text)
    ∷ ("repetitions", Annotation.integer)
    ∷ ("backend", Annotation.literal ("fixture" ∷ "docker" ∷ []))
    ∷ ("trusted_fixture", Annotation.boolean)
    ∷ ("sandbox_policy_file", Annotation.text)
    ∷ ("max_attempts", Annotation.integer)
    ∷ ("offline", Annotation.boolean)
    ∷ ("output_dir", optional Annotation.text)
    ∷ ("dry_run", Annotation.boolean)
    ∷ ("resume_run_id", optional Annotation.text)
    ∷ ("parent_run_id", optional Annotation.text)
    ∷ ("policy_file", Annotation.text)
    ∷ ("analysis_plan_file", optional Annotation.text)
    ∷ ("max_jobs", Annotation.integer)
    ∷ ("concurrency", Annotation.integer)
    ∷ ("timeout_seconds", Annotation.integer)
    ∷ ("seed", optional Annotation.integer)
    ∷ ("collect_only", Annotation.boolean)
    ∷ ("diagnostic", Annotation.boolean)
    ∷ [])

-- `TelemetryEvent`
abbrev pub telemetry_event_fields : FieldTypes
telemetry_event_fields = fields_from (
    ("run_id", Annotation.text)
    ∷ ("attempt_id", Annotation.text)
    ∷ ("task_id", Annotation.text)
    ∷ ("patch_digest", Annotation.text)
    ∷ ("verifier_version", Annotation.text)
    ∷ ("action_type", Annotation.text)
    ∷ ("duration", optional Annotation.float)
    ∷ ("exit_code", optional Annotation.integer)
    ∷ ("stdout_hash", optional Annotation.text)
    ∷ ("stderr_hash", optional Annotation.text)
    ∷ ("test_collection", Annotation.tuple_of Annotation.text)
    ∷ ("tests_passed", optional Annotation.integer)
    ∷ ("tests_failed", optional Annotation.integer)
    ∷ ("allocated_cpu", optional Annotation.float)
    ∷ ("cpu_seconds", optional Annotation.float)
    ∷ ("peak_memory", optional Annotation.integer)
    ∷ ("model_usage", optional (Annotation.mapping Annotation.integer))
    ∷ ("estimated_cost", optional Annotation.text)
    ∷ ("pricing_version", optional Annotation.text)
    ∷ [])

-- `BootstrapResult`
abbrev pub bootstrap_result_fields : FieldTypes
bootstrap_result_fields = fields_from (
    ("estimate", optional Annotation.float)
    ∷ ("low", optional Annotation.float)
    ∷ ("high", optional Annotation.float)
    ∷ ("seed", Annotation.integer)
    ∷ ("valid_draws", Annotation.integer)
    ∷ ("total_draws", Annotation.integer)
    ∷ ("method", Annotation.text)
    ∷ ("warnings", Annotation.tuple_of Annotation.text)
    ∷ [])

-- `ReviewAgreement`
abbrev pub review_agreement_fields : FieldTypes
review_agreement_fields = fields_from (
    ("paired_cases", Annotation.integer)
    ∷ ("raw_agreement", optional Annotation.float)
    ∷ ("cohens_kappa", optional Annotation.float)
    ∷ ("unresolved_cases", Annotation.integer)
    ∷ ("warnings", Annotation.tuple_of Annotation.text)
    ∷ [])

-- `TrainingExample`
abbrev pub training_example_fields : FieldTypes
training_example_fields = fields_from (
    ("case_id", Annotation.text)
    ∷ ("task_key", Annotation.text)
    ∷ ("contract_hash", Annotation.text)
    ∷ ("label", Annotation.literal ("valid" ∷ "invalid" ∷ []))
    ∷ ("adjudication_id", Annotation.text)
    ∷ ("patch_digest", Annotation.text)
    ∷ ("witness_ids", Annotation.tuple_of Annotation.text)
    ∷ ("family_id", Annotation.text)
    ∷ ("parent_case_ids", Annotation.tuple_of Annotation.text)
    ∷ ("agent_run_id", optional Annotation.text)
    ∷ ("licence", Annotation.text)
    ∷ ("exposure_digest", Annotation.text)
    ∷ ("source_panel_key", Annotation.text)
    ∷ [])

-- `BenchmarkVersion`
abbrev pub benchmark_version_fields : FieldTypes
benchmark_version_fields = fields_from (
    ("benchmark_key", Annotation.text)
    ∷ ("task_keys", Annotation.tuple_of Annotation.text)
    ∷ ("panel_keys", Annotation.tuple_of Annotation.text)
    ∷ ("analysis_plan_hash", optional Annotation.text)
    ∷ ("release_digest", Annotation.text)
    ∷ ("created_at", Annotation.moment)
    ∷ [])
