-- ===== src/Protocol/Kinds/Bundles.antt =====
-- The annotated fields of the dataclasses of src/verifierci/models/protocol.py.
use verifier_ci.Prelude.{[], ◌∷◌}
use verifier_ci.Protocol.Annotation.{Annotation, FieldTypes, optional, fields_from}
use verifier_ci.Protocol.Kinds.Tasks.{
  contract_fields, environment_fields, repository_snapshot_fields, requirement_fields, task_fields,
}
use verifier_ci.Protocol.Kinds.Verifiers.{verifier_manifest_fields, verifier_version_fields}
use verifier_ci.Protocol.Kinds.Results.{
  acceptance_matrix_fields, artifact_fields, gate_decision_fields, metric_result_fields,
}
use verifier_ci.Protocol.Kinds.Panels.{patch_case_fields}

-- `ImportBundle`
abbrev pub import_bundle_fields : FieldTypes
import_bundle_fields = fields_from (
    ("task", Annotation.dataclass "Task" task_fields)
    ∷ ("contract", Annotation.dataclass "Contract" contract_fields)
    ∷ ("requirements", Annotation.tuple_of (Annotation.dataclass "Requirement" requirement_fields))
    ∷ ("snapshot", Annotation.dataclass "RepositorySnapshot" repository_snapshot_fields)
    ∷ ("environment", Annotation.dataclass "Environment" environment_fields)
    ∷ ("verifier", Annotation.dataclass "VerifierVersion" verifier_version_fields)
    ∷ ("verifier_manifest", Annotation.dataclass "VerifierManifest" verifier_manifest_fields)
    ∷ ("controls", Annotation.tuple_of (Annotation.dataclass "PatchCase" patch_case_fields))
    ∷ ("upstream_artifact", Annotation.dataclass "Artifact" artifact_fields)
    ∷ ("diagnostics", Annotation.tuple_of Annotation.text)
    ∷ [])

-- `LocalImportManifest`
abbrev pub local_import_manifest_fields : FieldTypes
local_import_manifest_fields = fields_from (
    ("schema_version", Annotation.text)
    ∷ ("task", Annotation.dataclass "Task" task_fields)
    ∷ ("contract_file", Annotation.text)
    ∷ ("snapshot_file", Annotation.text)
    ∷ ("environment_file", Annotation.text)
    ∷ ("requirement_files", Annotation.tuple_of Annotation.text)
    ∷ ("verifier_file", Annotation.text)
    ∷ ("control_files", Annotation.tuple_of Annotation.text)
    ∷ [])

-- `AuditResult`
abbrev pub audit_result_fields : FieldTypes
audit_result_fields = fields_from (
    ("manifest", Annotation.any)
    ∷ ("matrix", optional (Annotation.dataclass "AcceptanceMatrix" acceptance_matrix_fields))
    ∷ ("metrics", Annotation.tuple_of (Annotation.dataclass "MetricResult" metric_result_fields))
    ∷ ("gate", optional (Annotation.dataclass "GateDecision" gate_decision_fields))
    ∷ ("diagnostics", Annotation.tuple_of Annotation.text)
    ∷ ("artifacts", Annotation.tuple_of (Annotation.dataclass "Artifact" artifact_fields))
    ∷ [])
