-- ===== src/Protocol/Kinds/Tasks.antt =====
-- The annotated fields of the dataclasses of src/verifierci/models/task.py.
use verifier_ci.Prelude.{[], ◌∷◌}
use verifier_ci.Protocol.Annotation.{Annotation, FieldTypes, optional, fields_from}

-- `Task`
abbrev pub task_fields : FieldTypes
task_fields = fields_from (
    ("task_key", Annotation.text)
    ∷ ("task_id", Annotation.text)
    ∷ ("version", Annotation.text)
    ∷ ("statement", Annotation.text)
    ∷ ("adapter", Annotation.text)
    ∷ ("contract_hash", Annotation.text)
    ∷ ("snapshot_digest", Annotation.text)
    ∷ ("environment_id", Annotation.text)
    ∷ ("licence", Annotation.text)
    ∷ ("provenance", Annotation.text)
    ∷ ("eligibility", Annotation.literal ("eligible" ∷ "excluded" ∷ "pending" ∷ []))
    ∷ ("notes", Annotation.text)
    ∷ ("created_at", Annotation.moment)
    ∷ [])

-- `Requirement`
abbrev pub requirement_fields : FieldTypes
requirement_fields = fields_from (
    ("requirement_hash", Annotation.text)
    ∷ ("requirement_id", Annotation.text)
    ∷ ("text", Annotation.text)
    ∷ ("source_kind", Annotation.literal ("explicit" ∷ "repository" ∷ "clarification" ∷ []))
    ∷ ("evidence_digests", Annotation.tuple_of Annotation.text)
    ∷ ("source_locator", Annotation.text)
    ∷ ("allowed_variation", Annotation.text)
    ∷ [])

-- `Contract`
abbrev pub contract_fields : FieldTypes
contract_fields = fields_from (
    ("contract_hash", Annotation.text)
    ∷ ("task_id", Annotation.text)
    ∷ ("version", Annotation.text)
    ∷ ("requirement_hashes", Annotation.tuple_of Annotation.text)
    ∷ ("allowed_variation", Annotation.text)
    ∷ ("unresolved_questions", Annotation.tuple_of Annotation.text)
    ∷ ("evidence_digests", Annotation.tuple_of Annotation.text)
    ∷ ("created_at", Annotation.moment)
    ∷ [])

-- `RepositorySnapshot`
abbrev pub repository_snapshot_fields : FieldTypes
repository_snapshot_fields = fields_from (
    ("snapshot_digest", Annotation.text)
    ∷ ("repository_id", Annotation.text)
    ∷ ("commit_oid", Annotation.text)
    ∷ ("archive_uri", Annotation.text)
    ∷ ("tree_digest", Annotation.text)
    ∷ ("submodule_digests", Annotation.tuple_of Annotation.text)
    ∷ ("lock_digests", Annotation.tuple_of Annotation.text)
    ∷ ("licence", Annotation.text)
    ∷ ("created_at", Annotation.moment)
    ∷ [])

-- `Environment`
abbrev pub environment_fields : FieldTypes
environment_fields = fields_from (
    ("environment_id", Annotation.text)
    ∷ ("backend", Annotation.literal ("fixture" ∷ "docker" ∷ []))
    ∷ ("image_digest", optional Annotation.text)
    ∷ ("platform", Annotation.text)
    ∷ ("recipe_digest", Annotation.text)
    ∷ ("lock_digests", Annotation.tuple_of Annotation.text)
    ∷ ("service_manifests", Annotation.tuple_of Annotation.text)
    ∷ ("resource_policy_hash", Annotation.text)
    ∷ ("runtime_fingerprint", Annotation.text)
    ∷ ("mirror_uris", Annotation.tuple_of Annotation.text)
    ∷ [])
