-- ===== src/Protocol/Kinds/Verifiers.antt =====
-- The annotated fields of the dataclasses of src/verifierci/models/verifier.py.
use verifier_ci.Prelude.{[], ◌∷◌}
use verifier_ci.Protocol.Annotation.{Annotation, FieldTypes, optional, fields_from}

-- `CommandSpec`
abbrev pub command_spec_fields : FieldTypes
command_spec_fields = fields_from (
    ("argv", Annotation.tuple_of Annotation.text)
    ∷ ("cwd", Annotation.text)
    ∷ ("env", Annotation.mapping Annotation.text)
    ∷ ("stdin_digest", optional Annotation.text)
    ∷ ("timeout_seconds", Annotation.integer)
    ∷ [])

-- `VerifierVersion`
abbrev pub verifier_version_fields : FieldTypes
verifier_version_fields = fields_from (
    ("verifier_key", Annotation.text)
    ∷ ("verifier_id", Annotation.text)
    ∷ ("version", Annotation.text)
    ∷ ("parent_key", optional Annotation.text)
    ∷ ("manifest_hash", Annotation.text)
    ∷ ("payload_digest", Annotation.text)
    ∷ ("compatible_contract_hashes", Annotation.tuple_of Annotation.text)
    ∷ ("created_at", Annotation.moment)
    ∷ [])

-- `VerifierManifest`
abbrev pub verifier_manifest_fields : FieldTypes
verifier_manifest_fields = fields_from (
    ("manifest_hash", Annotation.text)
    ∷ ("mode", Annotation.literal ("compatibility" ∷ "blackbox" ∷ []))
    ∷ ("command", Annotation.tuple_of Annotation.text)
    ∷ ("build_command", Annotation.tuple_of Annotation.text)
    ∷ ("expected_collection", Annotation.tuple_of Annotation.text)
    ∷ ("parser_id", Annotation.text)
    ∷ ("report_path", Annotation.text)
    ∷ ("payload_digest", Annotation.text)
    ∷ ("allowed_edit_paths", Annotation.tuple_of Annotation.text)
    ∷ ("required_pass_ids", Annotation.tuple_of Annotation.text)
    ∷ ("permitted_skips", Annotation.tuple_of Annotation.text)
    ∷ ("timeout_seconds", Annotation.integer)
    ∷ [])
