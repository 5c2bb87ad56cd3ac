-- ===== src/Protocol/Kinds/Panels.antt =====
-- The annotated fields of the dataclasses of src/verifierci/models/panel.py.
use verifier_ci.Prelude.{[], ◌∷◌}
use verifier_ci.Protocol.Annotation.{Annotation, FieldTypes, optional, fields_from}
use verifier_ci.Protocol.Kinds.Policies.{review_vote_fields}

-- `PatchCase`
abbrev pub patch_case_fields : FieldTypes
patch_case_fields = fields_from (
    ("case_id", Annotation.text)
    ∷ ("task_key", Annotation.text)
    ∷ ("diff_digest", Annotation.text)
    ∷ ("base_snapshot_digest", Annotation.text)
    ∷ ("source", Annotation.literal ("human" ∷ "agent" ∷ "mutation" ∷ "reference" ∷ "noop" ∷ []))
    ∷ ("source_run_id", optional Annotation.text)
    ∷ ("parent_case_ids", Annotation.tuple_of Annotation.text)
    ∷ ("family_id", Annotation.text)
    ∷ ("role", Annotation.literal ("challenge" ∷ "reference" ∷ "noop" ∷ []))
    ∷ ("provenance_digest", Annotation.text)
    ∷ ("licence", Annotation.text)
    ∷ ("created_at", Annotation.moment)
    ∷ [])

-- `Witness`
abbrev pub witness_fields : FieldTypes
witness_fields = fields_from (
    ("witness_id", Annotation.text)
    ∷ ("case_id", Annotation.text)
    ∷ ("contract_hash", Annotation.text)
    ∷ ("requirement_hashes", Annotation.tuple_of Annotation.text)
    ∷ ("input_digest", Annotation.text)
    ∷ ("expected_digest", Annotation.text)
    ∷ ("observed_digest", Annotation.text)
    ∷ ("reproducer_command", Annotation.tuple_of Annotation.text)
    ∷ ("environment_id", Annotation.text)
    ∷ ("reviewed_by", Annotation.tuple_of Annotation.text)
    ∷ ("reproduced_at", optional Annotation.moment)
    ∷ [])

-- `Adjudication`
abbrev pub adjudication_fields : FieldTypes
adjudication_fields = fields_from (
    ("adjudication_id", Annotation.text)
    ∷ ("case_id", Annotation.text)
    ∷ ("contract_hash", Annotation.text)
    ∷ ("version", Annotation.integer)
    ∷ ("label", Annotation.literal ("valid" ∷ "invalid" ∷ "unresolved" ∷ []))
    ∷ ("review_status", Annotation.literal ("provisional" ∷ "independent" ∷ "disputed" ∷ []))
    ∷ ("votes", Annotation.tuple_of (Annotation.dataclass "ReviewVote" review_vote_fields))
    ∷ ("rationale", Annotation.text)
    ∷ ("requirement_hashes", Annotation.tuple_of Annotation.text)
    ∷ ("witness_ids", Annotation.tuple_of Annotation.text)
    ∷ ("uncertainty", Annotation.text)
    ∷ ("supersedes_id", optional Annotation.text)
    ∷ ("created_at", Annotation.moment)
    ∷ [])

-- `PatchPanel`
abbrev pub patch_panel_fields : FieldTypes
patch_panel_fields = fields_from (
    ("panel_key", Annotation.text)
    ∷ ("panel_id", Annotation.text)
    ∷ ("version", Annotation.text)
    ∷ ("split", Annotation.literal ("development" ∷ "assessment" ∷ "train" ∷ []))
    ∷ ("membership_digest", Annotation.text)
    ∷ ("sampling_policy", Annotation.text)
    ∷ ("exposed_at", optional Annotation.moment)
    ∷ ("development_used_at", optional Annotation.moment)
    ∷ ("sealed_at", optional Annotation.moment)
    ∷ ("retired_at", optional Annotation.moment)
    ∷ ("parent_panel_key", optional Annotation.text)
    ∷ [])

-- `PatchPanelMembership`
abbrev pub patch_panel_membership_fields : FieldTypes
patch_panel_membership_fields = fields_from (
    ("panel_key", Annotation.text)
    ∷ ("case_id", Annotation.text)
    ∷ ("adjudication_id", Annotation.text)
    ∷ ("ordinal", Annotation.integer)
    ∷ ("expected_control_outcomes", Annotation.mapping Annotation.text)
    ∷ [])

-- `AgentRun`
abbrev pub agent_run_fields : FieldTypes
agent_run_fields = fields_from (
    ("agent_run_id", Annotation.text)
    ∷ ("agent_version", Annotation.text)
    ∷ ("model_identifier", Annotation.text)
    ∷ ("prompt_digest", Annotation.text)
    ∷ ("config_hash", Annotation.text)
    ∷ ("budget", Annotation.mapping (optional Annotation.float))
    ∷ ("patch_digest", Annotation.text)
    ∷ ("trajectory_digest", optional Annotation.text)
    ∷ ("model_usage", optional (Annotation.mapping Annotation.integer))
    ∷ ("exposure_record_digest", Annotation.text)
    ∷ ("created_at", Annotation.moment)
    ∷ [])
