-- ===== src/Protocol/Examples.antt =====
-- A requirement in its envelope, decoded.
use verifier_ci.Prelude.{◌≡◌, ◌≤◌, refl, true, none, some}
use verifier_ci.Models.Capture.{Value, Items, Fields}
use verifier_ci.Protocol.Annotation.{Annotation, FieldTypes, Decoded, Sequence, Entries}
use verifier_ci.Protocol.Kinds.{kind_registry}
use verifier_ci.Protocol.Convert.{Reader}
use verifier_ci.Protocol.Decode.{Payload, decode_record, class_of, has_unique_keys}
use verifier_ci.Protocol.Typing.{has_type}
use verifier_ci.Protocol.Records.{decode_record-has_type}

abbrev reader : Reader
reader = record { float_of = λ n. none; is_finite = λ x. true; moment_of = λ s. none }

abbrev requirement : Value → Value
requirement kind = Value.object (
    Fields.field "requirement_hash" (Value.text "h") (
      Fields.field "requirement_id" (Value.text "r1") (
        Fields.field "text" (Value.text "sorts") (
          Fields.field "source_kind" kind (
            Fields.field "evidence_digests" (Value.array (Items.cons (Value.text "e") Items.nil)) (
              Fields.field "source_locator" (Value.text "issue")
                (Fields.field "allowed_variation" (Value.text "stable or not") Fields.end)))))))

abbrev enveloped : Value → Payload
enveloped v = record {
  size = 300;
  document = some (
      Value.object (
        Fields.field "schema_version" (Value.text "1.0")
          (Fields.field "kind" (Value.text "Requirement") (Fields.field "data" v Fields.end))));
}

abbrev decoded : Decoded
decoded = Decoded.instance_of "Requirement" (
    Entries.entry "requirement_hash" (Decoded.text "h") (
      Entries.entry "requirement_id" (Decoded.text "r1") (
        Entries.entry "text" (Decoded.text "sorts") (
          Entries.entry "source_kind" (Decoded.text "explicit") (
            Entries.entry "evidence_digests"
              (Decoded.tuple (Sequence.cons (Decoded.text "e") Sequence.nil))
              (Entries.entry "source_locator" (Decoded.text "issue")
                (Entries.entry "allowed_variation" (Decoded.text "stable or not") Entries.end)))))))

decode_record-has_type_example :
    (300 ≤ 1_000)
    × (ts : FieldTypes) × (class_of "Requirement" kind_registry ≡ some ts)
    × (has_type reader (Annotation.dataclass "Requirement" ts) decoded ≡ true)
    × (v : Value) × ((enveloped (requirement (Value.text "explicit"))).document ≡ some v)
    × (has_unique_keys v ≡ true)
unfolding decode_record kind_registry
decode_record-has_type_example =
    decode_record-has_type reader 1_000 "Requirement"
      (enveloped (requirement (Value.text "explicit"))) decoded refl

-- A source kind that the literal does not have is refused, as is another kind in the envelope.
unknown_source_kind :
    decode_record reader 1_000 "Requirement" (enveloped (requirement (Value.text "guess"))) ≡ none
unfolding decode_record kind_registry
unknown_source_kind = refl

another_kind :
    decode_record reader 1_000 "Task" (enveloped (requirement (Value.text "explicit"))) ≡ none
unfolding decode_record kind_registry
another_kind = refl
