-- ===== src/Protocol/Decode.antt =====
-- `decode_record`, `validate_wire_version` and the envelope. A payload is its size and the document
-- that `json.loads` reads in it, if it reads one, with the members of an object as they stand there.
-- An answer `none` is a ValidationError.
use verifier_ci.Prelude.{
  ℕ, Bool, true, false, ◌&&◌, not, Option, none, some, List, [], ◌∷◌, String, if◌then◌else◌, str_eq,
  ltb,
}
use verifier_ci.Models.Capture.{Value, Items, Fields}
use verifier_ci.Report.Scan.{get_field}
use verifier_ci.Protocol.Annotation.{Annotation, FieldTypes, Decoded}
use verifier_ci.Protocol.Kinds.{kind_registry}
use verifier_ci.Protocol.Convert.{Reader, convert, version_is_supported, has_text}

pub record Payload : Type 0 where
  pub size : ℕ
  pub document : Option Value

-- `SUPPORTED_WIRE_VERSIONS`
abbrev pub supported_wire_versions : List String
supported_wire_versions = "1.0" ∷ []

-- `validate_wire_version`
unfoldable pub validate_wire_version : Value → Bool
validate_wire_version (Value.text s) = has_text s supported_wire_versions
validate_wire_version _ = false

abbrev pub has_member : String → Fields → Bool
has_member k Fields.end = false
has_member k (Fields.field n v fs) = if str_eq n k then true else has_member k fs

-- `_json_no_duplicates` on each object of a document.
unfoldable mutual
  pub has_unique_keys : Value → Bool
  has_unique_keys (Value.array vs) = items_have_unique_keys vs
  has_unique_keys (Value.object fs) = fields_have_unique_keys fs
  has_unique_keys _ = true

  pub items_have_unique_keys : Items → Bool
  items_have_unique_keys Items.nil = true
  items_have_unique_keys (Items.cons v vs) = has_unique_keys v && items_have_unique_keys vs

  pub fields_have_unique_keys : Fields → Bool
  fields_have_unique_keys Fields.end = true
  fields_have_unique_keys (Fields.field k v fs) =
      not (has_member k fs) && has_unique_keys v && fields_have_unique_keys fs

abbrev pub loads : Payload → Option Value
loads p = elim p.document [ none ↦ none | some v ↦ if has_unique_keys v then some v else none ]

abbrev is_three : Fields → Bool
is_three (Fields.field a v (Fields.field b w (Fields.field c x Fields.end))) = true
is_three _ = false

-- A dictionary with `schema_version`, `kind` and `data` and nothing else.
abbrev pub is_envelope : Fields → Bool
is_envelope fs =
    has_member "schema_version" fs && has_member "kind" fs && has_member "data" fs && is_three fs

abbrev is_kind : String → Option Value → Bool
is_kind kind (some (Value.text s)) = str_eq s kind
is_kind kind _ = false

-- The data of an envelope; any other document is the data itself.
unfoldable pub open_envelope : String → Value → Option Value
unfolding get_field
open_envelope kind (Value.object fs) =
    if not (is_envelope fs)
    then some (Value.object fs)
    else if not (version_is_supported (get_field "schema_version" fs))
    then none
    else if is_kind kind (get_field "kind" fs)
    then get_field "data" fs
    else none
open_envelope kind v = some v

abbrev pub class_of : String → List (String × FieldTypes) → Option FieldTypes
class_of kind [] = none
class_of kind ((name, ts) ∷ registry) = if str_eq name kind then some ts else class_of kind registry

abbrev pub instantiate : Reader → String → FieldTypes → Option Value → Option Decoded
instantiate r kind ts none = none
instantiate r kind ts (some v) = convert r (Annotation.dataclass kind ts) v

abbrev pub opened : String → Option Value → Option Value
opened kind none = none
opened kind (some v) = open_envelope kind v

unfoldable pub decode_record : Reader → ℕ → String → Payload → Option Decoded
unfolding convert open_envelope has_unique_keys
decode_record r max_bytes kind p =
    if ltb max_bytes p.size then none else elim (class_of kind kind_registry) [
      | none ↦ none
      | some ts ↦ instantiate r kind ts (opened kind (loads p))
    ]
