-- ===== src/Protocol/Convert.antt =====
-- `_convert_field` and `_instantiate_dataclass`, for the annotations that the classes use (a bare
-- `tuple` or `dict` is none of them). An answer `none` is a ValidationError.
use verifier_ci.Prelude.{
  ℕ, Bool, true, false, ◌&&◌, ◌||◌, Option, none, some, List, [], ◌∷◌, String, if◌then◌else◌, any,
  str_eq,
}
use verifier_ci.Prelude.Int.{ℤ}
use verifier_ci.Models.Capture.{Value, Items, Fields}
use verifier_ci.Report.Scan.{get_field}
use verifier_ci.Protocol.Annotation.{
  Annotation, Annotations, FieldTypes, Decoded, Sequence, Entries,
}

-- `float` of an integer (none where it raises), `math.isfinite`, and `datetime.fromisoformat` of a
-- text whose `Z` is `+00:00` (none where it raises or has no time zone).
pub record Reader : Type 0 where
  pub float_of : ℤ → Option ℕ
  pub is_finite : ℕ → Bool
  pub moment_of : String → Option ℕ

abbrev pub has_text : String → List String → Bool
has_text s ss = any (str_eq s) ss

-- `SUPPORTED_SCHEMA_VERSIONS`
abbrev pub supported_schema_versions : List String
supported_schema_versions = "1.0" ∷ "1.0.0" ∷ []

-- A schema version that is there is a text and supported.
abbrev pub version_is_supported : Option Value → Bool
version_is_supported none = true
version_is_supported (some (Value.text s)) = has_text s supported_schema_versions
version_is_supported (some _) = false

-- The branch for `Any`.
unfoldable mutual
  pub convert_any : Value → Decoded
  convert_any Value.null = Decoded.nothing
  convert_any (Value.boolean b) = Decoded.boolean b
  convert_any (Value.integer n) = Decoded.integer n
  convert_any (Value.float x) = Decoded.float x
  convert_any (Value.text s) = Decoded.text s
  convert_any (Value.array vs) = Decoded.tuple (convert_any_items vs)
  convert_any (Value.object fs) = Decoded.mapping (convert_any_fields fs)

  pub convert_any_items : Items → Sequence
  convert_any_items Items.nil = Sequence.nil
  convert_any_items (Items.cons v vs) = Sequence.cons (convert_any v) (convert_any_items vs)

  pub convert_any_fields : Fields → Entries
  convert_any_fields Fields.end = Entries.end
  convert_any_fields (Fields.field k v fs) = Entries.entry k (convert_any v) (convert_any_fields fs)

abbrev pub as_boolean : Value → Option Decoded
as_boolean (Value.boolean b) = some (Decoded.boolean b)
as_boolean _ = none

abbrev pub as_integer : Value → Option Decoded
as_integer (Value.integer n) = some (Decoded.integer n)
as_integer _ = none

abbrev pub finite : Reader → Option ℕ → Option Decoded
finite r none = none
finite r (some x) = if r.is_finite x then some (Decoded.float x) else none

abbrev pub as_float : Reader → Value → Option Decoded
as_float r (Value.integer n) = finite r (r.float_of n)
as_float r (Value.float x) = finite r (some x)
as_float r _ = none

abbrev pub as_text : Value → Option Decoded
as_text (Value.text s) = some (Decoded.text s)
as_text _ = none

abbrev pub as_moment : Reader → Value → Option Decoded
as_moment r (Value.text s) = elim (r.moment_of s) [ none ↦ none | some t ↦ some (Decoded.moment t) ]
as_moment r _ = none

abbrev pub as_literal : List String → Value → Option Decoded
as_literal ss (Value.text s) = if has_text s ss then some (Decoded.text s) else none
as_literal ss _ = none

-- The elements of an array, the members of an object.
abbrev pub items_of : Value → Option Items
items_of (Value.array vs) = some vs
items_of _ = none

abbrev pub fields_of : Value → Option Fields
fields_of (Value.object fs) = some fs
fields_of _ = none

abbrev pub cons_decoded : Option Decoded → Option Sequence → Option Sequence
cons_decoded none ds = none
cons_decoded (some d) none = none
cons_decoded (some d) (some ds) = some (Sequence.cons d ds)

abbrev pub entry_decoded : String → Option Decoded → Option Entries → Option Entries
entry_decoded k none es = none
entry_decoded k (some d) none = none
entry_decoded k (some d) (some es) = some (Entries.entry k d es)

unfoldable pub convert_all : (Value → Option Decoded) → Items → Option Sequence
convert_all f Items.nil = some Sequence.nil
convert_all f (Items.cons v vs) = cons_decoded (f v) (convert_all f vs)

unfoldable pub convert_values : (Value → Option Decoded) → Fields → Option Entries
convert_values f Fields.end = some Entries.end
convert_values f (Fields.field k v fs) = entry_decoded k (f v) (convert_values f fs)

abbrev pub as_tuple : Option Sequence → Option Decoded
as_tuple none = none
as_tuple (some ds) = some (Decoded.tuple ds)

abbrev pub as_mapping : Option Entries → Option Decoded
as_mapping none = none
as_mapping (some es) = some (Decoded.mapping es)

abbrev pub as_instance : String → Option Entries → Option Decoded
as_instance name none = none
as_instance name (some es) = some (Decoded.instance_of name es)

-- None is a value of a union that has it, and of no other annotation but `Any`.
abbrev pub unless_null : Bool → Value → Option Decoded → Option Decoded
unless_null has_none Value.null otherwise = if has_none then some Decoded.nothing else none
unless_null has_none _ otherwise = otherwise

abbrev pub first_of : Option Decoded → Option Decoded → Option Decoded
first_of none b = b
first_of (some d) b = some d

-- `f.name for f in fields(cls)`
abbrev pub is_field : String → FieldTypes → Bool
is_field k FieldTypes.end = false
is_field k (FieldTypes.field n t rest) = str_eq n k || is_field k rest

abbrev pub all_allowed : FieldTypes → Fields → Bool
all_allowed ts Fields.end = true
all_allowed ts (Fields.field k v fs) = is_field k ts && all_allowed ts fs

-- The two checks before the fields of a dataclass are converted.
unfoldable pub may_instantiate : FieldTypes → Fields → Bool
unfolding get_field
may_instantiate ts fs = version_is_supported (get_field "schema_version" fs) && all_allowed ts fs

unfoldable mutual
  unfolding convert_all convert_values may_instantiate

  pub convert : Reader → Annotation → Value → Option Decoded
  convert r Annotation.any v = some (convert_any v)
  convert r Annotation.boolean v = as_boolean v
  convert r Annotation.integer v = as_integer v
  convert r Annotation.float v = as_float r v
  convert r Annotation.text v = as_text v
  convert r Annotation.moment v = as_moment r v
  convert r (Annotation.literal ss) v = as_literal ss v
  convert r (Annotation.union has_none ts) v = unless_null has_none v (convert_first r ts v)
  convert r (Annotation.tuple_of t) v = elim (items_of v) [
    | none ↦ none
    | some vs ↦ as_tuple (convert_all (convert r t) vs)
  ]
  convert r (Annotation.tuple ts) v = elim (items_of v) [
    | none ↦ none
    | some vs ↦ as_tuple (convert_each r ts vs)
  ]
  convert r (Annotation.mapping t) v = elim (fields_of v) [
    | none ↦ none
    | some fs ↦ as_mapping (convert_values (convert r t) fs)
  ]
  convert r (Annotation.dataclass name ts) v = elim (fields_of v) [
    | none ↦ none
    | some fs ↦ if may_instantiate ts fs then as_instance name (convert_fields r ts fs) else none
  ]

  -- The alternatives in their order.
  pub convert_first : Reader → Annotations → Value → Option Decoded
  convert_first r Annotations.nil v = none
  convert_first r (Annotations.cons t ts) v = first_of (convert r t v) (convert_first r ts v)

  -- A tuple of a fixed length.
  pub convert_each : Reader → Annotations → Items → Option Sequence
  convert_each r Annotations.nil Items.nil = some Sequence.nil
  convert_each r Annotations.nil (Items.cons v vs) = none
  convert_each r (Annotations.cons t ts) Items.nil = none
  convert_each r (Annotations.cons t ts) (Items.cons v vs) =
      cons_decoded (convert r t v) (convert_each r ts vs)

  -- The fields of a dataclass in the order of the class; a missing one is an error.
  pub convert_fields : Reader → FieldTypes → Fields → Option Entries
  convert_fields r FieldTypes.end fs = some Entries.end
  convert_fields r (FieldTypes.field n t ts) fs =
      entry_decoded n (elim (get_field n fs) [ none ↦ none | some v ↦ convert r t v ])
        (convert_fields r ts fs)
