-- ===== src/Protocol/Typing.antt =====
-- Which values an annotation admits.
use verifier_ci.Prelude.{Bool, true, false, ◌&&◌, ◌||◌, List, String, str_eq}
use verifier_ci.Protocol.Annotation.{
  Annotation, Annotations, FieldTypes, Decoded, Sequence, Entries,
}
use verifier_ci.Protocol.Convert.{Reader, has_text}

abbrev pub is_nothing : Decoded → Bool
is_nothing Decoded.nothing = true
is_nothing _ = false

abbrev pub is_boolean : Decoded → Bool
is_boolean (Decoded.boolean b) = true
is_boolean _ = false

abbrev pub is_integer : Decoded → Bool
is_integer (Decoded.integer n) = true
is_integer _ = false

abbrev pub is_finite_float : Reader → Decoded → Bool
is_finite_float r (Decoded.float x) = r.is_finite x
is_finite_float r _ = false

abbrev pub is_text : Decoded → Bool
is_text (Decoded.text s) = true
is_text _ = false

abbrev pub is_text_of : List String → Decoded → Bool
is_text_of ss (Decoded.text s) = has_text s ss
is_text_of ss _ = false

abbrev pub is_moment : Decoded → Bool
is_moment (Decoded.moment t) = true
is_moment _ = false

unfoldable pub all_of : (Decoded → Bool) → Sequence → Bool
all_of p Sequence.nil = true
all_of p (Sequence.cons d ds) = p d && all_of p ds

unfoldable pub values_of : (Decoded → Bool) → Entries → Bool
values_of p Entries.end = true
values_of p (Entries.entry k d es) = p d && values_of p es

abbrev pub is_tuple_of : (Decoded → Bool) → Decoded → Bool
is_tuple_of p (Decoded.tuple ds) = all_of p ds
is_tuple_of p _ = false

abbrev pub is_mapping_of : (Decoded → Bool) → Decoded → Bool
is_mapping_of p (Decoded.mapping es) = values_of p es
is_mapping_of p _ = false

-- What the annotation says of a value.
unfoldable mutual
  unfolding all_of values_of

  pub has_type : Reader → Annotation → Decoded → Bool
  has_type r Annotation.any d = true
  has_type r Annotation.boolean d = is_boolean d
  has_type r Annotation.integer d = is_integer d
  has_type r Annotation.float d = is_finite_float r d
  has_type r Annotation.text d = is_text d
  has_type r Annotation.moment d = is_moment d
  has_type r (Annotation.literal ss) d = is_text_of ss d
  has_type r (Annotation.union has_none ts) d = (has_none && is_nothing d) || has_some_type r ts d
  has_type r (Annotation.tuple_of t) d = is_tuple_of (has_type r t) d
  has_type r (Annotation.tuple ts) (Decoded.tuple ds) = has_types r ts ds
  has_type r (Annotation.tuple ts) _ = false
  has_type r (Annotation.mapping t) d = is_mapping_of (has_type r t) d
  has_type r (Annotation.dataclass name ts) (Decoded.instance_of n es) =
      str_eq name n && has_fields r ts es
  has_type r (Annotation.dataclass name ts) _ = false

  pub has_some_type : Reader → Annotations → Decoded → Bool
  has_some_type r Annotations.nil d = false
  has_some_type r (Annotations.cons t ts) d = has_type r t d || has_some_type r ts d

  pub has_types : Reader → Annotations → Sequence → Bool
  has_types r Annotations.nil Sequence.nil = true
  has_types r Annotations.nil (Sequence.cons d ds) = false
  has_types r (Annotations.cons t ts) Sequence.nil = false
  has_types r (Annotations.cons t ts) (Sequence.cons d ds) = has_type r t d && has_types r ts ds

  -- The fields of the class, in its order and no other.
  pub has_fields : Reader → FieldTypes → Entries → Bool
  has_fields r FieldTypes.end Entries.end = true
  has_fields r FieldTypes.end (Entries.entry k d es) = false
  has_fields r (FieldTypes.field n t ts) Entries.end = false
  has_fields r (FieldTypes.field n t ts) (Entries.entry k d es) =
      str_eq n k && has_type r t d && has_fields r ts es
