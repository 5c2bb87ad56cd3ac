-- ===== src/Protocol/Soundness.antt =====
-- What `_convert_field` returns is of the type that it was asked for.
use verifier_ci.Prelude.{
  ◌≡◌, ◌⊎◌, inl, inr, refl, subst, Bool, true, false, ◌&&◌, ◌||◌, Option, none, some, List, String,
  arith, eq_refl, if◌then◌else◌,
}
use verifier_ci.Models.Capture.{Value, Items, Fields}
use verifier_ci.Report.Scan.{get_field}
use verifier_ci.Protocol.Annotation.{
  Annotation, Annotations, FieldTypes, Decoded, Sequence, Entries,
}
use verifier_ci.Protocol.Convert.{
  Reader, convert, convert_first, convert_each, convert_fields, convert_all, convert_values,
  may_instantiate, cons_decoded, entry_decoded, first_of, as_float, as_moment, as_literal,
  unless_null, as_tuple, as_mapping, as_instance,
}
use verifier_ci.Protocol.Typing.{
  all_of, has_fields, has_some_type, has_type, has_types, is_finite_float, is_moment, is_text_of,
  values_of,
}

cons_decoded-some :
    (a : Option Decoded) (b : Option Sequence) (ds : Sequence)
    → cons_decoded a b ≡ some ds
    → (d : Decoded) × (rest : Sequence) × (a ≡ some d)
      × (b ≡ some rest)
      × (Sequence.cons d rest ≡ ds)
cons_decoded-some none b ds h = cc
cons_decoded-some (some d) none ds h = cc
cons_decoded-some (some d) (some rest) ds h = (d, rest, refl, refl, cc)

entry_decoded-some :
    (k : String) (a : Option Decoded) (b : Option Entries) (es : Entries)
    → entry_decoded k a b ≡ some es
    → (d : Decoded) × (rest : Entries) × (a ≡ some d)
      × (b ≡ some rest)
      × (Entries.entry k d rest ≡ es)
entry_decoded-some k none b es h = cc
entry_decoded-some k (some d) none es h = cc
entry_decoded-some k (some d) (some rest) es h = (d, rest, refl, refl, cc)

or_left : {a : Bool} (b : Bool) → a ≡ true → (a || b) ≡ true
or_left {a} b p = ground arith

or_right : (a : Bool) {b : Bool} → b ≡ true → (a || b) ≡ true
or_right a {b} p = ground arith

both : {a b : Bool} → a ≡ true → b ≡ true → (a && b) ≡ true
both {a} {b} p q = ground arith

convert_all-typed :
    (f : Value → Option Decoded) (p : Decoded → Bool)
    → ((v : Value) (d : Decoded) → f v ≡ some d → p d ≡ true)
    → (vs : Items) (ds : Sequence) → convert_all f vs ≡ some ds
    → all_of p ds ≡ true
unfolding convert_all all_of
convert_all-typed f p each Items.nil ds h = ground arith
convert_all-typed f p each (Items.cons v vs) ds h =
    let (d, rest, first, others, same) = cons_decoded-some (f v) (convert_all f vs) ds h in
    subst (λ x. all_of p x ≡ true) same
      (both (each v d first) (convert_all-typed f p each vs rest others))

convert_values-typed :
    (f : Value → Option Decoded) (p : Decoded → Bool)
    → ((v : Value) (d : Decoded) → f v ≡ some d → p d ≡ true)
    → (fs : Fields) (es : Entries) → convert_values f fs ≡ some es
    → values_of p es ≡ true
unfolding convert_values values_of
convert_values-typed f p each Fields.end es h = ground arith
convert_values-typed f p each (Fields.field k v fs) es h =
    let (d, rest, first, others, same) = entry_decoded-some k (f v) (convert_values f fs) es h in
    subst (λ x. values_of p x ≡ true) same
      (both (each v d first) (convert_values-typed f p each fs rest others))

as_tuple-some :
    (m : Option Sequence) (d : Decoded)
    → as_tuple m ≡ some d
    → (ds : Sequence) × (m ≡ some ds) × (Decoded.tuple ds ≡ d)
as_tuple-some none d h = cc
as_tuple-some (some ds) d h = (ds, refl, cc)

as_mapping-some :
    (m : Option Entries) (d : Decoded)
    → as_mapping m ≡ some d
    → (es : Entries) × (m ≡ some es) × (Decoded.mapping es ≡ d)
as_mapping-some none d h = cc
as_mapping-some (some es) d h = (es, refl, cc)

as_instance-some :
    (name : String) (m : Option Entries) (d : Decoded)
    → as_instance name m ≡ some d
    → (es : Entries) × (m ≡ some es) × (Decoded.instance_of name es ≡ d)
as_instance-some name none d h = cc
as_instance-some name (some es) d h = (es, refl, cc)

first_of-some :
    (a b : Option Decoded) (d : Decoded) → first_of a b ≡ some d → (a ≡ some d) ⊎ (b ≡ some d)
first_of-some none b d h = inr h
first_of-some (some x) b d h = inl h

as_float-typed :
    (r : Reader) (v : Value) (d : Decoded) → as_float r v ≡ some d → is_finite_float r d ≡ true
as_float-typed r v d h = ground arith

as_moment-typed :
    (r : Reader) (v : Value) (d : Decoded) → as_moment r v ≡ some d → is_moment d ≡ true
as_moment-typed r v d h = ground arith

as_literal-typed :
    (ss : List String) (v : Value) (d : Decoded) → as_literal ss v ≡ some d → is_text_of ss d ≡ true
as_literal-typed ss v d h = ground arith

unless_null-some :
    (has_none : Bool) (v : Value) (m : Option Decoded) (d : Decoded)
    → unless_null has_none v m ≡ some d
    → ((has_none ≡ true) × (Decoded.nothing ≡ d)) ⊎ (m ≡ some d)
unless_null-some true Value.null m d h = inl (refl, cc)
unless_null-some false Value.null m d h = cc
unless_null-some has_none v m d h = inr h

instance_guard :
    (ok : Bool) (name : String) (m : Option Entries) (d : Decoded)
    → (if ok then as_instance name m else none) ≡ some d
    → (es : Entries) × (m ≡ some es) × (Decoded.instance_of name es ≡ d)
instance_guard true name m d h = as_instance-some name m d h
instance_guard false name m d h = cc

found_field :
    (found : Option Value) (f : Value → Option Decoded) (d : Decoded)
    → (elim found [ none ↦ none | some v ↦ f v ]) ≡ some d
    → (v : Value) × (f v ≡ some d)
found_field none f d h = cc
found_field (some v) f d h = (v, h)

nil_typed :
    (r : Reader) (ds : Sequence)
    → ◌≡◌ {A = Option Sequence} (some Sequence.nil) (some ds)
    → has_types r Annotations.nil ds ≡ true
unfolding has_types
nil_typed r Sequence.nil h = refl
nil_typed r (Sequence.cons d ds) h = cc

end_typed :
    (r : Reader) (es : Entries)
    → ◌≡◌ {A = Option Entries} (some Entries.end) (some es)
    → has_fields r FieldTypes.end es ≡ true
unfolding has_fields
end_typed r Entries.end h = refl
end_typed r (Entries.entry k d es) h = cc

-- The proof goes by the annotation, and by the value where the annotation reads it.
mutual
  unfolding convert has_type convert_all convert_values

  typed :
      (r : Reader) (t : Annotation) (v : Value) (d : Decoded)
      → convert r t v ≡ some d
      → has_type r t d ≡ true
  typed r Annotation.any v d h = refl
  typed r Annotation.boolean v d h = ground arith
  typed r Annotation.integer v d h = ground arith
  typed r Annotation.float v d h = as_float-typed r v d h
  typed r Annotation.text v d h = ground arith
  typed r Annotation.moment v d h = as_moment-typed r v d h
  typed r (Annotation.literal ss) v d h = as_literal-typed ss v d h
  typed r (Annotation.union has_none ts) v d h =
      elim (unless_null-some has_none v (convert_first r ts v) d h) [
        | inl (on, same) ↦
            subst (λ x. has_type r (Annotation.union has_none ts) x ≡ true) same
              (or_left _ (both on refl))
        | inr e ↦ or_right _ (typed_first r ts v d e)
      ]
  typed r (Annotation.tuple_of t) (Value.array vs) d h =
      let (ds, done, same) = as_tuple-some (convert_all (convert r t) vs) d h in
      subst (λ x. has_type r (Annotation.tuple_of t) x ≡ true) same
        (convert_all-typed (convert r t) (has_type r t) (typed r t) vs ds done)
  typed r (Annotation.tuple_of t) v d h = cc
  typed r (Annotation.tuple ts) (Value.array vs) d h =
      let (ds, done, same) = as_tuple-some (convert_each r ts vs) d h in
      subst (λ x. has_type r (Annotation.tuple ts) x ≡ true) same (typed_each r ts vs ds done)
  typed r (Annotation.tuple ts) v d h = cc
  typed r (Annotation.mapping t) (Value.object fs) d h =
      let (es, done, same) = as_mapping-some (convert_values (convert r t) fs) d h in
      subst (λ x. has_type r (Annotation.mapping t) x ≡ true) same
        (convert_values-typed (convert r t) (has_type r t) (typed r t) fs es done)
  typed r (Annotation.mapping t) v d h = cc
  typed r (Annotation.dataclass name ts) (Value.object fs) d h =
      let (es, done, same) =
        instance_guard (may_instantiate ts fs) name (convert_fields r ts fs) d h in
      subst (λ x. has_type r (Annotation.dataclass name ts) x ≡ true) same
        (both (eq_refl name) (typed_fields r ts fs es done))
  typed r (Annotation.dataclass name ts) v d h = cc

  typed_first :
      (r : Reader) (ts : Annotations) (v : Value) (d : Decoded)
      → convert_first r ts v ≡ some d
      → has_some_type r ts d ≡ true
  typed_first r Annotations.nil v d h = cc
  typed_first r (Annotations.cons t ts) v d h =
      elim (first_of-some (convert r t v) (convert_first r ts v) d h) [
        | inl e ↦ or_left _ (typed r t v d e)
        | inr e ↦ or_right _ (typed_first r ts v d e)
      ]

  typed_each :
      (r : Reader) (ts : Annotations) (vs : Items) (ds : Sequence)
      → convert_each r ts vs ≡ some ds
      → has_types r ts ds ≡ true
  typed_each r Annotations.nil Items.nil ds h = nil_typed r ds h
  typed_each r Annotations.nil (Items.cons v vs) ds h = cc
  typed_each r (Annotations.cons t ts) Items.nil ds h = cc
  typed_each r (Annotations.cons t ts) (Items.cons v vs) ds h =
      let (d, rest, first, others, same) =
        cons_decoded-some (convert r t v) (convert_each r ts vs) ds h in
      subst (λ x. has_types r (Annotations.cons t ts) x ≡ true) same
        (both (typed r t v d first) (typed_each r ts vs rest others))

  typed_fields :
      (r : Reader) (ts : FieldTypes) (fs : Fields) (es : Entries)
      → convert_fields r ts fs ≡ some es
      → has_fields r ts es ≡ true
  typed_fields r FieldTypes.end fs es h = end_typed r es h
  typed_fields r (FieldTypes.field n t ts) fs es h =
      let (d, rest, first, others, same) =
        entry_decoded-some n (elim (get_field n fs) [ none ↦ none | some v ↦ convert r t v ])
          (convert_fields r ts fs) es h in
      let (v, e) = found_field (get_field n fs) (convert r t) d first in
      subst (λ x. has_fields r (FieldTypes.field n t ts) x ≡ true) same
        (both (both (eq_refl n) (typed r t v d e)) (typed_fields r ts fs rest others))

-- What the decoder makes of a value under an annotation is a value of that annotation: of a union
-- one of its alternatives, of a literal one of its texts, of a float a finite one, of a dataclass an
-- instance that has each field of the class, in its order and no other, with a value of its
-- annotation, and so on below.
pub convert-has_type :
    (r : Reader) (t : Annotation) (v : Value) (d : Decoded)
    → convert r t v ≡ some d
    → has_type r t d ≡ true
convert-has_type r t v d h = typed r t v d h
