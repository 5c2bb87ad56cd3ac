-- ===== src/Protocol/Records.antt =====
-- What a record that is decoded is.
use verifier_ci.Prelude.{
  ◌≡◌, ◌≤◌, refl, ℕ, true, Option, none, some, String, arith, ltb, if◌then◌else◌,
}
use verifier_ci.Models.Capture.{Value}
use verifier_ci.Protocol.Annotation.{Annotation, FieldTypes, Decoded}
use verifier_ci.Protocol.Kinds.{kind_registry}
use verifier_ci.Protocol.Convert.{Reader, convert}
use verifier_ci.Protocol.Decode.{
  Payload, decode_record, class_of, instantiate, opened, loads, has_unique_keys,
}
use verifier_ci.Protocol.Typing.{has_type}
use verifier_ci.Protocol.Soundness.{convert-has_type}

instantiate-some :
    (r : Reader) (kind : String) (ts : FieldTypes) (o : Option Value) (d : Decoded)
    → instantiate r kind ts o ≡ some d
    → (v : Value) × (o ≡ some v) × (convert r (Annotation.dataclass kind ts) v ≡ some d)
instantiate-some r kind ts none d h = cc
instantiate-some r kind ts (some v) d h = (v, refl, h)

opened-some :
    (kind : String) (o : Option Value) (v : Value)
    → opened kind o ≡ some v
    → (w : Value) × (o ≡ some w)
opened-some kind none v h = cc
opened-some kind (some w) v h = (w, refl)

loads-some :
    (p : Payload) (v : Value)
    → loads p ≡ some v
    → (p.document ≡ some v) × (has_unique_keys v ≡ true)
loads-some p v h = ground arith

registered_class :
    (o : Option FieldTypes) (f : FieldTypes → Option Decoded) (d : Decoded)
    → (elim o [ none ↦ none | some ts ↦ f ts ]) ≡ some d
    → (ts : FieldTypes) × (o ≡ some ts) × (f ts ≡ some d)
registered_class none f d h = cc
registered_class (some ts) f d h = (ts, refl, h)

within_limit :
    (limit size : ℕ) (m : Option Decoded) (d : Decoded)
    → (if ltb limit size then none else m) ≡ some d
    → (size ≤ limit) × (m ≡ some d)
within_limit limit size m d h = ground arith

-- A record that `decode_record` returns for a kind was read from a payload within the limit, whose
-- document has no object with a key twice; the registry has the kind, and the record is an instance
-- of its class with a value of the annotated type in each field, and so on below.
pub decode_record-has_type :
    (r : Reader) (max_bytes : ℕ) (kind : String) (p : Payload) (d : Decoded)
    → decode_record r max_bytes kind p ≡ some d
    → (p.size ≤ max_bytes)
      × (ts : FieldTypes) × (class_of kind kind_registry ≡ some ts)
      × (has_type r (Annotation.dataclass kind ts) d ≡ true)
      × (v : Value) × (p.document ≡ some v)
      × (has_unique_keys v ≡ true)
unfolding decode_record
decode_record-has_type r max_bytes kind p d h =
    let (fits, rest) = within_limit max_bytes p.size _ d h in
    let (ts, there, made) =
      registered_class (class_of kind kind_registry)
        (λ ts. instantiate r kind ts (opened kind (loads p))) d rest in
    let (v, opens, converted) = instantiate-some r kind ts (opened kind (loads p)) d made in
    let (w, loaded) = opened-some kind (loads p) v opens in
    let (read, unique) = loads-some p w loaded in
    (
      fits,
      ts,
      there,
      convert-has_type r (Annotation.dataclass kind ts) v d converted,
      w,
      read,
      unique,
    )
