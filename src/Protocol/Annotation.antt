-- ===== src/Protocol/Annotation.antt =====
-- The annotations of dataclass fields, and the values that are made for them.
use verifier_ci.Prelude.{ℕ, Bool, true, List, [], ◌∷◌, String}
use verifier_ci.Prelude.Int.{ℤ}

-- `union` has the alternatives that are not None, and whether None is one. `dataclass` has the name
-- and the annotated fields of the class; no class of the program has itself among its fields.
mutual
  pub data Annotation : Type 0 where
    any boolean integer float text moment : Annotation
    literal : List String → Annotation
    union : Bool → Annotations → Annotation
    tuple_of : Annotation → Annotation
    tuple : Annotations → Annotation
    mapping : Annotation → Annotation
    dataclass : String → FieldTypes → Annotation

  pub data Annotations : Type 0 where
    nil : Annotations
    cons : Annotation → Annotations → Annotations

  pub data FieldTypes : Type 0 where
    end : FieldTypes
    field : String → Annotation → FieldTypes → FieldTypes

-- A float and a moment are numbers that are only stored and compared. A moment has a time zone.
mutual
  pub data Decoded : Type 0 where
    nothing : Decoded
    boolean : Bool → Decoded
    integer : ℤ → Decoded
    float : ℕ → Decoded
    text : String → Decoded
    moment : ℕ → Decoded
    tuple : Sequence → Decoded
    mapping : Entries → Decoded
    instance_of : String → Entries → Decoded

  pub data Sequence : Type 0 where
    nil : Sequence
    cons : Decoded → Sequence → Sequence

  pub data Entries : Type 0 where
    end : Entries
    entry : String → Decoded → Entries → Entries

-- `t | None`
abbrev pub optional : Annotation → Annotation
optional t = Annotation.union true (Annotations.cons t Annotations.nil)

abbrev pub fields_from : List (String × Annotation) → FieldTypes
fields_from [] = FieldTypes.end
fields_from ((name, t) ∷ rest) = FieldTypes.field name t (fields_from rest)
