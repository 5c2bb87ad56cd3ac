-- ===== src/Errors.antt =====
-- src/verifierci/errors.py: the error codes, the exception classes and the exit categories. A
-- class is a constructor and inheritance is the function `parent`.
use verifier_ci.Prelude.{
  Bool, true, false, Option, none, some, ◌||◌, ℕ, zero, suc, String, if◌then◌else◌,
}
pub mod Categories
mod Examples

-- `ErrorCode`
pub data ErrorCode : Type 0 where
  patch_error build_error collection_mismatch empty_collection timeout : ErrorCode
  resource_exhausted artifact_limit digest_mismatch image_unavailable : ErrorCode
  runtime_unavailable lease_lost cancelled parser_error database_error : ErrorCode
  unsupported_diagnostic identity_conflict validation_error protection_error : ErrorCode
  infrastructure_error : ErrorCode

-- `ErrorCode.X.value`
abbrev pub value : ErrorCode → String
value ErrorCode.patch_error = "PATCH_ERROR"
value ErrorCode.build_error = "BUILD_ERROR"
value ErrorCode.collection_mismatch = "COLLECTION_MISMATCH"
value ErrorCode.empty_collection = "EMPTY_COLLECTION"
value ErrorCode.timeout = "TIMEOUT"
value ErrorCode.resource_exhausted = "RESOURCE_EXHAUSTED"
value ErrorCode.artifact_limit = "ARTIFACT_LIMIT"
value ErrorCode.digest_mismatch = "DIGEST_MISMATCH"
value ErrorCode.image_unavailable = "IMAGE_UNAVAILABLE"
value ErrorCode.runtime_unavailable = "RUNTIME_UNAVAILABLE"
value ErrorCode.lease_lost = "LEASE_LOST"
value ErrorCode.cancelled = "CANCELLED"
value ErrorCode.parser_error = "PARSER_ERROR"
value ErrorCode.database_error = "DATABASE_ERROR"
value ErrorCode.unsupported_diagnostic = "UNSUPPORTED_DIAGNOSTIC"
value ErrorCode.identity_conflict = "IDENTITY_CONFLICT"
value ErrorCode.validation_error = "VALIDATION_ERROR"
value ErrorCode.protection_error = "PROTECTION_ERROR"
value ErrorCode.infrastructure_error = "INFRASTRUCTURE_ERROR"

-- The exception classes, `foreign` being any class that is not of the package (a
-- `sqlite3.IntegrityError`, say).
pub data ErrorClass : Type 0 where
  verifier_ci_error protection_error validation_error identity_conflict : ErrorClass
  infrastructure_error lease_lost foreign : ErrorClass

abbrev pub parent : ErrorClass → Option ErrorClass
parent ErrorClass.verifier_ci_error = some ErrorClass.foreign
parent ErrorClass.protection_error = some ErrorClass.verifier_ci_error
parent ErrorClass.validation_error = some ErrorClass.verifier_ci_error
parent ErrorClass.identity_conflict = some ErrorClass.validation_error
parent ErrorClass.infrastructure_error = some ErrorClass.verifier_ci_error
parent ErrorClass.lease_lost = some ErrorClass.infrastructure_error
parent ErrorClass.foreign = none

-- `default_code`
abbrev pub default_code : ErrorClass → Option ErrorCode
default_code ErrorClass.verifier_ci_error = some ErrorCode.unsupported_diagnostic
default_code ErrorClass.protection_error = some ErrorCode.protection_error
default_code ErrorClass.validation_error = some ErrorCode.validation_error
default_code ErrorClass.identity_conflict = some ErrorCode.identity_conflict
default_code ErrorClass.infrastructure_error = some ErrorCode.infrastructure_error
default_code ErrorClass.lease_lost = some ErrorCode.lease_lost
default_code ErrorClass.foreign = none

abbrev pub class_eq : ErrorClass → ErrorClass → Bool
class_eq ErrorClass.verifier_ci_error ErrorClass.verifier_ci_error = true
class_eq ErrorClass.protection_error ErrorClass.protection_error = true
class_eq ErrorClass.validation_error ErrorClass.validation_error = true
class_eq ErrorClass.identity_conflict ErrorClass.identity_conflict = true
class_eq ErrorClass.infrastructure_error ErrorClass.infrastructure_error = true
class_eq ErrorClass.lease_lost ErrorClass.lease_lost = true
class_eq ErrorClass.foreign ErrorClass.foreign = true
class_eq _ _ = false

-- `isinstance`: the class or an ancestor of it, up to `n` steps away.
is_instance_within : ℕ → ErrorClass → ErrorClass → Bool
is_instance_within zero c d = class_eq c d
is_instance_within (suc n) c d =
    class_eq c d || elim (parent c) [ none ↦ false | some p ↦ is_instance_within n p d ]

-- The hierarchy is four classes deep.
pub is_instance : ErrorClass → ErrorClass → Bool
unfolding is_instance_within
is_instance c d = is_instance_within 3 c d

-- `exit_category`
pub exit_category : ErrorClass → ℕ
unfolding is_instance
exit_category c =
    if is_instance c ErrorClass.protection_error
    then 1
    else if is_instance c ErrorClass.validation_error || is_instance c ErrorClass.identity_conflict
    then 2
    else if is_instance c ErrorClass.infrastructure_error || is_instance c ErrorClass.lease_lost
    then 3
    else if is_instance c ErrorClass.verifier_ci_error
    then 3
    else 3

-- An exception that is caught: one of the package with its code, or another one with its text.
pub data Failure : Type 0 where
  known : ErrorClass → ErrorCode → Failure
  unknown : String → Failure

-- What a call that may raise comes to.
pub data Fallible {ℓ} (A : Type ℓ) : Type ℓ where
  returned : A → Fallible A
  failed : Failure → Fallible A

infixl 5 ◌>>=◌ ◌>>◌
abbrev pub ◌>>=◌ {ℓ κ} : {A : Type ℓ} {B : Type κ} → Fallible A → (A → Fallible B) → Fallible B
returned a >>= f = f a
failed e >>= f = failed e

abbrev pub ◌>>◌ {ℓ} : {B : Type ℓ} → Fallible (Unit {0}) → Fallible B → Fallible B
m >> k = m >>= λ _. k

abbrev pub fail_if : Bool → Failure → Fallible (Unit {0})
fail_if true e = failed e
fail_if false e = returned tt
