-- ===== src/Errors/Categories.antt =====
-- The exit categories of errors.py against the class hierarchy.
use verifier_ci.Prelude.{◌≡◌, ◌↔◌, true, arith}
use verifier_ci.Errors.{ErrorClass, is_instance, exit_category}

-- For every exception class the exit category is 1 exactly for ProtectionError and what inherits
-- from it, 2 exactly for ValidationError and what inherits from it, and 3 exactly for a class that
-- is neither.
pub exit_category-classes :
    (c : ErrorClass)
    → ((exit_category c ≡ 1) ↔ (is_instance c ErrorClass.protection_error ≡ true))
      × ((exit_category c ≡ 2) ↔ (is_instance c ErrorClass.validation_error ≡ true))
      × ((exit_category c ≡ 3) ↔ (
          ¬ (is_instance c ErrorClass.protection_error ≡ true)
          × ¬ (is_instance c ErrorClass.validation_error ≡ true)))
unfolding exit_category is_instance
exit_category-classes ErrorClass.verifier_ci_error = ground arith
exit_category-classes c = ground arith
