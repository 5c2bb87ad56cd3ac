-- ===== src/Errors/Examples.antt =====
-- The class hierarchy of errors.py at concrete classes.
use verifier_ci.Prelude.{◌≡◌, refl, some}
use verifier_ci.Errors.{ErrorClass, ErrorCode, default_code, value}

default_of_lease_lost : default_code ErrorClass.lease_lost ≡ some ErrorCode.lease_lost
default_of_lease_lost = refl

text_of_timeout : value ErrorCode.timeout ≡ "TIMEOUT"
text_of_timeout = refl
