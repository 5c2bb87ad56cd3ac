-- ===== src/Artifacts/Read.antt =====
-- `open_verified`, `ArtifactStore.read_bytes` and `ArtifactStore.exists`.
use verifier_ci.Prelude.{Bool, true, false, Option, none, some, String, if◌then◌else◌, str_eq, ◌&&◌}
use verifier_ci.Errors.{ErrorClass, ErrorCode}
use verifier_ci.Artifacts.Disk.{Bytes, Node, World, Reply, done, raised, is_valid_digest}

-- What stands at the path of the digest, and whether its content has the digest.
unfoldable pub verify_node : (Bytes → String) → String → Option Node → Reply Bytes
verify_node hash d none = raised ErrorClass.infrastructure_error ErrorCode.infrastructure_error
verify_node hash d (some (Node.link _)) =
    raised ErrorClass.protection_error ErrorCode.protection_error
verify_node hash d (some Node.directory) =
    raised ErrorClass.protection_error ErrorCode.protection_error
verify_node hash d (some Node.special) =
    raised ErrorClass.protection_error ErrorCode.protection_error
verify_node hash d (some (Node.file content)) =
    if str_eq (hash content) d
    then done content
    else raised ErrorClass.infrastructure_error ErrorCode.digest_mismatch

-- The bytes of the stream that is returned, from its start.
unfoldable pub read_bytes : (Bytes → String) → String → World → Reply Bytes
unfolding verify_node
read_bytes hash d w =
    if is_valid_digest d
    then verify_node hash d (w.entries d)
    else raised ErrorClass.validation_error ErrorCode.validation_error

abbrev pub is_file : Option Node → Bool
is_file (some (Node.file _)) = true
is_file _ = false

unfoldable pub exists : String → World → Bool
exists d w = is_valid_digest d && is_file (w.entries d)
