-- ===== src/Sandbox/Prepare.antt =====
-- `prepare_workspace`. A file tree is the list of its files with their paths; what `git apply` makes
-- of one is a parameter, as are `fnmatch` and the decoding of UTF-8.
use verifier_ci.Prelude.{Bool, not, Option, none, some, List, [], ◌∷◌, String, if◌then◌else◌}
use verifier_ci.Prelude.Int.{ℤ, pos, int_eq}
use verifier_ci.Errors.{
  ErrorClass, ErrorCode, known, unknown, Fallible, returned, failed, ◌>>◌, fail_if,
}
use verifier_ci.Artifacts.Disk.{Bytes, Node}
use verifier_ci.Sandbox.Lines.{Text, text_eq}
use verifier_ci.Sandbox.Patch.{Violation, is_blank, validate_patch}

abbrev pub Files : Type 0
Files = List (Text × Bytes)

-- How a git command ends: with an exit code, by the timeout, or by an OSError with its text.
pub data GitAnswer : Type 0 where
  exited : ℤ → GitAnswer
  overran : GitAnswer
  unstarted : String → GitAnswer

-- `git apply --check` and `git apply`, which may change the files however it ends.
pub record Git : Type 0 where
  pub check : Files → Bytes → GitAnswer
  pub apply : Files → Bytes → GitAnswer × Files

-- `source/` with the snapshot and the patch, and `meta/patch.diff`.
pub record Workspace : Type 0 where
  pub source : Files
  pub patch_file : Option Bytes

-- `shutil.copy2` over what stands at the path.
abbrev pub write_file : Text → Bytes → Files → Files
write_file path content [] = (path, content) ∷ []
write_file path content ((p, c) ∷ files) =
    if text_eq p path then (path, content) ∷ files else (p, c) ∷ write_file path content files

-- The loop over `rglob`: regular files only.
unfoldable pub copy_snapshot : List (Text × Node) → Files → Files
copy_snapshot [] files = files
copy_snapshot ((path, Node.file content) ∷ nodes) files =
    copy_snapshot nodes (write_file path content files)
copy_snapshot ((path, Node.link _) ∷ nodes) files = copy_snapshot nodes files
copy_snapshot ((path, Node.directory) ∷ nodes) files = copy_snapshot nodes files
copy_snapshot ((path, Node.special) ∷ nodes) files = copy_snapshot nodes files

-- A return code that is not 0 raises PATCH_ERROR, a timeout TIMEOUT.
abbrev pub require_git : GitAnswer → Fallible (Unit {0})
require_git (exited code) =
    fail_if (not (int_eq code (pos 0))) (known ErrorClass.validation_error ErrorCode.patch_error)
require_git overran = failed (known ErrorClass.validation_error ErrorCode.timeout)
require_git (unstarted message) = failed (unknown message)

abbrev pub require_valid : Option Violation → Fallible (Unit {0})
require_valid none = returned tt
require_valid (some _) = failed (known ErrorClass.protection_error ErrorCode.protection_error)

module _ (fnmatch : Text → Text → Bool) (decode : Bytes → Text) (git : Git) where
  unfoldable pub apply_patch : Bytes → List Text → Files → Fallible Workspace
  unfolding validate_patch
  apply_patch diff allowed files = do
    require_valid (validate_patch fnmatch decode diff allowed)
    require_git (git.check files diff)
    require_git (git.apply files diff).0
    returned (record { source = (git.apply files diff).1; patch_file = some diff })

  -- The directory of an attempt is new, so that `source/` is empty before.
  unfoldable pub prepare_workspace : List (Text × Node) → Bytes → List Text → Fallible Workspace
  unfolding apply_patch copy_snapshot
  prepare_workspace snapshot diff allowed =
      let files = copy_snapshot snapshot [] in
      if is_blank diff
      then returned (record { source = files; patch_file = none })
      else apply_patch diff allowed files
