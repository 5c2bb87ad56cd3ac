-- ===== src/Sandbox/Patch.antt =====
-- `validate_patch`. The decoding of UTF-8 with replacement and `fnmatch.fnmatch` are parameters; a
-- pattern of the allowed paths is a text of code points.
use verifier_ci.Prelude.{
  Bool, false, ◌&&◌, ◌||◌, Option, none, some, List, [], ◌∷◌, ◌++◌, if◌then◌else◌, ◌==◌, leb, any,
  is_empty, all,
}
use verifier_ci.Prelude.Text.{codes, is_prefix, occurs}
use verifier_ci.Artifacts.Disk.{Bytes}
use verifier_ci.Sandbox.Lines.{
  Text, split_lines, strip, strip_slashes, split_on, text_eq, ends_with, drop, with_slashes,
}

-- The reasons for a ProtectionError.
pub data Violation : Type 0 where
  binary_patch symlink absolute_path traversal outside : Violation

-- `not diff.strip()` on bytes.
abbrev pub is_blank : Bytes → Bool
is_blank = all (λ b. (b == 32) || (leb 9 b && leb b 13))

abbrev has_mode_prefix : Text → Bool
has_mode_prefix line =
    is_prefix (codes "new file mode ") line
    || is_prefix (codes "old mode ") line
    || is_prefix (codes "new mode ") line
    || is_prefix (codes "deleted file mode ") line

unfoldable pub is_symlink_mode : Text → Bool
unfolding strip ends_with
is_symlink_mode line = has_mode_prefix (strip line) && ends_with (codes "120000") (strip line)

abbrev pub names_side : Text → Bool
names_side line =
    is_prefix (codes "--- a/") line
    || is_prefix (codes "--- b/") line
    || is_prefix (codes "+++ a/") line
    || is_prefix (codes "+++ b/") line

abbrev pub names_rename : Text → Bool
names_rename line = is_prefix (codes "rename from ") line || is_prefix (codes "rename to ") line

-- `parts[i][2:].strip()` if the part has the prefix.
abbrev pub part_after : Text → Text → List Text
part_after prefix part = if is_prefix prefix part then strip (drop 2 part) ∷ [] else []

-- From `parts[2]` on.
abbrev pub header_names : List Text → List Text
header_names [] = []
header_names (old ∷ []) = part_after (codes "a/") old
header_names (old ∷ new ∷ more) = part_after (codes "a/") old ++ part_after (codes "b/") new

abbrev pub after_command : List Text → List Text
after_command (diff ∷ git ∷ parts) = parts
after_command parts = []

-- `target_files`
unfoldable pub target_files : Text → List Text
unfolding strip split_on
target_files line =
    if names_side line
    then strip (drop 6 line) ∷ []
    else if names_rename line
    then strip (drop 12 line) ∷ []
    else if is_prefix (codes "diff --git a/") line
    then header_names (after_command (split_on b' ' line))
    else []

abbrev pub is_absolute : Text → Bool
is_absolute [] = false
is_absolute (c ∷ cs) = (c == b'/') || (c == b'\\')

abbrev pub path_parts : Text → List Text
path_parts target = split_on b'/' (with_slashes target)

abbrev pub is_dots : Text → Bool
is_dots part = text_eq (codes "..") part || text_eq (codes ".") part

abbrev pub or_else : Option Violation → Option Violation → Option Violation
or_else none rest = rest
or_else (some v) rest = some v

module _ (fnmatch : Text → Text → Bool) where
  abbrev pub matches : Text → Text → Bool
  matches target pattern =
      fnmatch target pattern
      || fnmatch target (strip_slashes pattern)
      || text_eq target (strip_slashes pattern)
      || is_prefix (strip_slashes pattern ++ b'/' ∷ []) target

  -- The body of the loop over the target files.
  unfoldable pub check_target : List Text → Text → Option Violation
  unfolding split_on strip_slashes
  check_target allowed target =
      if is_empty target || text_eq target (codes "/dev/null")
      then none
      else if is_absolute target
      then some Violation.absolute_path
      else if any is_dots (path_parts target)
      then some Violation.traversal
      else if any (text_eq (codes "*")) allowed
      then none
      else if any (matches target) allowed
      then none
      else some Violation.outside

  unfoldable pub check_targets : List Text → List Text → Option Violation
  unfolding check_target
  check_targets allowed [] = none
  check_targets allowed (t ∷ ts) = or_else (check_target allowed t) (check_targets allowed ts)

  -- The body of the loop over the lines.
  unfoldable pub check_line : List Text → Text → Option Violation
  unfolding is_symlink_mode target_files check_targets
  check_line allowed line =
      if is_symlink_mode line
      then some Violation.symlink
      else check_targets allowed (target_files line)

  unfoldable pub check_lines : List Text → List Text → Option Violation
  unfolding check_line
  check_lines allowed [] = none
  check_lines allowed (l ∷ ls) = or_else (check_line allowed l) (check_lines allowed ls)

  -- `none` where it returns. `decode` is `decode("utf-8", errors="replace")`.
  unfoldable pub validate_patch : (Bytes → Text) → Bytes → List Text → Option Violation
  unfolding split_lines check_lines
  validate_patch decode diff allowed =
      if is_blank diff
      then none
      else if occurs (codes "GIT binary patch") (decode diff)
      then some Violation.binary_patch
      else check_lines allowed (split_lines (decode diff))
