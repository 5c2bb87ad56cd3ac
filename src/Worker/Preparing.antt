-- ===== src/Worker/Preparing.antt =====
-- What a workspace that was prepared holds.
use verifier_ci.Prelude.{
  ◌≡◌, refl, sym, ap, subst, inl, inr, true, false, Option, none, some, List, [], arith, map,
  Bool-cases,
}
use verifier_ci.Prelude.Int.{pos}
use verifier_ci.Prelude.Text.{codes}
use verifier_ci.Errors.{Fallible, returned, failed, ◌>>◌}
use verifier_ci.Models.Job.{Job}
use verifier_ci.Models.Capture.{VerifierManifest}
use verifier_ci.Artifacts.Disk.{Bytes, Node}
use verifier_ci.Sandbox.Lines.{Text}
use verifier_ci.Sandbox.Patch.{Violation, is_blank, validate_patch}
use verifier_ci.Sandbox.Prepare.{
  Files, GitAnswer, exited, overran, unstarted, Workspace, copy_snapshot, require_git,
  require_valid, apply_patch, prepare_workspace,
}
use verifier_ci.Worker.Resolve.{resolve_snapshot, resolve_diff, resolve_manifest}
use verifier_ci.Worker.State.{Host, Shared}
use verifier_ci.Worker.Running.{Preparation, prepared, unprepared, with_workspace, prepare}

-- The files are those of the snapshot if the patch is blank; else the patch is valid, `git apply
-- --check` and `git apply` exited with 0, and the files are those that the latter made.
pub data IsPatched (h : Host) (tree : List (Text × Node)) (diff : Bytes) (m : VerifierManifest)
    (w : Workspace) : Type 0 where
  without_patch :
      is_blank diff ≡ true → w.source ≡ copy_snapshot tree [] → IsPatched h tree diff m w
  with_patch :
      is_blank diff ≡ false
      → validate_patch h.fnmatch h.decode diff (map codes m.allowed_edit_paths) ≡ none
      → h.git.check (copy_snapshot tree []) diff ≡ exited (pos 0)
      → (h.git.apply (copy_snapshot tree []) diff).0 ≡ exited (pos 0)
      → w.source ≡ (h.git.apply (copy_snapshot tree []) diff).1
      → IsPatched h tree diff m w

-- The workspace of a job: its snapshot and its patch were resolved, and the one is patched with the
-- other.
pub record IsPrepared (h : Host) (s : Shared) (job : Job) (m : VerifierManifest) (w : Workspace)
    : Type 0 where
  pub tree : List (Text × Node)
  pub of_task :
      resolve_snapshot h.directory h.default_path h.snapshot_resolver h.registry job.task_key
      ≡ returned tree
  pub diff : Bytes
  pub of_case :
      resolve_diff h.hash h.message h.diff_resolver h.registry s.store job.case_id ≡ returned diff
  pub patched : IsPatched h tree diff m w

require_valid-returned :
    (v : Option Violation) (next : Fallible Workspace) (w : Workspace)
    → (require_valid v >> next) ≡ returned w
    → (v ≡ none) × (next ≡ returned w)
require_valid-returned none next w e = (refl, e)
require_valid-returned (some v) next w e = ground arith

require_git-returned :
    (a : GitAnswer) (next : Fallible Workspace) (w : Workspace)
    → (require_git a >> next) ≡ returned w
    → (a ≡ exited (pos 0)) × (next ≡ returned w)
require_git-returned (exited code) next w e = ground arith
require_git-returned overran next w e = ground arith
require_git-returned (unstarted message) next w e = ground arith

abbrev source_in : Workspace → Fallible Workspace → Files
source_in w (returned v) = v.source
source_in w (failed e) = w.source

module _ (h : Host) (tree : List (Text × Node)) (diff : Bytes) (m : VerifierManifest)
    (w : Workspace) where
  apply_patch-IsPatched :
      is_blank diff ≡ false
      → apply_patch h.fnmatch h.decode h.git diff
          (map codes m.allowed_edit_paths)
          (copy_snapshot tree [])
        ≡ returned w
      → IsPatched h tree diff m w
  unfolding apply_patch
  apply_patch-IsPatched full e =
      let (valid, e1) = require_valid-returned _ _ w e in
      let (checked, e2) = require_git-returned _ _ w e1 in
      let (applied, e3) = require_git-returned _ _ w e2 in
      with_patch full valid checked applied (sym (ap (source_in w) e3))

  prepare_workspace-IsPatched :
      prepare_workspace h.fnmatch h.decode h.git tree diff (map codes m.allowed_edit_paths)
        ≡ returned w
      → IsPatched h tree diff m w
  unfolding prepare_workspace
  prepare_workspace-IsPatched e = elim (Bool-cases (is_blank diff)) [
    | inl b ↦ without_patch b (ground arith)
    | inr b ↦ apply_patch-IsPatched b (ground arith)
  ]

-- A step of the preparation that did not fail.
step-prepared :
    {A : Type 0} (found : Fallible A) (later : A → Preparation) (m : VerifierManifest)
    (w : Workspace)
    → (elim found as (λ _. Preparation) [ failed e ↦ unprepared none e | returned a ↦ later a ])
      ≡ prepared m w
    → (a : A) × (found ≡ returned a) × (later a ≡ prepared m w)
step-prepared (returned a) later m w e = (a, refl, e)
step-prepared (failed x) later m w e = ground arith

with_workspace-prepared :
    (m' m : VerifierManifest) (made : Fallible Workspace) (w : Workspace)
    → with_workspace m' made ≡ prepared m w
    → (m' ≡ m) × (made ≡ returned w)
with_workspace-prepared m' m (returned v) w e = (ground arith, ground arith)
with_workspace-prepared m' m (failed x) w e = ground arith

pub prepare-IsPrepared :
    (h : Host) (s : Shared) (job : Job) (m : VerifierManifest) (w : Workspace)
    → prepare h s job ≡ prepared m w
    → IsPrepared h s job m w
unfolding prepare
prepare-IsPrepared h s job m w e =
    let (tree, e1, f1) = step-prepared _ _ m w e in
    let (diff, e2, f2) = step-prepared _ _ m w f1 in
    let patch : VerifierManifest → Fallible Workspace =
      λ x. prepare_workspace h.fnmatch h.decode h.git tree diff (map codes x.allowed_edit_paths) in
    let (m', e3, f3) =
      step-prepared (resolve_manifest h.manifest_resolver h.registry job.verifier_key)
        (λ x. with_workspace x (patch x)) m w f2 in
    let (same, made) = with_workspace-prepared m' m (patch m') w f3 in
    record {
      tree = tree;
      of_task = e1;
      diff = diff;
      of_case = e2;
      patched = prepare_workspace-IsPatched h tree diff m w (
          subst
            (λ (x : VerifierManifest).
              prepare_workspace h.fnmatch h.decode h.git tree diff (map codes x.allowed_edit_paths)
              ≡ returned w)
            same made);
    }
