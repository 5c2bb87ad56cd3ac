-- ===== src/Worker/Resolve.antt =====
-- `_resolve_snapshot`, `_resolve_diff` and `_resolve_manifest`. The tables are those that the three
-- queries read; a JSON column holds the value that it decodes to. The resolvers that a caller may
-- pass, and the tests of directories, are parameters.
use verifier_ci.Prelude.{
  Bool, ◌||◌, Option, none, some, List, [], ◌∷◌, String, if◌then◌else◌, ◌==◌, any,
}
use verifier_ci.Prelude.Tables.{find_key}
use verifier_ci.Prelude.Text.{codes, is_prefix, is_text}
use verifier_ci.Errors.{
  ErrorClass, ErrorCode, known, unknown, Fallible, returned, failed, ◌>>=◌, ◌>>◌, fail_if,
}
use verifier_ci.Models.Job.{Key}
use verifier_ci.Models.Capture.{VerifierManifest}
use verifier_ci.Artifacts.Disk.{Bytes, Node, World, Reply, done, raised, os_error}
use verifier_ci.Artifacts.Read.{exists, read_bytes}
use verifier_ci.Sandbox.Lines.{Text, text_eq, drop, split_on}

-- A function, a mapping, or None.
pub data Resolver {ℓ} (A : Type ℓ) : Type ℓ where
  callable : (Key → Fallible A) → Resolver A
  mapping : List (Key × A) → Resolver A
  absent : Resolver A

pub record TaskRow : Type 0 where
  pub task_key : Key
  pub snapshot_digest : Key

pub record SnapshotRow : Type 0 where
  pub snapshot_digest : Key
  pub archive_uri : Text

pub record CaseRow : Type 0 where
  pub case_id : Key
  pub diff_digest : String

pub record VersionRow : Type 0 where
  pub verifier_key : Key
  pub manifest_hash : Key

pub record Registry : Type 0 where
  pub tasks : List TaskRow
  pub snapshots : List SnapshotRow
  pub patch_cases : List CaseRow
  pub verifier_versions : List VersionRow
  pub verifier_manifests : List VerifierManifest

abbrev value_at {ℓ} : {A : Type ℓ} → Key → List (Key × A) → Option A
value_at k [] = none
value_at k ((j, v) ∷ entries) = if j == k then some v else value_at k entries

-- A callable decides; a mapping decides where it has the key; else the database does.
abbrev pub consult {ℓ} : {A : Type ℓ} → Resolver A → Key → Fallible A → Fallible A
consult (callable f) k otherwise = f k
consult (mapping entries) k otherwise = elim (value_at k entries) [
  | none ↦ otherwise
  | some v ↦ returned v
]
consult absent k otherwise = otherwise

abbrev snapshot_uri : Registry → Key → Option Text
snapshot_uri r task = elim (find_key (λ (t : TaskRow). t.task_key) task r.tasks) [
  | none ↦ none
  | some t ↦
      elim (find_key (λ (s : SnapshotRow). s.snapshot_digest) t.snapshot_digest r.snapshots) [
        | none ↦ none
        | some s ↦ some s.archive_uri
      ]
]

abbrev path_of_uri : Text → Text
path_of_uri uri = if is_prefix (codes "file://") uri then drop 7 uri else uri

-- The path of a row with an URI, or the default path of the task.
unfoldable pub stored_snapshot : (Key → Text) → Registry → Key → Text
stored_snapshot default_path r task = elim (snapshot_uri r task) [
  | none ↦ default_path task
  | some [] ↦ default_path task
  | some (c ∷ cs) ↦ path_of_uri (c ∷ cs)
]

-- `directory` is the tree below a path, for a path that is a directory.
unfoldable pub resolve_snapshot :
    (Text → Option (List (Text × Node)))
    → (Key → Text)
    → Resolver Text
    → Registry
    → Key
    → Fallible (List (Text × Node))
unfolding stored_snapshot
resolve_snapshot directory default_path resolver r task = do
  path ← consult resolver task (returned (stored_snapshot default_path r task))
  elim (directory path) [
    | none ↦ failed (known ErrorClass.validation_error ErrorCode.validation_error)
    | some tree ↦ returned tree
  ]

-- An OSError is an exception with a text.
abbrev pub fallible {ℓ} : {A : Type ℓ} → String → Reply A → Fallible A
fallible message (done a) = returned a
fallible message (raised c e) = failed (known c e)
fallible message os_error = failed (unknown message)

abbrev stored_diff : (Bytes → String) → String → World → String → Fallible Bytes
stored_diff hash message store digest =
    if exists digest store
    then fallible message (read_bytes hash digest store)
    else failed (known ErrorClass.validation_error ErrorCode.validation_error)

unfoldable pub resolve_diff :
    (Bytes → String) → String → Resolver Bytes → Registry → World → Key → Fallible Bytes
unfolding exists read_bytes
resolve_diff hash message resolver r store case =
    consult resolver case (elim (find_key (λ (c : CaseRow). c.case_id) case r.patch_cases) [
      | none ↦ returned []
      | some row ↦
          if is_text row.diff_digest
          then stored_diff hash message store row.diff_digest
          else returned []
    ])

abbrev stored_manifest : Registry → Key → Fallible VerifierManifest
stored_manifest r verifier =
    elim (find_key (λ (v : VersionRow). v.verifier_key) verifier r.verifier_versions) [
      | none ↦ failed (known ErrorClass.infrastructure_error ErrorCode.infrastructure_error)
      | some v ↦
          elim (find_key (λ (m : VerifierManifest). m.manifest_hash) v.manifest_hash
            r.verifier_manifests) [
              | none ↦ failed (known ErrorClass.infrastructure_error ErrorCode.infrastructure_error)
              | some m ↦ returned m
            ]
    ]

-- `rep_p.is_absolute() or ".." in rep_p.parts`
abbrev pub escapes : Text → Bool
escapes path = is_prefix (codes "/") path || any (text_eq (codes "..")) (split_on b'/' path)

unfoldable pub resolve_manifest :
    Resolver VerifierManifest → Registry → Key → Fallible VerifierManifest
unfolding split_on
resolve_manifest resolver r verifier = do
  m ← consult resolver verifier (stored_manifest r verifier)
  fail_if (escapes (codes m.report_path))
      (known ErrorClass.validation_error ErrorCode.validation_error)
  returned m
