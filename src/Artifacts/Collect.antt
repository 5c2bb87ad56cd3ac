-- ===== src/Artifacts/Collect.antt =====
-- `collect_outputs`: the allowlisted files of an output directory, under three limits.
use verifier_ci.Prelude.{
  ℕ, ◌+◌, ◌-◌, ◌*◌, ◌||◌, Option, none, some, List, [], ◌∷◌, String, if◌then◌else◌, ltb, leb,
  or_default, length,
}
use verifier_ci.Prelude.Text.{in_lower, lower_is}
use verifier_ci.Errors.{ErrorClass, ErrorCode}
use verifier_ci.Artifacts.Disk.{Bytes, Retention, Artifact, World, Reply, done, raised, os_error}
use verifier_ci.Artifacts.Put.{Registration, PutRequest, put_stream}

-- What the path of an allowlisted name leads to, in the order of the tests: a link, a path that does
-- not resolve or leaves the output directory, a path through a link, nothing, something that is no
-- regular file, or a file with its last component, its suffix and its content.
pub data Output : Type 0 where
  linked unresolvable outside through_link missing irregular : Output
  regular : String → String → Bytes → Output

-- `SandboxPolicy`, as far as it is read here.
pub record OutputPolicy : Type 0 where
  pub stream_bytes : ℕ
  pub artifact_bytes : ℕ
  pub artifact_files : ℕ

-- The keyword arguments, and the clock.
pub record CollectRequest : Type 0 where
  pub max_bytes : Option ℕ
  pub policy : Option OutputPolicy
  pub max_aggregate_bytes : Option ℕ
  pub max_files : Option ℕ
  pub access_policy : String
  pub registration : Artifact → Registration
  pub now : ℕ

abbrev default_bytes : ℕ
default_bytes = 16 * 1024 * 1024

abbrev max_of : ℕ → ℕ → ℕ
max_of a b = if leb a b then b else a

abbrev pub min_of : ℕ → ℕ → ℕ
min_of a b = if leb a b then a else b

-- `stream_limit`, `aggregate_limit` and `file_limit`
abbrev pub limits : CollectRequest → OutputPolicy
limits r = elim r.policy [
  | some p ↦ p
  | none ↦
      let stream = or_default r.max_bytes default_bytes in
      record {
        stream_bytes = stream;
        artifact_bytes = or_default r.max_aggregate_bytes (max_of default_bytes stream);
        artifact_files = or_default r.max_files 64;
      }
]

-- The media type and the kind of a file, by its suffix and its name.
unfoldable pub classify : String → String → String × String
unfolding in_lower lower_is
classify name suffix =
    if lower_is suffix ".json"
    then ("application/json", if in_lower "report" name then "report" else "evidence")
    else if lower_is suffix ".txt" || lower_is suffix ".log"
    then (
      "text/plain",
      if in_lower "stdout" name
          then "stdout"
          else if in_lower "stderr" name
          then "stderr"
          else "evidence",
    )
    else if lower_is suffix ".diff" || lower_is suffix ".patch"
    then ("text/x-diff", "diff")
    else ("application/octet-stream", "evidence")

abbrev pub put_request : CollectRequest → OutputPolicy → ℕ → String → String → PutRequest
put_request r l total name suffix = record {
  max_bytes = min_of l.stream_bytes (l.artifact_bytes - total);
  kind = (classify name suffix).1;
  access_policy = r.access_policy;
  media_type = (classify name suffix).0;
  retention_until = Retention.unlimited;
  registration = r.registration;
  now = r.now;
}

abbrev protection : Reply (List Artifact)
protection = raised ErrorClass.protection_error ErrorCode.protection_error

abbrev over_limit : Reply (List Artifact)
over_limit = raised ErrorClass.validation_error ErrorCode.artifact_limit

-- What follows a file that was stored: an exception ends the loop.
abbrev pub after_put :
    Reply Artifact × World
    → (Artifact → World → Reply (List Artifact) × World)
    → Reply (List Artifact) × World
after_put (done a, w) next = next a w
after_put (raised c e, w) next = (raised c e, w)
after_put (os_error, w) next = (os_error, w)

abbrev pub prepend : Artifact → Reply (List Artifact) × World → Reply (List Artifact) × World
prepend a (done rest, w) = (done (a ∷ rest), w)
prepend a (raised c e, w) = (raised c e, w)
prepend a (os_error, w) = (os_error, w)

-- The loop over the names, after `count` files and `total` bytes. `hash` is SHA-256, `split` cuts the
-- content into the chunks that are read, and `at` is what the paths lead to.
module _ (hash : Bytes → String) (split : Bytes → List Bytes) (at : String → Output) where
  unfoldable pub collect_names :
      CollectRequest → OutputPolicy → ℕ → ℕ → List String → World → Reply (List Artifact) × World
  unfolding put_stream
  collect_names r l count total [] w = (done [], w)
  collect_names r l count total (name ∷ names) w = elim (at name) [
    | missing ↦ collect_names r l count total names w
    | regular base suffix content ↦
        if ltb l.artifact_files (count + 1)
        then (over_limit, w)
        else if ltb l.artifact_bytes (total + length content)
        then (over_limit, w)
        else after_put (put_stream hash (put_request r l total base suffix) (split content) w)
            λ a w'. prepend a (collect_names r l (count + 1) (total + a.size_bytes) names w')
    | _ ↦ (protection, w)
  ]

  unfoldable pub collect_outputs :
      CollectRequest → List String → World → Reply (List Artifact) × World
  unfolding collect_names
  collect_outputs r names w = collect_names r (limits r) 0 0 names w
