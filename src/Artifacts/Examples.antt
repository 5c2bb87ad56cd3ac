-- ===== src/Artifacts/Examples.antt =====
-- A store of two files, with a digest that tells an empty content from any other.
use verifier_ci.Prelude.{
  ◌⊎◌, ℕ, ◌≤◌, ◌≡◌, refl, ◌&&◌, str_eq, true, false, none, some, List, [], ◌∷◌, String, arith,
  length, is_empty, all, count_if, any, if◌then◌else◌,
}
use verifier_ci.Prelude.Tables.{update_where}
use verifier_ci.Prelude.Text.{in_lower, lower_is}
use verifier_ci.Artifacts.Disk.{
  os_error, Bytes, Retention, Artifact, World, done, is_valid_digest, register_artifact, has_digest,
}
use verifier_ci.Artifacts.Put.{Registration, PutRequest, put_stream, artifact_of}
use verifier_ci.Artifacts.Read.{read_bytes, exists}
use verifier_ci.Artifacts.Sweep.{garbage_collect}
use verifier_ci.Artifacts.Collect.{
  Output, CollectRequest, collect_outputs, missing, regular, classify,
}
use verifier_ci.Artifacts.Storing.{
  Left, content_of, put_stream-read, put_stream-refused, put_stream-returns,
}
use verifier_ci.Artifacts.Addressing.{StoreReach, StoreStep, StoreReach-exists}
use verifier_ci.Artifacts.Retention.{has_id, is_purgeable, is_removable, garbage_collect-purges}
use verifier_ci.Artifacts.Limits.{
  total_size, SizesWithin, is_harmless, is_regular, collect_outputs-Within,
}

abbrev zeros : String
zeros = "0000000000000000000000000000000000000000000000000000000000000000"

abbrev ones : String
ones = "1111111111111111111111111111111111111111111111111111111111111111"

abbrev digest : Bytes → String
digest content = if is_empty content then zeros else ones

digest-is_valid : (content : Bytes) → is_valid_digest (digest content) ≡ true
unfolding is_valid_digest
digest-is_valid [] = refl
digest-is_valid (_ ∷ _) = refl

abbrev request : ℕ → PutRequest
request limit = record {
  max_bytes = limit;
  kind = "stdout";
  access_policy = "restricted";
  media_type = "text/plain";
  retention_until = Retention.until 500;
  registration = λ _. Registration.inserts;
  now = 100;
}

abbrev empty_world : World
empty_world = record { entries = λ _. none; temps = []; rows = [] }

abbrev stream : List Bytes
stream = (7 ∷ 8 ∷ []) ∷ (9 ∷ []) ∷ []

abbrev stored : World
stored = (put_stream digest (request 3) stream empty_world).1

abbrev artifact : Artifact
artifact = artifact_of digest (request 3) (7 ∷ 8 ∷ 9 ∷ [])

put_stream-read_example :
    (artifact.digest ≡ digest (content_of stream))
    × (artifact.size_bytes ≡ length (content_of stream))
    × (artifact.size_bytes ≤ 3)
    × (read_bytes digest artifact.digest stored ≡ done (content_of stream))
    × (stored.temps ≡ [])
unfolding put_stream register_artifact
put_stream-read_example =
    put_stream-read digest (request 3) stream empty_world stored artifact digest-is_valid refl

-- The INSERT raises when the file is in place.
abbrev failing : PutRequest
failing = record (request 3) { registration = λ _. Registration.fails }

abbrev left_behind : World
left_behind = (put_stream digest failing stream empty_world).1

put_stream-refused_example :
    (left_behind ≡ empty_world) ⊎ Left digest failing (content_of stream) empty_world left_behind
unfolding put_stream register_artifact content_of
put_stream-refused_example =
    put_stream-refused digest failing stream empty_world left_behind os_error refl refl

put_stream-returns_example :
    (w : World) × (put_stream digest (request 3) stream empty_world
      ≡ (done (artifact_of digest (request 3) (content_of stream)), w))
unfolding content_of
put_stream-returns_example =
    put_stream-returns digest (request 3) stream empty_world refl (omega arith) refl refl

StoreReach-exists_example :
    (content : Bytes) × (read_bytes digest ones stored ≡ done content) × (digest content ≡ ones)
unfolding put_stream register_artifact exists is_valid_digest
StoreReach-exists_example =
    StoreReach-exists digest empty_world stored ones (λ d. tt)
      (StoreReach.next StoreReach.here (StoreStep.puts (request 3) stream (done artifact) refl))
      refl

garbage_collect-purges_example :
    (let (ids, w) = garbage_collect 600 false stored in
      (has_id ones ids ≡ any (λ a. has_digest ones a && is_purgeable 600 a) stored.rows)
      × (w.entries ones ≡ (
          if has_id ones ids && is_removable (stored.entries ones)
          then none
          else stored.entries ones))
      × (w.rows
          ≡ update_where
              (λ a. has_id a.digest ids)
              (λ a. record a { available = false })
              stored.rows))
garbage_collect-purges_example = garbage_collect-purges 600 ones stored

purged_at_its_time : (garbage_collect 500 true stored).0 ≡ ones ∷ []
unfolding garbage_collect put_stream register_artifact
purged_at_its_time = refl

kept_before_its_time : (garbage_collect 499 false stored).0 ≡ []
unfolding garbage_collect put_stream register_artifact
kept_before_its_time = refl

abbrev whole : Bytes → List Bytes
whole content = content ∷ []

abbrev output : String → Output
output name = if str_eq name "" then missing else regular "report.json" ".json" (1 ∷ 2 ∷ [])

abbrev collecting : CollectRequest
collecting = record {
  max_bytes = some 10;
  policy = none;
  max_aggregate_bytes = some 4;
  max_files = some 2;
  access_policy = "restricted";
  registration = λ _. Registration.unconnected;
  now = 100;
}

abbrev report : Artifact
report = record {
  digest = ones;
  kind = "report";
  size_bytes = 2;
  storage_uri = ones;
  media_type = "application/json";
  access_policy = "restricted";
  retention_until = Retention.unlimited;
  available = true;
  created_at = 100;
}

abbrev names : List String
names = "a" ∷ "" ∷ "b" ∷ []

collect_outputs-Within_example :
    (total_size (report ∷ report ∷ []) ≤ 4)
    × SizesWithin 10 (report ∷ report ∷ [])
    × (length (report ∷ report ∷ []) ≤ 2)
    × (all (λ n. is_harmless (output n)) names ≡ true)
    × (length (report ∷ report ∷ []) ≡ count_if (λ n. is_regular (output n)) names)
unfolding collect_outputs classify in_lower lower_is
collect_outputs-Within_example =
    collect_outputs-Within digest whole output collecting names empty_world
      (collect_outputs digest whole output collecting names empty_world).1 (report ∷ report ∷ [])
      refl
