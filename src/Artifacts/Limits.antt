-- ===== src/Artifacts/Limits.antt =====
-- The limits that `collect_outputs` keeps, and the paths that it accepts.
use verifier_ci.Prelude.{
  ℕ, ◌+◌, ◌-◌, ◌≤◌, ◌≡◌, ◌≢◌, suc, refl, ap, sym, ◌∙◌, Bool, true, false, List, [], ◌∷◌, String,
  arith, length, all, count_if, inl, inr, ◌⊎◌,
}
use verifier_ci.Artifacts.Disk.{Bytes, Artifact, World, Reply, done, raised, os_error}
use verifier_ci.Artifacts.Put.{put_stream}
use verifier_ci.Artifacts.Storing.{put_stream-stored}
use verifier_ci.Artifacts.Collect.{
  Output, OutputPolicy, CollectRequest, limits, put_request, after_put, prepend, collect_names,
  collect_outputs, linked, unresolvable, outside, through_link, missing, irregular, regular,
}

abbrev pub is_regular : Output → Bool
is_regular (regular _ _ _) = true
is_regular _ = false

-- A regular file, or nothing at all.
abbrev pub is_harmless : Output → Bool
is_harmless (regular _ _ _) = true
is_harmless missing = true
is_harmless _ = false

abbrev pub total_size : List Artifact → ℕ
total_size [] = 0
total_size (a ∷ rest) = a.size_bytes + total_size rest

abbrev pub SizesWithin : ℕ → List Artifact → Type 0
SizesWithin n [] = Unit
SizesWithin n (a ∷ rest) = (a.size_bytes ≤ n) × SizesWithin n rest

Output-cases :
    (o : Output)
    → (o ≡ missing)
      ⊎ (((base : String) × (suffix : String) × (content : Bytes) × (o
              ≡ regular base suffix content))
          ⊎ (is_harmless o ≡ false))
Output-cases missing = inl refl
Output-cases (regular base suffix content) = inr (inl (base, suffix, content, refl))
Output-cases linked = inr (inr refl)
Output-cases unresolvable = inr (inr refl)
Output-cases outside = inr (inr refl)
Output-cases through_link = inr (inr refl)
Output-cases irregular = inr (inr refl)

after_put-done :
    (p : Reply Artifact × World) (next : Artifact → World → Reply (List Artifact) × World)
    (found : List Artifact) (w' : World)
    → after_put p next ≡ (done found, w')
    → (a : Artifact) × (w : World) × (p ≡ (done a, w)) × (next a w ≡ (done found, w'))
after_put-done (done a, w) next found w' h = (a, w, refl, h)
after_put-done (raised c e, w) next found w' h = cc
after_put-done (os_error, w) next found w' h = cc

prepend-done :
    (a : Artifact) (q : Reply (List Artifact) × World) (found : List Artifact) (w' : World)
    → prepend a q ≡ (done found, w')
    → (rest : List Artifact) × (q ≡ (done rest, w')) × (found ≡ a ∷ rest)
prepend-done a (done rest, w) found w' h = (rest, cc, cc)
prepend-done a (raised c e, w) found w' h = cc
prepend-done a (os_error, w) found w' h = cc

-- What a collection that returns has kept to, after `count` files and `total` bytes.
record Within (l : OutputPolicy) (at : String → Output) (names : List String) (count total : ℕ)
    (found : List Artifact) : Type 0 where
  pub bytes : total + total_size found ≤ l.artifact_bytes
  pub files : count + length found ≤ l.artifact_files
  pub streams : SizesWithin l.stream_bytes found
  pub harmless : all (λ n. is_harmless (at n)) names ≡ true
  pub each_file : length found ≡ count_if (λ n. is_regular (at n)) names

module _ (hash : Bytes → String) (split : Bytes → List Bytes) (at : String → Output) where
  put_size :
      (r : CollectRequest) (l : OutputPolicy) (total : ℕ) (base suffix : String) (content : Bytes)
      (w w' : World) (a : Artifact)
      → put_stream hash (put_request r l total base suffix) (split content) w ≡ (done a, w')
      → (a.size_bytes ≤ l.stream_bytes) × (a.size_bytes ≤ l.artifact_bytes - total)
  put_size r l total base suffix content w w' a h =
      let (fits, same, _, _) =
        put_stream-stored hash (put_request r l total base suffix) (split content) w w' a h in
      ground (arith, ap (λ (x : Artifact). x.size_bytes) same)

  module _ (r : CollectRequest) (l : OutputPolicy) (count total : ℕ) (name : String)
      (names : List String) (w w' : World) (found : List Artifact) where
    refused :
        is_harmless (at name) ≡ false
        → collect_names hash split at r l count total (name ∷ names) w ≢ (done found, w')
    unfolding collect_names
    refused e h = ground arith

    skipped :
        at name ≡ missing
        → collect_names hash split at r l count total (name ∷ names) w
          ≡ collect_names hash split at r l count total names w
    unfolding collect_names
    skipped e = rw (e, collect_names)

    taken :
        (base suffix : String) (content : Bytes)
        → at name ≡ regular base suffix content
        → collect_names hash split at r l count total (name ∷ names) w ≡ (done found, w')
        → (count + 1 ≤ l.artifact_files)
          × (a : Artifact) × (mid : World) × (rest : List Artifact) × (a.size_bytes
              ≤ l.stream_bytes)
          × (a.size_bytes ≤ l.artifact_bytes - total)
          × (collect_names hash split at r l (count + 1) (total + a.size_bytes) names mid
              ≡ (done rest, w'))
          × (found ≡ a ∷ rest)
    unfolding collect_names
    taken base suffix content e h =
        let fits : (count + 1 ≤ l.artifact_files)
            × (after_put (put_stream hash (put_request r l total base suffix) (split content) w)
                  (λ a v.
                    prepend a
                      (collect_names hash split at r l (count + 1) (total + a.size_bytes) names v))
                ≡ (done found, w')) =
          ground arith in
        let (a, mid, put, next) = after_put-done _ _ found w' fits.1 in
        let (rest, inner, same) = prepend-done a _ found w' next in
        let (s, b) = put_size r l total base suffix content w mid a put in
        (fits.0, a, mid, rest, s, b, inner, same)

  collect_names-Within :
      (r : CollectRequest) (l : OutputPolicy) (count total : ℕ) (names : List String) (w w' : World)
      (found : List Artifact)
      → total ≤ l.artifact_bytes
      → count ≤ l.artifact_files
      → collect_names hash split at r l count total names w ≡ (done found, w')
      → Within l at names count total found
  unfolding collect_names
  collect_names-Within r l count total [] w w' found b f h = ground arith
  collect_names-Within r l count total (name ∷ names) w w' found b f h =
      elim (Output-cases (at name)) [
        | inr (inr bad) ↦ absurd (refused r l count total name names w w' found bad h)
        | inl gone ↦
            let v =
              collect_names-Within r l count total names w w' found b f
                (sym (skipped r l count total name names w w' found gone) ∙ h) in
            record {
              bytes = v.bytes;
              files = v.files;
              streams = v.streams;
              harmless = rw gone v.harmless;
              each_file = rw gone v.each_file;
            }
        | inr (inl (base, suffix, content, e)) ↦
            let (fits, a, mid, rest, s, room, inner, same) =
              taken r l count total name names w w' found base suffix content e h in
            let v =
              collect_names-Within r l (count + 1) (total + a.size_bytes) names mid w' rest
                (omega arith) fits inner in
            rw same record {
              bytes = omega (arith, v.bytes);
              files = omega (arith, v.files);
              streams = (s, v.streams);
              harmless = rw e v.harmless;
              each_file = rw e (ap suc v.each_file);
            }
      ]

  -- If `collect_outputs` returns, then the sizes of the artifacts together are within the aggregate
  -- limit, each is within the limit of a stream, and they are no more than the limit of files; every
  -- allowlisted name led to a regular file or to nothing; and there is one artifact for each file.
  pub collect_outputs-Within :
      (r : CollectRequest) (names : List String) (w w' : World) (found : List Artifact)
      → collect_outputs hash split at r names w ≡ (done found, w')
      → (total_size found ≤ (limits r).artifact_bytes)
        × SizesWithin (limits r).stream_bytes found
        × (length found ≤ (limits r).artifact_files)
        × (all (λ n. is_harmless (at n)) names ≡ true)
        × (length found ≡ count_if (λ n. is_regular (at n)) names)
  unfolding collect_outputs
  collect_outputs-Within r names w w' found h =
      let v =
        collect_names-Within r (limits r) 0 0 names w w' found (omega arith) (omega arith) h in
      (omega (arith, v.bytes), v.streams, omega (arith, v.files), v.harmless, v.each_file)
