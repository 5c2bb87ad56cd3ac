-- ===== src/Artifacts/Storing.antt =====
-- What `put_stream` stores can be read again, and what one that does not return leaves.
use verifier_ci.Prelude.{
  ℕ, ◌≤◌, ◌<◌, ◌≡◌, refl, sym, ap, subst, Bool, true, false, Option, none, some, List, [], ◌∷◌,
  ◌++◌, String, arith, if◌then◌else◌, leb, length, length-append, is_empty, eq_refl, eq_iff, inl,
  inr, ◌⊎◌, str_eq, Bool-cases,
}
use verifier_ci.Errors.{ErrorClass, ErrorCode}
use verifier_ci.Artifacts.Disk.{
  Bytes, Node, Artifact, World, Reply, done, raised, os_error, is_valid_digest, write_entry,
  register_artifact,
}
use verifier_ci.Artifacts.Put.{
  PutRequest, Registration, put_stream, read_chunks, install, create_temp, is_known_policy,
  artifact_of, placed, register_placed, install_at,
}
use verifier_ci.Artifacts.Read.{read_bytes, verify_node}

-- The bytes of a stream: its chunks up to the first empty one.
abbrev pub is_done {ℓ} : {A : Type ℓ} → Reply A → Bool
is_done (done _) = true
is_done _ = false

unfoldable pub content_of : List Bytes → Bytes
content_of [] = []
content_of (c ∷ cs) = if is_empty c then [] else c ++ content_of cs

append_assoc : (xs ys zs : Bytes) → (xs ++ ys) ++ zs ≡ xs ++ (ys ++ zs)
append_assoc [] ys zs = refl
append_assoc (x ∷ xs) ys zs = ap (◌∷◌ x) (append_assoc xs ys zs)

append-nil : (xs : Bytes) → xs ++ [] ≡ xs
append-nil [] = refl
append-nil (x ∷ xs) = ap (◌∷◌ x) (append-nil xs)

-- The loop keeps all bytes, or stops when they pass the limit.
read_chunks-content :
    (max : ℕ) (got : Bytes) (chunks : List Bytes)
    → length got ≤ max
    → read_chunks max got chunks ≡ (
        if leb (length (got ++ content_of chunks)) max
        then some (got ++ content_of chunks)
        else none)
unfolding read_chunks content_of
read_chunks-content max got [] h = rw (append-nil got) (ground arith)
read_chunks-content max got (c ∷ cs) h = ground (
  arith,
  append-nil got,
  append_assoc got c (content_of cs),
  length-append (got ++ c) (content_of cs),
  read_chunks-content max (got ++ c) cs,
)

abbrev pub is_replaceable : Option Node → Bool
is_replaceable (some (Node.link _)) = false
is_replaceable (some Node.directory) = false
is_replaceable _ = true

abbrev stored_world : (Bytes → String) → PutRequest → Bytes → World → World
stored_world hash r content w = record w {
  entries = write_entry (hash content) (some (Node.file content)) w.entries;
  rows = elim (r.registration (artifact_of hash r content)) [
    | Registration.inserts ↦ register_artifact (artifact_of hash r content) w.rows
    | _ ↦ w.rows
  ];
}

abbrev pub raises_on : Registration → Bool
raises_on Registration.fails = true
raises_on _ = false

-- What a put leaves whose INSERT raised: the stream is within the limit and stands as a file under
-- its digest, and neither the other files nor the temporary files nor the table have changed.
pub record Left (hash : Bytes → String) (r : PutRequest) (content : Bytes) (w w' : World)
    : Type 0 where
  pub raised : r.registration (artifact_of hash r content) ≡ Registration.fails
  pub within : length content ≤ r.max_bytes
  pub replaced : is_replaceable (w.entries (hash content)) ≡ true
  pub written :
      (d : String)
      → w'.entries d ≡ (if str_eq (hash content) d then some (Node.file content) else w.entries d)
  pub same_temps : w'.temps ≡ w.temps
  pub same_rows : w'.rows ≡ w.rows

Registration-cases :
    (g : Registration)
    → (g ≡ Registration.unconnected) ⊎ (g ≡ Registration.inserts) ⊎ (g ≡ Registration.fails)
Registration-cases Registration.unconnected = inl refl
Registration-cases Registration.inserts = inr (inl refl)
Registration-cases Registration.fails = inr (inr refl)

module _ (hash : Bytes → String) (r : PutRequest) where
  installed :
      (content : Bytes) (w w' : World) (a : Artifact)
      → install hash r content (create_temp w) ≡ (done a, w')
      → (a ≡ artifact_of hash r content)
        × (w'.entries ≡ write_entry (hash content) (some (Node.file content)) w.entries)
        × (w'.temps ≡ w.temps)
  unfolding install
  installed content w w' a h = ground arith

  not_registered :
      (content : Bytes) (w w' : World) (reply : Reply Artifact) (g : Registration)
      → r.registration (artifact_of hash r content) ≡ g
      → is_replaceable (w.entries (hash content)) ≡ true
      → length content ≤ r.max_bytes
      → register_placed g (artifact_of hash r content) (placed hash content (create_temp w))
        ≡ (reply, w')
      → is_done reply ≡ false
      → Left hash r content w w'
  not_registered content w w' reply Registration.unconnected e free fits h f = ground arith
  not_registered content w w' reply Registration.inserts e free fits h f = ground arith
  not_registered content w w' reply Registration.fails e free fits h f =
      subst (Left hash r content w) (ap (λ (x : Reply Artifact × World). x.1) h) record {
        raised = e;
        within = fits;
        replaced = free;
        written = λ d. refl;
        same_temps = refl;
        same_rows = refl;
      }

  not_installed_at :
      (content : Bytes) (w w' : World) (reply : Reply Artifact) (node : Option Node)
      → w.entries (hash content) ≡ node
      → length content ≤ r.max_bytes
      → install_at hash r content (create_temp w) node ≡ (reply, w')
      → is_done reply ≡ false
      → (w' ≡ w) ⊎ Left hash r content w w'
  not_installed_at content w w' reply (some (Node.link b)) e fits h f =
      inl (sym (ap (λ (x : Reply Artifact × World). x.1) h))
  not_installed_at content w w' reply (some Node.directory) e fits h f =
      inl (sym (ap (λ (x : Reply Artifact × World). x.1) h))
  not_installed_at content w w' reply none e fits h f =
      inr (not_registered content w w' reply _ refl (ap is_replaceable e) fits h f)
  not_installed_at content w w' reply (some (Node.file old)) e fits h f =
      inr (not_registered content w w' reply _ refl (ap is_replaceable e) fits h f)
  not_installed_at content w w' reply (some Node.special) e fits h f =
      inr (not_registered content w w' reply _ refl (ap is_replaceable e) fits h f)

  not_installed :
      (content : Bytes) (w w' : World) (reply : Reply Artifact)
      → length content ≤ r.max_bytes
      → install hash r content (create_temp w) ≡ (reply, w')
      → is_done reply ≡ false
      → (w' ≡ w) ⊎ Left hash r content w w'
  unfolding install
  not_installed content w w' reply fits h f =
      not_installed_at content w w' reply (w.entries (hash content)) refl fits h f

  read_all :
      (chunks : List Bytes)
      → read_chunks r.max_bytes [] chunks
        ≡ (if leb (length (content_of chunks)) r.max_bytes then some (content_of chunks) else none)
  read_all chunks = read_chunks-content r.max_bytes [] chunks (omega arith)

  -- What a put that returns has done.
  pub put_stream-stored :
      (chunks : List Bytes) (w w' : World) (a : Artifact)
      → put_stream hash r chunks w ≡ (done a, w')
      → (length (content_of chunks) ≤ r.max_bytes)
        × (a ≡ artifact_of hash r (content_of chunks))
        × (w'.entries
            ≡ write_entry
                (hash (content_of chunks))
                (some (Node.file (content_of chunks)))
                w.entries)
        × (w'.temps ≡ w.temps)
  unfolding put_stream
  put_stream-stored chunks w w' a h =
      let i = installed (content_of chunks) w w' a in
      ground (arith, read_all chunks, installed (content_of chunks) w w' a)

  readable :
      (d : String) (entries : String → Option Node) (content : Bytes)
      → hash content ≡ d
      → verify_node hash d (write_entry d (some (Node.file content)) entries d) ≡ done content
  unfolding verify_node
  readable d entries content e = rw (eq_refl d) (ground (arith, eq_iff (hash content) d))

  -- If the digests of `hash` are well formed and `put_stream` returns an artifact, then the artifact
  -- records the digest and the number of the bytes of the stream, which is within the limit; reading
  -- its digest back gives these bytes; and no temporary file is left.
  pub put_stream-read :
      (chunks : List Bytes) (w w' : World) (a : Artifact)
      → ((content : Bytes) → is_valid_digest (hash content) ≡ true)
      → put_stream hash r chunks w ≡ (done a, w')
      → (a.digest ≡ hash (content_of chunks))
        × (a.size_bytes ≡ length (content_of chunks))
        × (a.size_bytes ≤ r.max_bytes)
        × (read_bytes hash a.digest w' ≡ done (content_of chunks))
        × (w'.temps ≡ w.temps)
  unfolding read_bytes
  put_stream-read chunks w w' a valid h =
      let (fits, same, entries, temps) = put_stream-stored chunks w w' a h in
      let d : a.digest ≡ hash (content_of chunks) = ap (λ (x : Artifact). x.digest) same in
      let size : a.size_bytes ≡ length (content_of chunks) =
        ap (λ (x : Artifact). x.size_bytes) same in
      let read : read_bytes hash (hash (content_of chunks)) w' ≡ done (content_of chunks) =
        rw (valid (content_of chunks), entries)
          (readable (hash (content_of chunks)) w.entries (content_of chunks) refl) in
      (
        d,
        size,
        omega arith,
        subst (λ x. read_bytes hash x w' ≡ done (content_of chunks)) (sym d) read,
        temps,
      )

  -- A put that does not return leaves the files, the temporary files and the table as they were,
  -- unless the INSERT of its row raised: then the stream is within the limit, neither a link nor a
  -- directory stood at the path of its digest, and a file of its bytes stands there now; the other
  -- files, the temporary files and the table are as they were.
  pub put_stream-refused :
      (chunks : List Bytes) (w w' : World) (reply : Reply Artifact)
      → put_stream hash r chunks w ≡ (reply, w')
      → is_done reply ≡ false
      → (w' ≡ w) ⊎ Left hash r (content_of chunks) w w'
  unfolding put_stream
  put_stream-refused chunks w w' reply h f = elim (Bool-cases (is_known_policy r.access_policy)) [
    | inr bad ↦ inl (ground (arith, bad))
    | inl known ↦ elim (Bool-cases (leb (length (content_of chunks)) r.max_bytes)) [
      | inr over ↦ inl (ground (arith, known, over, read_all chunks))
      | inl fits ↦
          not_installed (content_of chunks) w w' reply (ground arith)
            (ground (arith, known, fits, read_all chunks)) f
    ]
  ]

  -- A put, whatever it answers, leaves the files as they were or writes its stream to its path.
  pub put_stream-entries :
      (chunks : List Bytes) (w w' : World) (reply : Reply Artifact)
      → put_stream hash r chunks w ≡ (reply, w')
      → (w'.entries ≡ w.entries)
        ⊎ ((d : String)
            → w'.entries d
              ≡ write_entry
                  (hash (content_of chunks))
                  (some (Node.file (content_of chunks)))
                  w.entries
                  d)
  put_stream-entries chunks w w' (done a) h =
      let (_, _, entries, _) = put_stream-stored chunks w w' a h in
      inr (λ d. ap (λ (es : String → Option Node). es d) entries)
  put_stream-entries chunks w w' (raised c e) h =
      elim (put_stream-refused chunks w w' (raised c e) h refl) [
        | inl same ↦ inl (ap (λ (x : World). x.entries) same)
        | inr left ↦ inr left.written
      ]
  put_stream-entries chunks w w' os_error h =
      elim (put_stream-refused chunks w w' os_error h refl) [
        | inl same ↦ inl (ap (λ (x : World). x.entries) same)
        | inr left ↦ inr left.written
      ]

  -- A stream within the limit is stored, if the access policy is one of the three, neither a link nor
  -- a directory stands at the path of its digest, and the INSERT of its row, if any, does not raise.
  pub put_stream-returns :
      (chunks : List Bytes) (w : World)
      → is_known_policy r.access_policy ≡ true
      → length (content_of chunks) ≤ r.max_bytes
      → is_replaceable (w.entries (hash (content_of chunks))) ≡ true
      → raises_on (r.registration (artifact_of hash r (content_of chunks))) ≡ false
      → (w' : World) × (put_stream hash r chunks w
          ≡ (done (artifact_of hash r (content_of chunks)), w'))
  unfolding put_stream install
  put_stream-returns chunks w known fits free quiet =
      elim (Registration-cases (r.registration (artifact_of hash r (content_of chunks)))) [
        | inl e ↦ (stored_world hash r (content_of chunks) w, ground (arith, e, read_all chunks))
        | inr (inl e) ↦
            (stored_world hash r (content_of chunks) w, ground (arith, e, read_all chunks))
        | inr (inr e) ↦ ground (arith, e)
      ]

  -- A stream over the limit is refused with ARTIFACT_LIMIT, if the access policy is one of the three.
  over_limit :
      (chunks : List Bytes) (w : World)
      → is_known_policy r.access_policy ≡ true
      → r.max_bytes < length (content_of chunks)
      → put_stream hash r chunks w
        ≡ (raised ErrorClass.validation_error ErrorCode.artifact_limit, w)
  unfolding put_stream
  over_limit chunks w known over = ground (arith, read_all chunks)
