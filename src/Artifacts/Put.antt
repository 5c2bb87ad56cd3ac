-- ===== src/Artifacts/Put.antt =====
-- `put_stream` and `put_bytes`.
use verifier_ci.Prelude.{
  ℕ, Bool, true, false, ◌||◌, not, Option, none, some, List, [], ◌∷◌, ◌++◌, String, if◌then◌else◌,
  ltb, str_eq, length, is_empty,
}
use verifier_ci.Errors.{ErrorClass, ErrorCode}
use verifier_ci.Artifacts.Disk.{
  Bytes, Node, Retention, Artifact, World, Reply, done, raised, os_error, write_entry,
  register_artifact,
}

-- What becomes of the row of an artifact: no connection is given, its INSERT is made, or its INSERT
-- raises an error of SQLite.
pub data Registration : Type 0 where
  unconnected inserts fails : Registration

-- The keyword arguments, and the clock. `registration` is what the connection does with a row.
pub record PutRequest : Type 0 where
  pub max_bytes : ℕ
  pub kind : String
  pub access_policy : String
  pub media_type : String
  pub retention_until : Retention
  pub registration : Artifact → Registration
  pub now : ℕ

abbrev pub is_known_policy : String → Bool
is_known_policy p = str_eq p "public" || str_eq p "restricted" || str_eq p "sealed"

-- The `while True` loop over the chunks that `stream.read` returns; an empty chunk is the end.
-- `none` is the limit that was passed, otherwise all bytes that were written.
unfoldable pub read_chunks : ℕ → Bytes → List Bytes → Option Bytes
read_chunks max_bytes got [] = some got
read_chunks max_bytes got (chunk ∷ chunks) = elim (is_empty chunk) [
  | true ↦ some got
  | false ↦ elim (ltb max_bytes (length (got ++ chunk))) [
    | true ↦ none
    | false ↦ read_chunks max_bytes (got ++ chunk) chunks
  ]
]

abbrev pub artifact_of : (Bytes → String) → PutRequest → Bytes → Artifact
artifact_of hash r content = record {
  digest = hash content;
  kind = r.kind;
  size_bytes = length content;
  storage_uri = hash content;
  media_type = r.media_type;
  access_policy = r.access_policy;
  retention_until = r.retention_until;
  available = true;
  created_at = r.now;
}

-- `mkstemp`
abbrev pub create_temp : World → World
create_temp w = record w { temps = [] ∷ w.temps }

abbrev drop_first : List Bytes → List Bytes
drop_first [] = []
drop_first (_ ∷ ts) = ts

-- The handler `except Exception`: the temporary file is gone.
abbrev remove_temp : World → World
remove_temp w = record w { temps = drop_first w.temps }

-- What `os.replace` leaves: the file is complete at its path, and the temporary file is gone.
abbrev pub placed : (Bytes → String) → Bytes → World → World
placed hash content w = record (remove_temp w) {
  entries = write_entry (hash content) (some (Node.file content)) w.entries;
}

-- An INSERT that raises does so after `os.replace`: the file stays.
abbrev pub register_placed : Registration → Artifact → World → Reply Artifact × World
register_placed Registration.unconnected a w = (done a, w)
register_placed Registration.inserts a w = (done a, record w { rows = register_artifact a w.rows })
register_placed Registration.fails a w = (os_error, w)

abbrev place : (Bytes → String) → PutRequest → Bytes → World → Reply Artifact × World
place hash r content w =
    let a = artifact_of hash r content in
    register_placed (r.registration a) a (placed hash content w)

-- By what stands at the path; `os.replace` fails on a directory.
abbrev pub install_at :
    (Bytes → String) → PutRequest → Bytes → World → Option Node → Reply Artifact × World
install_at hash r content w (some (Node.link _)) =
    (raised ErrorClass.protection_error ErrorCode.protection_error, remove_temp w)
install_at hash r content w (some Node.directory) = (os_error, remove_temp w)
install_at hash r content w _ = place hash r content w

-- From the complete temporary file on.
unfoldable pub install : (Bytes → String) → PutRequest → Bytes → World → Reply Artifact × World
install hash r content w = install_at hash r content w (w.entries (hash content))

-- `put_stream`; `hash` is the SHA-256 hexdigest of bytes.
unfoldable pub put_stream :
    (Bytes → String) → PutRequest → List Bytes → World → Reply Artifact × World
unfolding read_chunks install
put_stream hash r chunks w =
    if not (is_known_policy r.access_policy)
    then (raised ErrorClass.validation_error ErrorCode.validation_error, w)
    else elim (read_chunks r.max_bytes [] chunks) [
      | none ↦
          (raised ErrorClass.validation_error ErrorCode.artifact_limit, remove_temp (create_temp w))
      | some content ↦ install hash r content (create_temp w)
    ]

-- `put_bytes`; `split` cuts the bytes into the chunks that `BytesIO.read` returns.
unfoldable pub put_bytes :
    (Bytes → String) → (Bytes → List Bytes) → PutRequest → Bytes → World → Reply Artifact × World
unfolding put_stream
put_bytes hash split r content w =
    if ltb r.max_bytes (length content)
    then (raised ErrorClass.validation_error ErrorCode.artifact_limit, w)
    else put_stream hash r (split content) w
