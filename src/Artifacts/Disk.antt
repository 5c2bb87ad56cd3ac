-- ===== src/Artifacts/Disk.antt =====
-- What the artifact store works on: the files under `root/sha256`, the temporary files under
-- `root/tmp`, and the rows of the `artifacts` table.
use verifier_ci.Prelude.{
  ℕ, Bool, true, ◌&&◌, ◌||◌, Option, List, [], ◌∷◌, ◌++◌, String, if◌then◌else◌, ◌==◌, leb, str_eq,
  any, all, length,
}
use verifier_ci.Prelude.Tables.{update_where}
use verifier_ci.Prelude.Text.{codes}
use verifier_ci.Errors.{ErrorClass, ErrorCode}

abbrev pub Bytes : Type 0
Bytes = List ℕ

-- What stands at a path. A link exists for `Path.exists` if its target does.
pub data Node : Type 0 where
  file : Bytes → Node
  link : Bool → Node
  directory : Node
  special : Node

-- `retention_until` as it is read back: null, a time, or a text that is no time.
pub data Retention : Type 0 where
  unlimited : Retention
  until : ℕ → Retention
  unreadable : Retention

-- `Artifact`, which is also a row of the `artifacts` table. `storage_uri` is given by the digest: the
-- path `root/sha256/xx/yyyy…` of its two parts.
pub record Artifact : Type 0 where
  pub digest : String
  pub kind : String
  pub size_bytes : ℕ
  pub storage_uri : String
  pub media_type : String
  pub access_policy : String
  pub retention_until : Retention
  pub available : Bool
  pub created_at : ℕ

-- The files are addressed by digest; `temps` holds the temporary files, the newest first.
pub record World : Type 0 where
  pub entries : String → Option Node
  pub temps : List Bytes
  pub rows : List Artifact

-- A call returns or raises: an exception of the package, or another one (`os_error`: an OSError, or
-- an error of SQLite, which no caller tells apart). What it has written stays written.
pub data Reply {ℓ} (A : Type ℓ) : Type ℓ where
  done : A → Reply A
  raised : ErrorClass → ErrorCode → Reply A
  os_error : Reply A

abbrev pub write_entry : String → Option Node → (String → Option Node) → String → Option Node
write_entry d node entries e = if str_eq d e then node else entries e

abbrev is_hex_digit : ℕ → Bool
is_hex_digit c = (leb b'0' c && leb c b'9') || (leb b'a' c && leb c b'f')

-- `_validate_digest`: `true` where it returns, `false` where it raises ValidationError.
unfoldable pub is_valid_digest : String → Bool
is_valid_digest d = (length (codes d) == 64) && all is_hex_digit (codes d)

abbrev pub has_digest : String → Artifact → Bool
has_digest d a = str_eq a.digest d

-- `register_artifact`: an INSERT that makes a row that is there available again instead.
unfoldable pub register_artifact : Artifact → List Artifact → List Artifact
register_artifact a rows =
    if any (has_digest a.digest) rows
    then update_where (has_digest a.digest) (λ r. record r { available = true }) rows
    else rows ++ record a { available = true } ∷ []
