-- ===== src/Schema/Migrate.antt =====
-- `migrate`. The schema is of any type; what a script makes of it and the check of foreign keys are
-- parameters. A version is a natural number, a checksum is only compared. The files are those of
-- the directory in the order of their names.
use verifier_ci.Prelude.{
  ℕ, Bool, false, Option, none, some, List, [], ◌∷◌, ◌++◌, ◌⊎◌, inl, inr, if◌then◌else◌, ◌==◌, ltb,
}
use verifier_ci.Prelude.Tables.{find_key}
use verifier_ci.Errors.{ErrorClass}
use verifier_ci.Models.Job.{Key}

-- `version` is none where `int` refuses the prefix of the name.
pub record MigrationFile {ℓ} (Script : Type ℓ) : Type ℓ where
  pub version : Option ℕ
  pub content : Script
  pub checksum : Key

-- A row of `schema_migrations`.
pub record AppliedRow : Type 0 where
  pub version : ℕ
  pub checksum : Key

pub record Pending {ℓ} (Script : Type ℓ) : Type ℓ where
  pub version : ℕ
  pub content : Script
  pub checksum : Key

pub record Migrating {ℓ} (Schema : Type ℓ) : Type ℓ where
  pub schema : Schema
  pub rows : List AppliedRow

-- What `migrate` leaves: it returns a version, or raises.
pub data Migrated {ℓ} (Schema : Type ℓ) : Type ℓ where
  migrated : ℕ → Migrating Schema → Migrated Schema
  refused : ErrorClass → Migrating Schema → Migrated Schema

abbrev pub find_applied : ℕ → List AppliedRow → Option AppliedRow
find_applied = find_key (λ (a : AppliedRow). a.version)

-- `version > target_version`
abbrev pub is_beyond : Option ℕ → ℕ → Bool
is_beyond none version = false
is_beyond (some target) version = ltb target version

-- `max(applied.keys()) if applied else 0`
abbrev pub latest_applied : List AppliedRow → ℕ
latest_applied [] = 0
latest_applied (a ∷ rows) = let m = latest_applied rows in if ltb m a.version then a.version else m

module _ {ℓ} {Script : Type ℓ} where
  abbrev pub add_pending :
      Pending Script → Option (List (Pending Script)) → Option (List (Pending Script))
  add_pending p none = none
  add_pending p (some ps) = some (p ∷ ps)

  abbrev pub pending_file : ℕ → MigrationFile Script → Pending Script
  pending_file v f = record { version = v; content = f.content; checksum = f.checksum }

  -- The body of the loop over the files, with what the rest of the loop comes to; `none` where a
  -- checksum differs from the recorded one.
  abbrev pub next_file :
      Option ℕ
      → MigrationFile Script
      → ℕ
      → Option AppliedRow
      → Option (List (Pending Script))
      → Option (List (Pending Script))
  next_file target f v (some a) rest = if a.checksum == f.checksum then rest else none
  next_file target f v none rest =
      if is_beyond target v then some [] else add_pending (pending_file v f) rest

  abbrev pub named_file :
      Option ℕ
      → List AppliedRow
      → MigrationFile Script
      → Option ℕ
      → Option (List (Pending Script))
      → Option (List (Pending Script))
  named_file target rows f none rest = rest
  named_file target rows f (some v) rest = next_file target f v (find_applied v rows) rest

  abbrev pub row_of : Pending Script → AppliedRow
  row_of p = record { version = p.version; checksum = p.checksum }

  unfoldable pub pending_of :
      Option ℕ → List AppliedRow → List (MigrationFile Script) → Option (List (Pending Script))
  pending_of target rows [] = some []
  pending_of target rows (f ∷ files) =
      named_file target rows f f.version (pending_of target rows files)

module _ {ℓ κ} {Script : Type ℓ} {Schema : Type κ} (run : Script → Schema → Option Schema)
    (is_consistent : Schema → Bool) where
  -- The check and the INSERT behind a script that ran; the INSERT is refused if the version has a
  -- row.
  abbrev pub recorded :
      Pending Script → List AppliedRow → Schema → Option AppliedRow → ErrorClass ⊎ Migrating Schema
  recorded p rows schema (some a) =
      inl (if is_consistent schema then ErrorClass.foreign else ErrorClass.validation_error)
  recorded p rows schema none =
      if is_consistent schema
      then inr (record { schema = schema; rows = rows ++ row_of p ∷ [] })
      else inl ErrorClass.validation_error

  abbrev pub after_script :
      Pending Script → List AppliedRow → Option Schema → ErrorClass ⊎ Migrating Schema
  after_script p rows none = inl ErrorClass.foreign
  after_script p rows (some schema) = recorded p rows schema (find_applied p.version rows)

  -- The loop over the pending migrations. One that raises is rolled back.
  unfoldable pub apply_pending : ℕ → List (Pending Script) → Migrating Schema → Migrated Schema
  apply_pending latest [] m =
      if is_consistent m.schema
      then Migrated.migrated latest m
      else Migrated.refused ErrorClass.validation_error m
  apply_pending latest (p ∷ ps) m = elim (after_script p m.rows (run p.content m.schema)) [
    | inl e ↦ Migrated.refused e m
    | inr m' ↦ apply_pending p.version ps m'
  ]

  -- `can_back_up` is whether the backup, where one is made, succeeds.
  abbrev pub apply_all : Bool → Migrating Schema → Option (List (Pending Script)) → Migrated Schema
  apply_all can_back_up m none = Migrated.refused ErrorClass.identity_conflict m
  apply_all can_back_up m (some []) = Migrated.migrated (latest_applied m.rows) m
  apply_all can_back_up m (some (p ∷ ps)) =
      if can_back_up
      then apply_pending (latest_applied m.rows) (p ∷ ps) m
      else Migrated.refused ErrorClass.infrastructure_error m

  unfoldable pub migrate :
      Bool → Option ℕ → List (MigrationFile Script) → Migrating Schema → Migrated Schema
  unfolding pending_of apply_pending
  migrate can_back_up target files m = apply_all can_back_up m (pending_of target m.rows files)
