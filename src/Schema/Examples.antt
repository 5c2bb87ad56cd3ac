-- ===== src/Schema/Examples.antt =====
-- Two migrations of a schema that is the list of the scripts that ran.
use verifier_ci.Prelude.{◌+◌, ◌≡◌, refl, ℕ, true, false, none, some, Option, List, [], ◌∷◌, ◌++◌}
use verifier_ci.Errors.{ErrorClass}
use verifier_ci.Schema.Migrate.{MigrationFile, Migrating, migrated, refused, migrate}
use verifier_ci.Schema.Again.{migrate-again}

abbrev run : ℕ → List ℕ → Option (List ℕ)
run script schema = some (schema ++ script ∷ [])

abbrev file : ℕ → MigrationFile ℕ
file n = record { version = some n; content = 10 + n; checksum = 100 + n }

abbrev fresh : Migrating (List ℕ)
fresh = record { schema = []; rows = [] }

abbrev done : Migrating (List ℕ)
done = record {
  schema = 11 ∷ 12 ∷ [];
  rows = record { version = 1; checksum = 101 } ∷ record { version = 2; checksum = 102 } ∷ [];
}

migrate-again_example :
    migrate run (λ s. true) false none (file 1 ∷ file 2 ∷ []) done ≡ migrated 2 done
unfolding migrate
migrate-again_example =
    migrate-again run (λ s. true) none (file 1 ∷ file 2 ∷ []) true false fresh done 2 refl

-- The names are in the order of texts, so that 10 can stand before 2: the version that is returned
-- is then not the greatest.
unpadded_names :
    migrate run (λ s. true) true none (file 10 ∷ file 2 ∷ []) fresh
    ≡ migrated 2 (record {
      schema = 20 ∷ 12 ∷ [];
      rows = record { version = 10; checksum = 110 } ∷ record { version = 2; checksum = 102 } ∷ [];
    })
unfolding migrate
unpadded_names = refl

-- A file that was changed after it was applied.
changed_file :
    migrate run (λ s. true) true none (record (file 1) { checksum = 7 } ∷ file 2 ∷ []) done
    ≡ refused ErrorClass.identity_conflict done
unfolding migrate
changed_file = refl
