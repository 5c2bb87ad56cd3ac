-- ===== src/Schema/Again.antt =====
-- What a migration that returned leaves to do.
use verifier_ci.Prelude.{
  ℕ, ◌≡◌, ◌⊎◌, inl, inr, refl, sym, subst, ap, ◌∙◌, Bool, true, false, Option, none, some, List, [],
  ◌∷◌, ◌++◌, arith, if◌then◌else◌, ==_refl, Bool-cases,
}
use verifier_ci.Prelude.Tables.{find_key-append_none}
use verifier_ci.Errors.{ErrorClass}
use verifier_ci.Schema.Migrate.{
  MigrationFile, AppliedRow, Pending, Migrating, Migrated, migrated, refused, find_applied,
  latest_applied, pending_of, row_of, recorded, after_script, apply_pending, apply_all, migrate,
}
use verifier_ci.Schema.Pending.{
  Extends, Extends-refl, Extends-trans, append-Extends, AllRecorded, AllWithin, row_key,
  nothing_pending, pending_of-Within,
}

module _ {ℓ κ} {Script : Type ℓ} {Schema : Type κ} (run : Script → Schema → Option Schema)
    (is_consistent : Schema → Bool) where
  abbrev rows_in : ErrorClass ⊎ Migrating Schema → List AppliedRow
  rows_in (inl e) = []
  rows_in (inr m) = m.rows

  abbrev rows_after : Migrated Schema → List AppliedRow
  rows_after (migrated v m) = m.rows
  rows_after (refused e m) = m.rows

  recorded-inr :
      (p : Pending Script) (rows : List AppliedRow) (schema : Schema) (found : Option AppliedRow)
      (m' : Migrating Schema)
      → recorded run is_consistent p rows schema found ≡ inr m'
      → (found ≡ none) × (m'.rows ≡ rows ++ row_of p ∷ [])
  recorded-inr p rows schema (some a) m' h = cc
  recorded-inr p rows schema none m' h = elim (Bool-cases (is_consistent schema)) [
    | inl good ↦ (
      refl,
      ap rows_in (sym h)
          ∙ ap
              (λ b. rows_in (
                if b
                then inr (record { schema = schema; rows = rows ++ row_of p ∷ [] })
                else inl ErrorClass.validation_error))
              good,
    )
    | inr bad ↦ absurd (ground arith)
  ]

  after_script-inr :
      (p : Pending Script) (rows : List AppliedRow) (o : Option Schema) (m' : Migrating Schema)
      → after_script run is_consistent p rows o ≡ inr m'
      → (find_applied p.version rows ≡ none) × (m'.rows ≡ rows ++ row_of p ∷ [])
  after_script-inr p rows none m' h = cc
  after_script-inr p rows (some schema) m' h =
      recorded-inr p rows schema (find_applied p.version rows) m' h

  applied-next :
      (x : ErrorClass ⊎ Migrating Schema) (m : Migrating Schema)
      (g : Migrating Schema → Migrated Schema) (v : ℕ) (m' : Migrating Schema)
      → (elim x [ inl e ↦ refused e m | inr m1 ↦ g m1 ]) ≡ migrated v m'
      → (m1 : Migrating Schema) × (x ≡ inr m1) × (g m1 ≡ migrated v m')
  applied-next (inl e) m g v m' h = cc
  applied-next (inr m1) m g v m' h = (m1, refl, h)

  apply_pending-recorded :
      (target : Option ℕ) (latest : ℕ) (ps : List (Pending Script)) (m : Migrating Schema) (v : ℕ)
      (m' : Migrating Schema)
      → AllWithin target ps
      → apply_pending run is_consistent latest ps m ≡ migrated v m'
      → Extends target m.rows m'.rows × AllRecorded m'.rows ps
  unfolding apply_pending
  apply_pending-recorded target latest [] m v m' w h = elim (Bool-cases (is_consistent m.schema)) [
    | inl good ↦
        let rows : m.rows ≡ m'.rows =
          sym (
            ap
              (λ b.
                rows_after (if b then migrated latest m else refused ErrorClass.validation_error m))
              good)
          ∙ ap rows_after h in
        (subst (Extends target m.rows) rows (Extends-refl target m.rows), tt)
    | inr bad ↦ absurd (ground arith)
  ]
  apply_pending-recorded target latest (p ∷ ps) m v m' (first, within) h =
      let (m1, one, rest) =
        applied-next (after_script run is_consistent p m.rows (run p.content m.schema)) m
          (λ x. apply_pending run is_consistent p.version ps x) v m' h in
      let (absent, rows) = after_script-inr p m.rows (run p.content m.schema) m1 one in
      let (x, others) = apply_pending-recorded target p.version ps m1 v m' within rest in
      let now : find_applied p.version m1.rows ≡ some (row_of p) =
        subst (λ y. find_applied p.version y ≡ some (row_of p)) (sym rows)
          (find_key-append_none row_key p.version m.rows (row_of p) absent
            ∙ rw (==_refl p.version) refl) in
      (
        Extends-trans target m.rows m1.rows m'.rows
            (subst (Extends target m.rows) (sym rows)
              (append-Extends target (row_of p) m.rows first))
            x,
        (x.kept p.version (row_of p) now, others),
      )

  apply_all-recorded :
      (target : Option ℕ) (backed_up : Bool) (o : Option (List (Pending Script)))
      (m : Migrating Schema) (v : ℕ) (m' : Migrating Schema)
      → ((ps : List (Pending Script)) → o ≡ some ps → AllWithin target ps)
      → apply_all run is_consistent backed_up m o ≡ migrated v m'
      → (ps : List (Pending Script)) × (o ≡ some ps)
        × Extends target m.rows m'.rows
        × AllRecorded m'.rows ps
  apply_all-recorded target backed_up none m v m' w h = cc
  apply_all-recorded target backed_up (some []) m v m' w h =
      ([], refl, subst (Extends target m.rows) (ap rows_after h) (Extends-refl target m.rows), tt)
  apply_all-recorded target true (some (p ∷ ps)) m v m' w h =
      let (x, all_in) =
        apply_pending-recorded target (latest_applied m.rows) (p ∷ ps) m v m' (w (p ∷ ps) refl) h in
      (p ∷ ps, refl, x, all_in)
  apply_all-recorded target false (some (p ∷ ps)) m v m' w h = cc

  -- If `migrate` returns, then a second call with the same files and the same target returns the
  -- greatest recorded version and changes nothing, whether or not a backup could be made.
  pub migrate-again :
      (target : Option ℕ) (files : List (MigrationFile Script)) (backed_up again : Bool)
      (m m' : Migrating Schema) (v : ℕ)
      → migrate run is_consistent backed_up target files m ≡ migrated v m'
      → migrate run is_consistent again target files m' ≡ migrated (latest_applied m'.rows) m'
  unfolding migrate
  migrate-again target files backed_up again m m' v h =
      let (ps, e, x, all_in) =
        apply_all-recorded target backed_up (pending_of target m.rows files) m v m'
          (λ ps e. pending_of-Within target m.rows files ps e) h in
      rw (nothing_pending target m.rows m'.rows files ps x e all_in) refl
