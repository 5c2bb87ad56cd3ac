-- ===== src/Artifacts/Sweep.antt =====
-- `garbage_collect`. A time is its number of milliseconds.
use verifier_ci.Prelude.{
  ℕ, Bool, true, false, ◌&&◌, not, Option, none, some, List, [], ◌∷◌, String, if◌then◌else◌, leb,
  str_eq, keep_if,
}
use verifier_ci.Prelude.Tables.{update_where}
use verifier_ci.Prelude.Text.{codes, codes_le}
use verifier_ci.Artifacts.Disk.{Node, Retention, Artifact, World, write_entry, has_digest}

abbrev has_retention : Retention → Bool
has_retention Retention.unlimited = false
has_retention _ = true

-- The WHERE clause of the query.
abbrev pub is_candidate : Artifact → Bool
is_candidate a =
    has_retention a.retention_until && not (str_eq a.access_policy "sealed") && a.available

abbrev pub insert_by_digest : Artifact → List Artifact → List Artifact
insert_by_digest a [] = a ∷ []
insert_by_digest a (b ∷ bs) =
    if codes_le (codes a.digest) (codes b.digest) then a ∷ b ∷ bs else b ∷ insert_by_digest a bs

-- `ORDER BY digest ASC`
unfoldable pub order_by_digest : List Artifact → List Artifact
order_by_digest [] = []
order_by_digest (a ∷ rest) = insert_by_digest a (order_by_digest rest)

-- `ret_dt <= now_utc`, for a text that is a time.
abbrev pub has_ended : ℕ → Retention → Bool
has_ended now (Retention.until t) = leb t now
has_ended now _ = false

-- `exists` and `unlink`: a directory is not unlinked, and a link to nothing is not found.
abbrev pub unlinked : Option Node → Option Node
unlinked none = none
unlinked (some Node.directory) = some Node.directory
unlinked (some (Node.link false)) = some (Node.link false)
unlinked (some _) = none

abbrev pub unavailable : Artifact → Artifact
unavailable a = record a { available = false }

-- What is done with one expired row outside of a dry run.
unfoldable pub purge : String → World → World
purge d w = record w {
  entries = write_entry d (unlinked (w.entries d)) w.entries;
  rows = update_where (has_digest d) unavailable w.rows;
}

-- The loop over the rows.
unfoldable pub sweep_rows : Bool → ℕ → List Artifact → World → List String × World
unfolding purge
sweep_rows dry_run now [] w = ([], w)
sweep_rows dry_run now (a ∷ rest) w =
    let (ids, w') =
      sweep_rows dry_run now rest
        (if has_ended now a.retention_until && not dry_run then purge a.digest w else w) in
    ((if has_ended now a.retention_until then a.digest ∷ ids else ids), w')

unfoldable pub garbage_collect : ℕ → Bool → World → List String × World
unfolding sweep_rows order_by_digest
garbage_collect now dry_run w =
    sweep_rows dry_run now (order_by_digest (keep_if is_candidate w.rows)) w
