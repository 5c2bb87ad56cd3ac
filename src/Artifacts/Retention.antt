-- ===== src/Artifacts/Retention.antt =====
-- What a sweep purges: exactly the artifacts that are available, not sealed and past their retention.
use verifier_ci.Prelude.{
  ℕ, ◌≡◌, refl, ap, sym, ◌∙◌, Bool, true, false, ◌&&◌, ◌||◌, not, leb, none, some, Option, List, [],
  ◌∷◌, String, arith, if◌then◌else◌, str_eq, eq_iff, keep_if, any, Bool-cases, inl, inr,
}
use verifier_ci.Prelude.Tables.{update_where}
use verifier_ci.Artifacts.Disk.{Node, Retention, Artifact, World, has_digest}
use verifier_ci.Artifacts.Sweep.{
  garbage_collect, sweep_rows, purge, unlinked, unavailable, has_ended, order_by_digest,
  insert_by_digest, is_candidate,
}

abbrev pub has_id : String → List String → Bool
has_id d = any (λ e. str_eq e d)

-- Kept until a time that is not after `now`.
abbrev pub is_past : ℕ → Retention → Bool
is_past now Retention.unlimited = false
is_past now (Retention.until t) = leb t now
is_past now _ = false

-- The artifacts that a sweep is for: available, not sealed, and past the time they are kept until.
abbrev pub is_purgeable : ℕ → Artifact → Bool
is_purgeable now a =
    a.available && not (str_eq a.access_policy "sealed") && is_past now a.retention_until

-- What a sweep can remove: not a directory, and not a link to nothing.
abbrev pub is_removable : Option Node → Bool
is_removable (some Node.directory) = false
is_removable (some (Node.link leads)) = leads
is_removable _ = true

removable_unlinked :
    (found : Option Node) → unlinked found ≡ (if is_removable found then none else found)
removable_unlinked found = ground arith

abbrev ended_under : ℕ → String → Artifact → Bool
ended_under now d a = has_digest d a && has_ended now a.retention_until

any-insert :
    (p : Artifact → Bool) (a : Artifact) (rows : List Artifact)
    → any p (insert_by_digest a rows) ≡ (p a || any p rows)
any-insert p a [] = refl
any-insert p a (b ∷ rows) = ground (arith, any-insert p a rows)

any-order : (p : Artifact → Bool) (rows : List Artifact) → any p (order_by_digest rows) ≡ any p rows
unfolding order_by_digest
any-order p [] = refl
any-order p (a ∷ rows) =
    any-insert p a (order_by_digest rows) ∙ ap (λ b. p a || b) (any-order p rows)

any-candidate :
    (now : ℕ) (d : String) (rows : List Artifact)
    → any (ended_under now d) (keep_if is_candidate rows)
      ≡ any (λ a. has_digest d a && is_purgeable now a) rows
any-candidate now d [] = refl
any-candidate now d (a ∷ rows) = ground (arith, any-candidate now d rows)

swept_ids :
    (dry_run : Bool) (now : ℕ) (d : String) (rows : List Artifact) (w : World)
    → has_id d (sweep_rows dry_run now rows w).0 ≡ any (ended_under now d) rows
unfolding sweep_rows
swept_ids dry_run now d [] w = refl
swept_ids dry_run now d (a ∷ rows) w = ground (
  arith,
  swept_ids dry_run now d rows
      (if has_ended now a.retention_until && not dry_run then purge a.digest w else w),
)

unlinked_twice : (found : Option Node) → unlinked (unlinked found) ≡ unlinked found
unlinked_twice found = ground arith

swept_entries :
    (now : ℕ) (d : String) (rows : List Artifact) (w : World)
    → (sweep_rows false now rows w).1.entries d
      ≡ (if any (ended_under now d) rows then unlinked (w.entries d) else w.entries d)
unfolding sweep_rows purge
swept_entries now d [] w = refl
swept_entries now d (a ∷ rows) w = elim (Bool-cases (has_ended now a.retention_until)) [
  | inl e ↦ rw e (
      ground (
        arith,
        swept_entries now d rows (purge a.digest w),
        eq_iff a.digest d,
        unlinked_twice (w.entries d),
      ))
  | inr e ↦ rw e (ground (arith, swept_entries now d rows w))
]

update_twice :
    (p q : String → Bool) (rows : List Artifact)
    → update_where (λ a. p a.digest) unavailable (update_where (λ a. q a.digest) unavailable rows)
      ≡ update_where (λ a. q a.digest || p a.digest) unavailable rows
update_twice p q [] = refl
update_twice p q (a ∷ rows) = ground (arith, update_twice p q rows)

update-none : (rows : List Artifact) → update_where (λ a. false) unavailable rows ≡ rows
update-none [] = refl
update-none (a ∷ rows) = ap (◌∷◌ a) (update-none rows)

update-ext :
    (p q : Artifact → Bool) (rows : List Artifact)
    → ((a : Artifact) → p a ≡ q a)
    → update_where p unavailable rows ≡ update_where q unavailable rows
update-ext p q [] same = refl
update-ext p q (a ∷ rows) same = ground (arith, same a, update-ext p q rows same)

swept_rows :
    (now : ℕ) (rows : List Artifact) (w : World)
    → (sweep_rows false now rows w).1.rows
      ≡ update_where (λ a. any (ended_under now a.digest) rows) unavailable w.rows
unfolding sweep_rows purge
swept_rows now [] w = sym (update-none w.rows)
swept_rows now (a ∷ rows) w = elim (Bool-cases (has_ended now a.retention_until)) [
  | inl e ↦ rw e (
      swept_rows now rows (purge a.digest w)
      ∙ update_twice (λ d. any (ended_under now d) rows) (λ d. str_eq d a.digest) w.rows
      ∙ update-ext _ _ w.rows
          (λ b. ground (arith, eq_iff a.digest b.digest, eq_iff b.digest a.digest)))
  | inr e ↦ rw e (swept_rows now rows w ∙ update-ext _ _ w.rows (λ b. ground arith))
]

abbrev with_digest : String → List String × World → List String × World
with_digest d (ids, w) = (d ∷ ids, w)

swept_dry :
    (now : ℕ) (rows : List Artifact) (w v : World)
    → sweep_rows true now rows w ≡ ((sweep_rows false now rows v).0, w)
unfolding sweep_rows
swept_dry now [] w v = refl
swept_dry now (a ∷ rows) w v = elim (Bool-cases (has_ended now a.retention_until)) [
  | inl e ↦ rw e (ap (with_digest a.digest) (swept_dry now rows w (purge a.digest v)))
  | inr e ↦ rw e (swept_dry now rows w v)
]

-- A sweep returns a digest exactly when some row under it is available, not sealed and past the time
-- that it is kept until; what stands at the path of such a digest is removed, unless it is a
-- directory or a link to nothing, and every row under it becomes unavailable, its other columns
-- unchanged; and every other path and every other row stays as it was.
pub garbage_collect-purges :
    (now : ℕ) (d : String) (w : World)
    → (let (ids, w') = garbage_collect now false w in
        (has_id d ids ≡ any (λ a. has_digest d a && is_purgeable now a) w.rows)
        × (w'.entries d
            ≡ (if has_id d ids && is_removable (w.entries d) then none else w.entries d))
        × (w'.rows
            ≡ update_where (λ a. has_id a.digest ids) (λ a. record a { available = false }) w.rows))
unfolding garbage_collect
garbage_collect-purges now d w =
    let rows = order_by_digest (keep_if is_candidate w.rows) in
    let ids = λ (e : String). swept_ids false now e rows w in
    (
      ids d
          ∙ any-order (ended_under now d) (keep_if is_candidate w.rows)
          ∙ any-candidate now d w.rows,
      rw (ids d) (ground (arith, swept_entries now d rows w, removable_unlinked (w.entries d))),
      swept_rows now rows w ∙ update-ext _ _ w.rows (λ a. sym (ids a.digest)),
    )

-- A dry run returns what a sweep would, and changes nothing.
pub garbage_collect-dry_run :
    (now : ℕ) (w : World) → garbage_collect now true w ≡ ((garbage_collect now false w).0, w)
unfolding garbage_collect
garbage_collect-dry_run now w = swept_dry now (order_by_digest (keep_if is_candidate w.rows)) w w
