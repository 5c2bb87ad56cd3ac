-- ===== src/Matrix/Accounting.antt =====
-- The attempts that a cell lists, selected or excluded.
use verifier_ci.Prelude.{
  ℕ, zero, suc, ◌+◌, ◌≡◌, refl, ap, sym, ◌∙◌, Bool, true, false, ◌&&◌, ◌||◌, none, some, List, [],
  ◌∷◌, ◌++◌, arith, ◌==◌, ltb, leb, any, contains, keep_if, Bool-cases, inl, inr,
}
use verifier_ci.Models.Job.{Key}
use verifier_ci.Models.Attempt.{EvaluationAttempt, is_authoritative, is_closed}
use verifier_ci.Matrix.Cell.{
  Selection, attempt_ids, selecting, in_repetition, is_excluded, repetition_of, latest,
  select_repetition, select_latest, select_authoritative, selections, all_selected, all_excluded,
}
use verifier_ci.Matrix.Reduce.{aggregate_cell, CellKey}

abbrev has_id : Key → EvaluationAttempt → Bool
has_id x a = x == a.attempt_id

pub contains-append :
    (x : Key) (xs ys : List Key) → contains x (xs ++ ys) ≡ (contains x xs || contains x ys)
contains-append x [] ys = refl
contains-append x (k ∷ xs) ys = ground (arith, contains-append x xs ys)

contains-kept :
    (x : Key) (p : EvaluationAttempt → Bool) (bs : List EvaluationAttempt)
    → contains x (attempt_ids (keep_if p bs)) ≡ any (λ a. has_id x a && p a) bs
contains-kept x p [] = refl
contains-kept x p (b ∷ bs) = ground (arith, contains-kept x p bs)

any-has_id :
    (x : Key) (bs : List EvaluationAttempt) → any (has_id x) bs ≡ contains x (attempt_ids bs)
any-has_id x [] = refl
any-has_id x (b ∷ bs) = ground (arith, any-has_id x bs)

any-weaken :
    (x : Key) (p : EvaluationAttempt → Bool) (bs : List EvaluationAttempt)
    → any (λ a. has_id x a && p a) bs ≡ true
    → contains x (attempt_ids bs) ≡ true
any-weaken x p [] h = ground arith
any-weaken x p (b ∷ bs) h = ground (arith, any-weaken x p bs)

latest-contains :
    (a : EvaluationAttempt) (bs : List EvaluationAttempt)
    → contains (latest a bs).attempt_id (attempt_ids (a ∷ bs)) ≡ true
unfolding latest
latest-contains a [] = ground arith
latest-contains a (b ∷ bs) = ground (arith, latest-contains a bs, latest-contains b bs)

-- Whether the lists of a repetition hold the identifier.
abbrev listed : Key → Selection → Bool
listed x s = contains x s.selected || contains x s.excluded

listed-others :
    (x : Key) (a : EvaluationAttempt) (bs : List EvaluationAttempt)
    → listed x (selecting a bs) ≡ ((x == a.attempt_id) || contains x (attempt_ids bs))
listed-others x a [] = ground arith
listed-others x a (b ∷ bs) = ground (arith, listed-others x a bs)

listed-selecting :
    (x : Key) (a : EvaluationAttempt) (bs : List EvaluationAttempt)
    → contains a.attempt_id (attempt_ids bs) ≡ true
    → listed x (selecting a bs) ≡ contains x (attempt_ids bs)
listed-selecting x a bs h = ground (arith, listed-others x a bs, same x)
  where
    same : (y : Key) → (y == a.attempt_id) ≡ true → contains y (attempt_ids bs) ≡ true
    same y e = ground arith

listed-select_latest :
    (x : Key) (bs : List EvaluationAttempt)
    → listed x (select_latest bs) ≡ contains x (attempt_ids bs)
listed-select_latest x [] = refl
listed-select_latest x (b ∷ bs) = elim (Bool-cases (is_closed (latest b bs).disposition)) [
  | inl e ↦ rw e refl
  | inr e ↦ rw e (listed-selecting x (latest b bs) (b ∷ bs) (latest-contains b bs))
]

listed-select_authoritative :
    (x : Key) (p : EvaluationAttempt → Bool) (as_ bs : List EvaluationAttempt)
    → keep_if p bs ≡ as_
    → listed x (select_authoritative as_ bs) ≡ contains x (attempt_ids bs)
listed-select_authoritative x p [] bs e = listed-select_latest x bs
listed-select_authoritative x p (a ∷ more) bs e =
    let y = (latest a more).attempt_id in
    listed-selecting x (latest a more) bs (
      any-weaken y p bs (
        sym (contains-kept y p bs)
        ∙ ap (λ (cs : List EvaluationAttempt). contains y (attempt_ids cs)) e
        ∙ latest-contains a more))

-- A repetition lists exactly its attempts.
pub listed-select_repetition :
    (x : Key) (bs : List EvaluationAttempt)
    → listed x (select_repetition bs) ≡ contains x (attempt_ids bs)
unfolding select_repetition
listed-select_repetition x bs =
    listed-select_authoritative x (λ b. is_authoritative b.disposition) _ bs refl

abbrev in_window : List (Key × ℕ) → ℕ → ℕ → EvaluationAttempt → Bool
in_window m r left a = elim (repetition_of m a.job_id) [
  | none ↦ false
  | some s ↦ leb r s && ltb s (r + left)
]

any-split :
    (x : Key) (m : List (Key × ℕ)) (r left : ℕ) (bs : List EvaluationAttempt)
    → any (λ a. has_id x a && in_window m r (suc left) a) bs ≡ (
        any (λ a. has_id x a && in_repetition m r a) bs
        || any (λ a. has_id x a && in_window m (suc r) left a) bs)
any-split x m r left [] = refl
any-split x m r left (b ∷ bs) = ground (arith, any-split x m r left bs)

any-empty :
    (x : Key) (m : List (Key × ℕ)) (r : ℕ) (bs : List EvaluationAttempt)
    → any (λ a. has_id x a && in_window m r zero a) bs ≡ false
any-empty x m r [] = refl
any-empty x m r (b ∷ bs) = ground (arith, any-empty x m r bs)

listed-selections :
    (x : Key) (m : List (Key × ℕ)) (bs : List EvaluationAttempt) (r left : ℕ)
    → (contains x (all_selected (selections m bs r left))
        || contains x (all_excluded (selections m bs r left)))
      ≡ any (λ a. has_id x a && in_window m r left a) bs
unfolding selections
listed-selections x m bs r zero = sym (any-empty x m r bs)
listed-selections x m bs r (suc left) =
    let s = select_repetition (keep_if (in_repetition m r) bs) in
    let rest = selections m bs (suc r) left in
    ground (
      arith,
      any-split x m r left bs,
      listed-select_repetition x (keep_if (in_repetition m r) bs),
      contains-kept x (in_repetition m r) bs,
      contains-append x s.selected (all_selected rest),
      contains-append x s.excluded (all_excluded rest),
      listed-selections x m bs (suc r) left,
    )

any-all :
    (x : Key) (m : List (Key × ℕ)) (planned : ℕ) (bs : List EvaluationAttempt)
    → (any (λ a. has_id x a && in_window m 0 planned a) bs
        || any (λ a. has_id x a && is_excluded m planned a) bs)
      ≡ contains x (attempt_ids bs)
any-all x m planned [] = refl
any-all x m planned (b ∷ bs) = ground (arith, any-all x m planned bs)

-- A cell lists exactly the attempts that it was given, whatever their repetition and disposition.
pub aggregate_cell-lists :
    (x : Key) (k : CellKey) (planned : ℕ) (bs : List EvaluationAttempt) (m : List (Key × ℕ))
    → contains x (
        (aggregate_cell k planned bs m).selected_attempt_ids
        ++ (aggregate_cell k planned bs m).excluded_attempt_ids)
      ≡ contains x (attempt_ids bs)
unfolding aggregate_cell
aggregate_cell-lists x k planned bs m =
    let ss = selections m bs 0 planned in
    let out = attempt_ids (keep_if (is_excluded m planned) bs) in
    ground (
      arith,
      contains-append x (all_selected ss) (out ++ all_excluded ss),
      contains-append x out (all_excluded ss),
      contains-kept x (is_excluded m planned) bs,
      listed-selections x m bs 0 planned,
      any-all x m planned bs,
    )
