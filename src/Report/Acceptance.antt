-- ===== src/Report/Acceptance.antt =====
-- What an accepting or a rejecting report has shown.
use verifier_ci.Prelude.{
  ℕ, ◌≡◌, ◌≢◌, inl, inr, refl, sym, ap, ◌∙◌, Bool, true, false, not, ◌&&◌, some, List, [], ◌∷◌,
  String, arith, any, all, count_if, is_empty, list_eq, str_eq, eq_iff,
}
use verifier_ci.Prelude.Tables.{IsIn}
use verifier_ci.Models.Attempt.{Outcome}
use verifier_ci.Models.Capture.{
  TestResult, VerifierManifest, ExecutionCapture, is_failed, is_skipped,
}
use verifier_ci.Report.Judge.{
  judge, ids, has_text, insert_text, sort_texts, collection_differs, has_disallowed_skip,
  has_failures, passed_last, exit_is_nonzero, report_of,
}

-- How often a test identifier stands in a collection.
abbrev pub times : String → List String → ℕ
times s = count_if (str_eq s)

times-insert : (s t : String) (ts : List String) → times s (insert_text t ts) ≡ times s (t ∷ ts)
times-insert s t [] = refl
times-insert s t (x ∷ ts) = ground (arith, times-insert s t ts)

times-sort : (s : String) (ts : List String) → times s (sort_texts ts) ≡ times s ts
unfolding sort_texts
times-sort s [] = refl
times-sort s (t ∷ ts) = ground (arith, times-insert s t (sort_texts ts), times-sort s ts)

list_eq-eq : (xs ys : List String) → list_eq str_eq xs ys ≡ true → xs ≡ ys
list_eq-eq [] [] h = refl
list_eq-eq [] (y ∷ ys) h = cc
list_eq-eq (x ∷ xs) [] h = cc
list_eq-eq (x ∷ xs) (y ∷ ys) h = ground (arith, eq_iff x y, list_eq-eq xs ys)

-- A collection that meets a declared expectation holds each identifier as often as declared.
same_collection :
    (expected observed : List String) (s : String)
    → collection_differs expected observed ≡ false
    → expected ≢ []
    → times s expected ≡ times s observed
unfolding collection_differs
same_collection [] observed s h some_expected = absurd (some_expected refl)
same_collection (x ∷ xs) observed s h some_expected =
    let same : list_eq str_eq (sort_texts (x ∷ xs)) (sort_texts observed) ≡ true = ground arith in
    sym (times-sort s (x ∷ xs))
    ∙ ap (times s) (list_eq-eq (sort_texts (x ∷ xs)) (sort_texts observed) same)
    ∙ times-sort s observed

any-IsIn :
    {A : Type 0} (p : A → Bool) (x : A) (xs : List A) → any p xs ≡ false → IsIn x xs → p x ≡ false
any-IsIn p x [] h m = absurd m
any-IsIn p x (y ∷ xs) h (inl e) = let q : p y ≡ false = ground arith in rw e q
any-IsIn p x (y ∷ xs) h (inr m) = any-IsIn p x xs (ground arith) m

all-IsIn :
    {A : Type 0} (p : A → Bool) (x : A) (xs : List A) → all p xs ≡ true → IsIn x xs → p x ≡ true
all-IsIn p x [] h m = absurd m
all-IsIn p x (y ∷ xs) h (inl e) = let q : p y ≡ true = ground arith in rw e q
all-IsIn p x (y ∷ xs) h (inr m) = all-IsIn p x xs (ground arith) m

count-IsIn :
    {A : Type 0} (p : A → Bool) (x : A) (xs : List A) → count_if p xs ≡ 0 → IsIn x xs → p x ≡ false
count-IsIn p x [] h m = absurd m
count-IsIn p x (y ∷ xs) h (inl e) = let q : p y ≡ false = ground arith in rw e q
count-IsIn p x (y ∷ xs) h (inr m) = count-IsIn p x xs (ground arith) m

-- The report earns an acceptance.
pub record Earned (rs : List TestResult) (m : VerifierManifest) (c : ExecutionCapture)
    : Type 0 where
  pub not_empty : rs ≢ []
  pub none_failed : (r : TestResult) → IsIn r rs → is_failed r.status ≡ false
  pub skips_permitted :
      (r : TestResult)
      → IsIn r rs
      → is_skipped r.status ≡ true
      → has_text r.test_id m.permitted_skips ≡ true
  pub required_passed : (s : String) → IsIn s m.required_pass_ids → passed_last rs s ≡ true
  pub collected :
      (s : String) → m.expected_collection ≢ [] → times s m.expected_collection ≡ times s (ids rs)
  pub exit_agrees : exit_is_nonzero c.exit_code ≡ false

no_failures :
    (m : VerifierManifest) (rs : List TestResult)
    → has_failures m rs ≡ false
    → (count_if (λ r. is_failed r.status) rs ≡ 0)
      × (all (passed_last rs) m.required_pass_ids ≡ true)
unfolding has_failures
no_failures m rs h = ground arith

permitted :
    (m : VerifierManifest) (rs : List TestResult)
    → has_disallowed_skip m rs ≡ false
    → (r : TestResult) → IsIn r rs
    → is_skipped r.status ≡ true
    → has_text r.test_id m.permitted_skips ≡ true
unfolding has_disallowed_skip
permitted m rs h r here skips = ground (
  arith,
  any-IsIn (λ x. is_skipped x.status && not (has_text x.test_id m.permitted_skips)) r rs h here,
)

module _ (rs : List TestResult) (e : Bool) (m : VerifierManifest) (c : ExecutionCapture) where
  accepted_tests :
      (judge rs e m c).outcome ≡ Outcome.accept
      → (e ≡ false)
        × (is_empty rs ≡ false)
        × (collection_differs m.expected_collection (ids rs) ≡ false)
        × (has_disallowed_skip m rs ≡ false)
        × (has_failures m rs ≡ false)
        × (exit_is_nonzero c.exit_code ≡ false)
        × ((judge rs e m c).report ≡ some (report_of rs))
  unfolding judge
  accepted_tests h = ground arith

  -- If the results of a run are judged `accept`, then no duration was refused by the parser and the
  -- report that is kept is that of these results; there is a result, none of them failed, every
  -- skipped one is permitted, every required test passed (by the last result under its identifier),
  -- each identifier was collected as often as the manifest expects it (if it expects any), and the
  -- process did not exit with a nonzero code.
  pub judge-accept :
      (judge rs e m c).outcome ≡ Outcome.accept
      → (e ≡ false) × ((judge rs e m c).report ≡ some (report_of rs)) × Earned rs m c
  judge-accept h =
      let (flag, some_results, collection, skips, failures, exit, kept) = accepted_tests h in
      let (failed, required) = no_failures m rs failures in
      (
        flag,
        kept,
        record {
          not_empty = λ none_there. cc (some_results, ap is_empty none_there);
          none_failed = λ r here. count-IsIn (λ x. is_failed x.status) r rs failed here;
          skips_permitted = permitted m rs skips;
          required_passed = λ s here. all-IsIn (passed_last rs) s m.required_pass_ids required here;
          collected =
              λ s expects. same_collection m.expected_collection (ids rs) s collection expects;
          exit_agrees = exit;
        },
      )
