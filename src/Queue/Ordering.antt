-- ===== src/Queue/Ordering.antt =====
-- The rows that `reap_expired` selects: the expired jobs, each once, in the order of their
-- identifiers.
use verifier_ci.Prelude.{
  ◌≡◌, refl, ◌∙◌, Bool, true, false, ◌||◌, some, List, [], ◌∷◌, arith, inl, inr, ◌==◌, Bool-cases,
  contains, keep_if, leb,
}
use verifier_ci.Prelude.Tables.{IsIn, Unique}
use verifier_ci.Models.Job.{Key, Job}
use verifier_ci.Queue.Database.{find_job}
use verifier_ci.Queue.Evolution.{job_key}
use verifier_ci.Queue.Reap.{insert_by_id, order_by_id, job_ids}

contains-insert :
    (k : Key) (j : Job) (js : List Job)
    → contains k (job_ids (insert_by_id j js)) ≡ ((k == j.job_id) || contains k (job_ids js))
contains-insert k j [] = refl
contains-insert k j (x ∷ js) = ground (arith, contains-insert k j js)

pub contains-order :
    (k : Key) (js : List Job) → contains k (job_ids (order_by_id js)) ≡ contains k (job_ids js)
contains-order k [] = refl
contains-order k (j ∷ js) =
    ground (arith, contains-insert k j (order_by_id js), contains-order k js)

insert-Unique :
    (j : Job) (js : List Job)
    → contains j.job_id (job_ids js) ≡ false
    → Unique (job_ids js)
    → Unique (job_ids (insert_by_id j js))
insert-Unique j [] h u = (refl, tt)
insert-Unique j (x ∷ js) h u =
    ground (arith, contains-insert x.job_id j js, insert-Unique j js (ground arith) u.1)

pub order-Unique : (js : List Job) → Unique (job_ids js) → Unique (job_ids (order_by_id js))
order-Unique [] u = tt
order-Unique (j ∷ js) u =
    insert-Unique j (order_by_id js) (contains-order j.job_id js ∙ u.0) (order-Unique js u.1)

insert-IsIn : (i j : Job) (js : List Job) → IsIn i (j ∷ js) → IsIn i (insert_by_id j js)
insert-IsIn i j [] m = m
insert-IsIn i j (x ∷ js) m = elim (Bool-cases (leb j.job_id x.job_id)) [
  | inl le ↦ rw le m
  | inr gt ↦ rw gt (elim m [
    | inl e ↦ inr (insert-IsIn i j js (inl e))
    | inr (inl e) ↦ inl e
    | inr (inr n) ↦ inr (insert-IsIn i j js (inr n))
  ])
]

pub order-IsIn : (i : Job) (js : List Job) → IsIn i js → IsIn i (order_by_id js)
order-IsIn i [] m = m
order-IsIn i (j ∷ js) (inl e) = insert-IsIn i j (order_by_id js) (inl e)
order-IsIn i (j ∷ js) (inr m) = insert-IsIn i j (order_by_id js) (inr (order-IsIn i js m))

keep_if-contains :
    (p : Job → Bool) (k : Key) (js : List Job)
    → contains k (job_ids js) ≡ false
    → contains k (job_ids (keep_if p js)) ≡ false
keep_if-contains p k [] h = h
keep_if-contains p k (j ∷ js) h = ground (arith, keep_if-contains p k js)

pub keep_if-Unique :
    (p : Job → Bool) (js : List Job) → Unique (job_ids js) → Unique (job_ids (keep_if p js))
keep_if-Unique p [] u = tt
keep_if-Unique p (j ∷ js) u =
    ground (arith, keep_if-contains p j.job_id js u.0, keep_if-Unique p js u.1)

pub keep_if-IsIn :
    (p : Job → Bool) (i : Job) (js : List Job) → p i ≡ true → IsIn i js → IsIn i (keep_if p js)
keep_if-IsIn p i [] h m = m
keep_if-IsIn p i (j ∷ js) h (inl e) = let hit : p j ≡ true = rw (← e) h in rw hit (inl e)
keep_if-IsIn p i (j ∷ js) h (inr m) = elim (Bool-cases (p j)) [
  | inl hit ↦ rw hit (inr (keep_if-IsIn p i js h m))
  | inr miss ↦ rw miss (keep_if-IsIn p i js h m)
]

-- A stored job that fails the test is not among those kept, nor is another with its identifier.
pub keep_if-misses :
    (p : Job → Bool) (k : Key) (js : List Job) (j : Job)
    → Unique (job_ids js)
    → find_job k js ≡ some j
    → p j ≡ false
    → contains k (job_ids (keep_if p js)) ≡ false
keep_if-misses p k [] j u h m = refl
keep_if-misses p k (x ∷ js) j u h m = elim (Bool-cases (job_key x == k)) [
  | inl hit ↦ ground (arith, keep_if-contains p x.job_id js u.0, keep_if-contains p k js)
  | inr miss ↦ ground (arith, keep_if-misses p k js j u.1)
]
