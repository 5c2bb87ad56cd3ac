-- ===== src/Prelude/Tables.antt =====
-- A database table as a list of rows with a numeric key, and the two statements that the queue
-- uses on it: `SELECT … WHERE key = ?` (the first row found) and `UPDATE … SET … WHERE …`.
use Prim.Native.Nat.{ℕ}
use mathlib.Core.Path.{◌≡◌, refl, ap, subst, ◌∙◌}
use mathlib.Core.Logic.{◌⊎◌, ◌↔◌, inl, inr}
use mathlib.Core.Bool.{Bool, true, false}
use mathlib.Core.Option.{Option, none, some}
use mathlib.Core.List.{List, [], ◌∷◌, ◌++◌, map}
use native.Mathlib.Omega.{arith}
use verifier_ci.Prelude.Tests.{if◌then◌else◌, ◌==◌, ==_iff, Bool-cases}
use verifier_ci.Prelude.Lists.{any, contains}

module _ {ℓ} {A : Type ℓ} where
  abbrev pub find_key : (A → ℕ) → ℕ → List A → Option A
  find_key key k [] = none
  find_key key k (x ∷ xs) = if key x == k then some x else find_key key k xs

  abbrev pub update_where : (A → Bool) → (A → A) → List A → List A
  update_where p f [] = []
  update_where p f (x ∷ xs) = (if p x then f x else x) ∷ update_where p f xs

  abbrev pub map_option : (A → A) → Option A → Option A
  map_option f none = none
  map_option f (some a) = some (f a)

  module _ (key : A → ℕ) where
    -- The row that a search finds has the key.
    pub find_key-key : (k : ℕ) (xs : List A) (a : A) → find_key key k xs ≡ some a → key a ≡ k
    find_key-key k [] a h = ground arith
    find_key-key k (x ∷ xs) a h = ground (arith, find_key-key k xs a)

    -- An update that keeps the keys changes what a search finds and not whether it finds.
    pub find_key-update :
        (p : A → Bool) (f : A → A)
        → ((a : A) → key (f a) ≡ key a)
        → (k : ℕ) (xs : List A)
        → find_key key k (update_where p f xs)
          ≡ map_option (λ a. if p a then f a else a) (find_key key k xs)
    find_key-update p f keeps k [] = refl
    find_key-update p f keeps k (x ∷ xs) = ground (arith, keeps x, find_key-update p f keeps k xs)

    pub find_key-append_new :
        (k : ℕ) (xs : List A) (y a : A)
        → find_key key k xs ≡ some a
        → find_key key k (xs ++ y ∷ []) ≡ some a
    find_key-append_new k [] y a h = ground arith
    find_key-append_new k (x ∷ xs) y a h = ground (arith, find_key-append_new k xs y a)

    pub find_key-append_none :
        (k : ℕ) (xs : List A) (y : A)
        → find_key key k xs ≡ none
        → find_key key k (xs ++ y ∷ []) ≡ (if key y == k then some y else none)
    find_key-append_none k [] y h = refl
    find_key-append_none k (x ∷ xs) y h = ground (arith, find_key-append_none k xs y)

-- No key twice: a primary key.
abbrev pub Unique : List ℕ → Type 0
Unique [] = Unit
Unique (k ∷ ks) = (contains k ks ≡ false) × Unique ks

module _ {A : Type 0} where
  -- The row stands in the table.
  abbrev pub IsIn : A → List A → Type 0
  IsIn a [] = ⊥
  IsIn a (x ∷ xs) = (a ≡ x) ⊎ IsIn a xs

  module _ (key : A → ℕ) where
    pub keys-update :
        (p : A → Bool) (f : A → A)
        → ((a : A) → key (f a) ≡ key a)
        → (xs : List A) → map key (update_where p f xs) ≡ map key xs
    keys-update p f keeps [] = refl
    keys-update p f keeps (x ∷ xs) = ground (arith, keeps x, keys-update p f keeps xs)

    pub IsIn-contains : (a : A) (xs : List A) → IsIn a xs → contains (key a) (map key xs) ≡ true
    IsIn-contains a [] m = absurd m
    IsIn-contains a (x ∷ xs) (inl e) = ground (arith, ap key e)
    IsIn-contains a (x ∷ xs) (inr m) = ground (arith, IsIn-contains a xs m)

    -- Where a key stands once, a row is what a search for its key finds.
    pub find_key-IsIn :
        (a : A) (xs : List A) → Unique (map key xs) → IsIn a xs → find_key key (key a) xs ≡ some a
    find_key-IsIn a [] u m = absurd m
    find_key-IsIn a (x ∷ xs) u (inl e) = ground (arith, ap key e)
    find_key-IsIn a (x ∷ xs) u (inr m) = elim (Bool-cases (key x == key a)) [
      | inl same ↦
          absurd (clash (subst (λ k. contains k (map key xs) ≡ false) ((==_iff _ _).0 same) u.0))
      | inr other ↦ rw other (find_key-IsIn a xs u.1 m)
    ]
      where
        clash : contains (key a) (map key xs) ≡ false → ⊥
        clash h = ground (arith, IsIn-contains a xs m)

    pub find_key-eq-some-IsIn :
        (k : ℕ) (xs : List A) (a : A) → find_key key k xs ≡ some a → IsIn a xs
    find_key-eq-some-IsIn k [] a h = cc
    find_key-eq-some-IsIn k (x ∷ xs) a h = elim (Bool-cases (key x == k)) [
      | inl hit ↦ inl (ground arith)
      | inr miss ↦ inr (find_key-eq-some-IsIn k xs a (ground arith))
    ]

  -- A test that no row passes fails at the row that a search finds.
  pub any-find_key :
      (key : A → ℕ) (q : A → Bool) (k : ℕ) (xs : List A) (a : A)
      → any q xs ≡ false
      → find_key key k xs ≡ some a
      → q a ≡ false
  any-find_key key q k [] a h e = ground arith
  any-find_key key q k (x ∷ xs) a h e = ground (arith, any-find_key key q k xs a)

module _ {A : Type 0} where
  pub IsIn-append : (a : A) (xs ys : List A) → IsIn a (xs ++ ys) ↔ (IsIn a xs ⊎ IsIn a ys)
  IsIn-append a xs ys = (split xs, join xs)
    where
      split : (zs : List A) → IsIn a (zs ++ ys) → IsIn a zs ⊎ IsIn a ys
      split [] h = inr h
      split (z ∷ zs) (inl e) = inl (inl e)
      split (z ∷ zs) (inr h) = elim (split zs h) [ inl m ↦ inl (inr m) | inr m ↦ inr m ]

      join : (zs : List A) → IsIn a zs ⊎ IsIn a ys → IsIn a (zs ++ ys)
      join [] (inl h) = absurd h
      join [] (inr h) = h
      join (z ∷ zs) (inl (inl e)) = inl e
      join (z ∷ zs) (inl (inr m)) = inr (join zs (inl m))
      join (z ∷ zs) (inr m) = inr (join zs (inr m))

module _ {A B : Type 0} (f : A → B) (j : B) where
  pub IsIn-map : (xs : List A) → IsIn j (map f xs) ↔ ((x : A) × IsIn x xs × (j ≡ f x))
  IsIn-map [] = (λ h. absurd h, λ (x, m, e). absurd m)
  IsIn-map (x ∷ xs) =
      let rest = IsIn-map xs in
      (
        λ h. elim h [
          | inl e ↦ (x, inl refl, e)
          | inr m ↦ let (y, n, e) = rest.0 m in (y, inr n, e)
        ],
        λ (y, m, e). elim m [ inl same ↦ inl (e ∙ ap f same) | inr n ↦ inr (rest.1 (y, n, e)) ],
      )
