-- ===== src/Sandbox/Confinement.antt =====
-- What a patch that passes may name.
use verifier_ci.Prelude.{◌≡◌, ◌≢◌, ◌⊎◌, refl, Bool, true, false, List, [], ◌∷◌, ◌++◌, arith}
use verifier_ci.Prelude.Tables.{IsIn}
use verifier_ci.Prelude.Text.{codes}
use verifier_ci.Sandbox.Lines.{Text, strip_slashes, text_eq}
use verifier_ci.Sandbox.Patch.{is_absolute, path_parts}
use verifier_ci.Sandbox.Names.{Names}

text_eq_refl : (a : Text) → text_eq a a ≡ true
text_eq_refl [] = refl
text_eq_refl (x ∷ a) = ground (arith, text_eq_refl a)

-- The path starts with no slash and no backslash.
abbrev pub IsRelative : Text → Type 0
IsRelative [] = Unit
IsRelative (c ∷ cs) = (c ≢ b'/') × (c ≢ b'\\')

relative : (p : Text) → is_absolute p ≡ false → IsRelative p
relative [] h = tt
relative (c ∷ cs) h = (ground arith, ground arith)

module _ (fnmatch : Text → Text → Bool) where
  -- The path is a match of the pattern, is the pattern without its slashes at the end, or lies below.
  abbrev pub Matches : Text → Text → Type 0
  Matches path pattern =
      (fnmatch path pattern ≡ true)
      ⊎ (fnmatch path (strip_slashes pattern) ≡ true)
      ⊎ (path ≡ strip_slashes pattern)
      ⊎ ((rest : Text) × (path ≡ (strip_slashes pattern ++ b'/' ∷ []) ++ rest))

  abbrev pub IsAllowed : List Text → Text → Type 0
  IsAllowed allowed path =
      IsIn (codes "*") allowed ⊎ ((pattern : Text) × IsIn pattern allowed × Matches path pattern)

  pub record IsConfined (allowed : List Text) (path : Text) : Type 0 where
    pub relative : IsRelative path
    pub no_parent : ¬ IsIn (codes "..") (path_parts path)
    pub no_self : ¬ IsIn (codes ".") (path_parts path)
    pub in_allowed : IsAllowed allowed path
