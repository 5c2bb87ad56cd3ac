-- ===== src/Sandbox/Names.antt =====
-- The paths that a line of a patch names, and that the check looks at each of them.
use verifier_ci.Prelude.{◌≡◌, inl, inr, refl, ap, sym, ◌∙◌, subst, List, [], ◌∷◌, ◌++◌}
use verifier_ci.Prelude.Tables.{IsIn}
use verifier_ci.Prelude.Text.{codes}
use verifier_ci.Sandbox.Lines.{Text, strip, split_on}
use verifier_ci.Sandbox.Patch.{target_files, header_names, after_command, part_after}

-- The line of a patch names the path: as a side of a file's changes, as the source of a rename, or
-- as the third or fourth word of the header of a file. The target of a rename is left out, since the
-- check reads it without its first two characters.
pub data Names (line path : Text) : Type 0 where
  old_a : (rest : Text) → line ≡ codes "--- a/" ++ rest → path ≡ strip rest → Names line path
  old_b : (rest : Text) → line ≡ codes "--- b/" ++ rest → path ≡ strip rest → Names line path
  new_a : (rest : Text) → line ≡ codes "+++ a/" ++ rest → path ≡ strip rest → Names line path
  new_b : (rest : Text) → line ≡ codes "+++ b/" ++ rest → path ≡ strip rest → Names line path
  rename_from :
      (rest : Text) → line ≡ codes "rename from " ++ rest → path ≡ strip rest → Names line path
  header_old :
      (rest diff git word : Text) (words : List Text)
      → line ≡ codes "diff --git a/" ++ rest
      → split_on b' ' line ≡ diff ∷ git ∷ (codes "a/" ++ word) ∷ words
      → path ≡ strip word
      → Names line path
  header_new :
      (rest diff git old word : Text) (words : List Text)
      → line ≡ codes "diff --git a/" ++ rest
      → split_on b' ' line ≡ diff ∷ git ∷ old ∷ (codes "b/" ++ word) ∷ words
      → path ≡ strip word
      → Names line path

target_files-header :
    (line rest : Text)
    → line ≡ codes "diff --git a/" ++ rest
    → target_files line ≡ header_names (after_command (split_on b' ' line))
unfolding target_files
target_files-header line rest e =
    subst (λ (l : Text). target_files l ≡ header_names (after_command (split_on b' ' l))) (sym e)
      refl

header_names-old :
    (word : Text) (words : List Text)
    → IsIn (strip word) (header_names ((codes "a/" ++ word) ∷ words))
header_names-old word [] = inl refl
header_names-old word (w ∷ words) = inl refl

IsIn-append_right : {A : Type 0} (a : A) (xs : List A) (ys : List A) → IsIn a ys → IsIn a (xs ++ ys)
IsIn-append_right a [] ys m = m
IsIn-append_right a (x ∷ xs) ys m = inr (IsIn-append_right a xs ys m)

named :
    (path line text : Text)
    → line ≡ text
    → IsIn path (target_files text)
    → IsIn path (target_files line)
named path line text e m = subst (λ (l : Text). IsIn path (target_files l)) (sym e) m

header-IsIn :
    (path line rest : Text) (words : List Text)
    → line ≡ codes "diff --git a/" ++ rest
    → split_on b' ' line ≡ words
    → IsIn path (header_names (after_command words))
    → IsIn path (target_files line)
header-IsIn path line rest words e s m =
    subst (IsIn path)
      (sym (
        target_files-header line rest e
        ∙ ap (λ (ws : List Text). header_names (after_command ws)) s))
      m

pub Names-target_files : (line path : Text) → Names line path → IsIn path (target_files line)
unfolding target_files
Names-target_files line path (old_a rest e p) = named path line (codes "--- a/" ++ rest) e (inl p)
Names-target_files line path (old_b rest e p) = named path line (codes "--- b/" ++ rest) e (inl p)
Names-target_files line path (new_a rest e p) = named path line (codes "+++ a/" ++ rest) e (inl p)
Names-target_files line path (new_b rest e p) = named path line (codes "+++ b/" ++ rest) e (inl p)
Names-target_files line path (rename_from rest e p) =
    named path line (codes "rename from " ++ rest) e (inl p)
Names-target_files line path (header_old rest diff git word words e s p) =
    header-IsIn path line rest (diff ∷ git ∷ (codes "a/" ++ word) ∷ words) e s (
      subst (λ (t : Text). IsIn t (header_names ((codes "a/" ++ word) ∷ words))) (sym p)
        (header_names-old word words))
Names-target_files line path (header_new rest diff git old word words e s p) =
    header-IsIn path line rest (diff ∷ git ∷ old ∷ (codes "b/" ++ word) ∷ words) e s
      (IsIn-append_right path (part_after (codes "a/") old) (strip word ∷ []) (inl p))
