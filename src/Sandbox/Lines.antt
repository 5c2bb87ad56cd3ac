-- ===== src/Sandbox/Lines.antt =====
-- The methods of Python's str that the check of patches uses, on texts as lists of code points.
use verifier_ci.Prelude.{
  ℕ, zero, suc, Bool, true, false, ◌&&◌, ◌||◌, List, [], ◌∷◌, ◌++◌, if◌then◌else◌, ◌==◌, leb,
  is_empty, list_eq,
}
use verifier_ci.Prelude.Text.{is_space}

abbrev pub Text : Type 0
Text = List ℕ

-- The characters that end a line for `splitlines`.
abbrev is_break : ℕ → Bool
is_break c =
    (leb 10 c && leb c 13)
    || (leb 28 c && leb c 30)
    || (c == 0x85)
    || (c == 0x2028)
    || (c == 0x2029)

-- `splitlines` from within a line; a line feed behind a carriage return belongs to it.
abbrev lines_from : Bool → Text → Text → List Text
lines_from after_cr line [] = if is_empty line then [] else line ∷ []
lines_from after_cr line (c ∷ cs) = elim (after_cr && (c == 10)) [
  | true ↦ lines_from false [] cs
  | false ↦ elim (is_break c) [
    | true ↦ line ∷ lines_from (c == 13) [] cs
    | false ↦ lines_from false (line ++ c ∷ []) cs
  ]
]

unfoldable pub split_lines : Text → List Text
split_lines = lines_from false []

abbrev strip_left : Text → Text
strip_left [] = []
strip_left (c ∷ cs) = if is_space c then strip_left cs else c ∷ cs

abbrev strip_right : Text → Text
strip_right [] = []
strip_right (c ∷ cs) =
    let rest = strip_right cs in if is_space c && is_empty rest then [] else c ∷ rest

unfoldable pub strip : Text → Text
strip text = strip_right (strip_left text)

-- `rstrip("/")`
unfoldable pub strip_slashes : Text → Text
strip_slashes [] = []
strip_slashes (c ∷ cs) =
    let rest = strip_slashes cs in if (c == b'/') && is_empty rest then [] else c ∷ rest

abbrev with_head : ℕ → List Text → List Text
with_head c [] = (c ∷ []) ∷ []
with_head c (w ∷ ws) = (c ∷ w) ∷ ws

-- `split` at one character.
unfoldable pub split_on : ℕ → Text → List Text
split_on s [] = [] ∷ []
split_on s (c ∷ cs) = let rest = split_on s cs in if c == s then [] ∷ rest else with_head c rest

abbrev pub text_eq : Text → Text → Bool
text_eq = list_eq ◌==◌

unfoldable pub ends_with : Text → Text → Bool
ends_with suffix [] = is_empty suffix
ends_with suffix (c ∷ cs) = let rest = ends_with suffix cs in text_eq suffix (c ∷ cs) || rest

-- `text[n:]`
abbrev pub drop : ℕ → Text → Text
drop zero text = text
drop (suc n) [] = []
drop (suc n) (c ∷ cs) = drop n cs

-- `replace("\\", "/")`
abbrev pub with_slashes : Text → Text
with_slashes [] = []
with_slashes (c ∷ cs) = (if c == b'\\' then b'/' else c) ∷ with_slashes cs
