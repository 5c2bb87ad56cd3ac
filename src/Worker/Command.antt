-- ===== src/Worker/Command.antt =====
-- `CommandSpec` and `resolve_command` of src/verifierci/models/verifier.py.
use verifier_ci.Prelude.{ℕ, Bool, ◌||◌, Option, none, some, List, [], ◌∷◌, if◌then◌else◌, ◌==◌, any}
use verifier_ci.Prelude.Text.{codes}
use verifier_ci.Sandbox.Lines.{Text, text_eq, drop}

-- The environment is the list of its entries; the commands of this program have no input.
pub record CommandSpec : Type 0 where
  pub argv : List Text
  pub cwd : Text
  pub env : List (Text × Text)
  pub timeout_seconds : ℕ

abbrev pub has_brace : Text → Bool
has_brace token = any (λ c. (c == b'{') || (c == b'}')) token

-- `_ALLOWED_PLACEHOLDERS`
abbrev pub allowed_placeholders : List Text
allowed_placeholders =
    codes "{workspace}" ∷ codes "{verifier}" ∷ codes "{out}" ∷ codes "{seed}" ∷ []

abbrev pub is_placeholder : Text → Bool
is_placeholder token = any (text_eq token) allowed_placeholders

-- `xs[:-1]`
abbrev without_last : Text → Text
without_last [] = []
without_last (c ∷ []) = []
without_last (c ∷ d ∷ cs) = c ∷ without_last (d ∷ cs)

-- `token[1:-1]`
abbrev pub key_of_token : Text → Text
key_of_token token = without_last (drop 1 token)

abbrev pub value_of : Text → List (Text × Text) → Option Text
value_of key [] = none
value_of key ((k, v) ∷ entries) = if text_eq k key then some v else value_of key entries

-- The body of the loop; `none` where it raises ValidationError.
unfoldable pub resolve_token : List (Text × Text) → Text → Option Text
resolve_token paths token =
    if has_brace token
    then if is_placeholder token then value_of (key_of_token token) paths else none
    else some token

unfoldable pub resolve_tokens : List (Text × Text) → List Text → Option (List Text)
unfolding resolve_token
resolve_tokens paths [] = some []
resolve_tokens paths (token ∷ tokens) = elim (resolve_token paths token) [
  | none ↦ none
  | some arg ↦ elim (resolve_tokens paths tokens) [ none ↦ none | some args ↦ some (arg ∷ args) ]
]

-- The working directory is given, as it is in every call.
unfoldable pub resolve_command : List Text → List (Text × Text) → Text → ℕ → Option CommandSpec
unfolding resolve_tokens
resolve_command template paths cwd timeout_seconds = elim (resolve_tokens paths template) [
  | none ↦ none
  | some argv ↦
      some (record { argv = argv; cwd = cwd; env = []; timeout_seconds = timeout_seconds })
]
