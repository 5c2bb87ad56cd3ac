-- ===== src/Prelude/Text.antt =====
-- Python text as the program uses it beyond equality: `"needle" in text.lower()` and truth of a
-- text. A character is its code point; `lower` is
-- written for the characters that become ASCII letters, the Kelvin sign (U+212A) among them.
use Prim.Native.Nat.{ℕ, ◌+◌}
use Prim.Native.Char.{code}
use Prim.Native.String.{String}
use mathlib.Core.Bool.{Bool, true, false, ◌&&◌, ◌||◌}
use mathlib.Core.List.{List, [], ◌∷◌, map}
use verifier_ci.Prelude.Tests.{if◌then◌else◌, ◌==◌, leb}

abbrev pub codes : String → List ℕ
codes String.[] = []
codes (String.◌∷◌ c s) = code c ∷ codes s

abbrev pub lower_code : ℕ → ℕ
lower_code c = if leb b'A' c && leb c b'Z' then c + 32 else if c == 0x212A then b'k' else c

abbrev pub is_prefix : List ℕ → List ℕ → Bool
is_prefix [] ys = true
is_prefix (x ∷ xs) [] = false
is_prefix (x ∷ xs) (y ∷ ys) = (x == y) && is_prefix xs ys

abbrev pub occurs : List ℕ → List ℕ → Bool
occurs needle [] = is_prefix needle []
occurs needle (y ∷ ys) = is_prefix needle (y ∷ ys) || occurs needle ys

-- `needle in text.lower()`
unfoldable pub in_lower : String → String → Bool
in_lower needle text = occurs (codes needle) (map lower_code (codes text))

-- A text is true when it has a character.
abbrev pub is_text : String → Bool
is_text String.[] = false
is_text (String.◌∷◌ _ _) = true

-- `a <= b` on texts, by their code points.
abbrev pub codes_le : List ℕ → List ℕ → Bool
codes_le [] ys = true
codes_le (x ∷ xs) [] = false
codes_le (x ∷ xs) (y ∷ ys) = if x == y then codes_le xs ys else leb x y

abbrev codes_eq : List ℕ → List ℕ → Bool
codes_eq [] [] = true
codes_eq [] (_ ∷ _) = false
codes_eq (_ ∷ _) [] = false
codes_eq (x ∷ xs) (y ∷ ys) = (x == y) && codes_eq xs ys

-- `text.lower() == word`
unfoldable pub lower_is : String → String → Bool
lower_is text word = codes_eq (map lower_code (codes text)) (codes word)

-- The characters that `strip` takes off.
abbrev pub is_space : ℕ → Bool
is_space c =
    (leb 9 c && leb c 13)
    || (leb 28 c && leb c 32)
    || (c == 0x85)
    || (c == 0xA0)
    || (c == 0x1680)
    || (leb 0x2000 c && leb c 0x200A)
    || (c == 0x2028)
    || (c == 0x2029)
    || (c == 0x202F)
    || (c == 0x205F)
    || (c == 0x3000)

abbrev all_space : List ℕ → Bool
all_space [] = true
all_space (c ∷ cs) = is_space c && all_space cs

-- `not text.strip()`
unfoldable pub is_blank : String → Bool
is_blank text = all_space (codes text)
