-- ===== src/Text.antt =====
-- What the program uses of Python's `str`: concatenation, `strip`, slices, `join`.
mod Strip
unfoldable pub use Strip.*
use vice_ceo_proof_carrying.Prelude.{
  Bool, List, Option, String, [], code, false, leb, nat_eq, none, some, string_eq, suc, true, zero,
  ℕ, ◌&&◌, ◌==◌, ◌||◌, ◌∷◌,
}

-- `s + t`, and two pieces of an f-string that stand side by side.
unfoldable pub append : String → String → String
append String.[] t = t
append (String.◌∷◌ c s) t = String.◌∷◌ c (append s t)

-- `"".join(parts)`: an f-string.
unfoldable pub concat : List String → String
unfolding append
concat [] = ""
concat (p ∷ ps) = append p (concat ps)

-- `sep.join(parts)`.
unfoldable pub join : String → List String → String
unfolding append
join sep [] = ""
join sep (p ∷ []) = p
join sep (p ∷ q ∷ ps) = append p (append sep (join sep (q ∷ ps)))

-- `s[:n]`.
unfoldable pub first : ℕ → String → String
first zero s = ""
first (suc n) String.[] = ""
first (suc n) (String.◌∷◌ c s) = String.◌∷◌ c (first n s)

-- `mark in s`, for a mark of one character with the given code.
unfoldable pub has_code : ℕ → String → Bool
has_code n String.[] = false
has_code n (String.◌∷◌ c s) = code c == n || has_code n s

-- `s.isascii()`.
unfoldable pub is_ascii : String → Bool
is_ascii String.[] = true
is_ascii (String.◌∷◌ c s) = elim (leb (code c) 127) [ true ↦ is_ascii s | false ↦ false ]

-- `str(value)` of an optional text.
unfoldable pub str_option : Option String → String
str_option none = "None"
str_option (some s) = s

-- `len(s)`; for the `len` of encoded bytes the text is ASCII.
unfoldable pub char_count : String → ℕ
char_count String.[] = 0
char_count (String.◌∷◌ c s) = suc (char_count s)

-- `s.startswith(prefix)`, with the prefix first.
unfoldable pub starts_with : String → String → Bool
starts_with String.[] s = true
starts_with (String.◌∷◌ c p) String.[] = false
starts_with (String.◌∷◌ c p) (String.◌∷◌ d s) = code c == code d && starts_with p s
