-- ===== src/Text/Strip.antt =====
-- `str.strip()` and the test `not s.strip()`.
use vice_ceo_proof_carrying.Prelude.{
  Bool, String, code, false, if◌then◌else◌, leb, nat_eq, string_eq, true, ℕ, ◌&&◌, ◌==◌, ◌||◌,
}

-- Python's white space: `str.isspace` of one character.
unfoldable pub is_space : ℕ → Bool
is_space c =
    (leb 9 c && leb c 13)
    || (leb 28 c && leb c 32)
    || c == 0x85
    || c == 0xa0
    || c == 0x1680
    || (leb 0x2000 c && leb c 0x200a)
    || c == 0x2028
    || c == 0x2029
    || c == 0x202f
    || c == 0x205f
    || c == 0x3000

-- `not s.strip()`.
unfoldable pub is_blank : String → Bool
is_blank String.[] = true
is_blank (String.◌∷◌ c s) = is_space (code c) && is_blank s

unfoldable pub lstrip : String → String
lstrip String.[] = ""
lstrip (String.◌∷◌ c s) = elim (is_space (code c)) [ true ↦ lstrip s | false ↦ String.◌∷◌ c s ]

unfoldable pub rstrip : String → String
unfolding is_blank
rstrip String.[] = ""
rstrip (String.◌∷◌ c s) = if is_blank (String.◌∷◌ c s) then "" else String.◌∷◌ c (rstrip s)

unfoldable pub strip : String → String
unfolding lstrip rstrip
strip s = rstrip (lstrip s)
