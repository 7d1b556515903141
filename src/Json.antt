-- ===== src/Json.antt =====
-- JSON values and `json.dumps(value, sort_keys=True, separators=(",", ":"))`. The fields of an
-- object stand in the order in which `sort_keys` prints them.
use vice_ceo_proof_carrying.Prelude.{
  Bool, Char, List, Option, String, [], code, false, if◌then◌else◌, leb, ltb, nat_eq, none, some,
  string_eq, suc, true, zero, ℕ, ◌%◌, ◌&&◌, ◌+◌, ◌-◌, ◌/◌, ◌==◌, ◌||◌, ◌∷◌,
}
use vice_ceo_proof_carrying.Text.{append, concat}

mutual
  pub data Json : Type 0 where
    null : Json
    flag : Bool → Json
    number : ℕ → Json
    text : String → Json
    array : Items → Json
    object : Fields → Json

  pub data Items : Type 0 where
    nil : Items
    cons : Json → Items → Items

  pub data Fields : Type 0 where
    end : Fields
    field : String → Json → Fields → Fields

hex_digit : ℕ → String
hex_digit n =
    if n == 0
    then "0"
    else if n == 1
    then "1"
    else if n == 2
    then "2"
    else if n == 3
    then "3"
    else if n == 4
    then "4"
    else if n == 5
    then "5"
    else if n == 6
    then "6"
    else if n == 7
    then "7"
    else if n == 8
    then "8"
    else if n == 9
    then "9"
    else if n == 10
    then "a"
    else if n == 11
    then "b"
    else if n == 12
    then "c"
    else if n == 13
    then "d"
    else if n == 14
    then "e"
    else "f"

-- A 16-bit unit as `\uXXXX`.
unit_escape : ℕ → String
unfolding hex_digit concat
unit_escape n = concat (
    "\\u"
    ∷ hex_digit (n / 4096 % 16)
    ∷ hex_digit (n / 256 % 16)
    ∷ hex_digit (n / 16 % 16)
    ∷ hex_digit (n % 16)
    ∷ [])

-- One character inside a JSON text, with everything beyond ASCII escaped.
escape : Char → String
unfolding unit_escape append
escape ch =
    let c = code ch in
    if c == 34
    then "\\\""
    else if c == 92
    then "\\\\"
    else if c == 10
    then "\\n"
    else if c == 13
    then "\\r"
    else if c == 9
    then "\\t"
    else if c == 12
    then "\\f"
    else if c == 8
    then "\\b"
    else if leb 32 c && leb c 126
    then String.◌∷◌ ch ""
    else if leb c 0xffff
    then unit_escape c
    else append (unit_escape (0xd800 + (c - 0x10000) / 1024))
        (unit_escape (0xdc00 + (c - 0x10000) % 1024))

escape_all : String → String
unfolding escape append
escape_all String.[] = ""
escape_all (String.◌∷◌ c s) = append (escape c) (escape_all s)

quote : String → String
unfolding escape_all concat
quote s = concat ("\"" ∷ escape_all s ∷ "\"" ∷ [])

-- Decimal digits; a number has fewer digits than it counts, so `n + 1` rounds are enough.
decimal_digits : ℕ → ℕ → String
unfolding hex_digit append
decimal_digits zero n = ""
decimal_digits (suc fuel) n =
    let more = append (decimal_digits fuel (n / 10)) (hex_digit (n % 10)) in
    if ltb n 10 then hex_digit n else more

-- `str(n)`
unfoldable pub decimal : ℕ → String
unfolding decimal_digits
decimal n = decimal_digits (suc n) n

unfoldable mutual
  unfolding quote decimal append concat

  pub dumps : Json → String
  dumps null = "null"
  dumps (flag true) = "true"
  dumps (flag false) = "false"
  dumps (number n) = decimal n
  dumps (text s) = quote s
  dumps (array xs) = concat ("[" ∷ dumps_items xs ∷ "]" ∷ [])
  dumps (object fs) = concat ("{" ∷ dumps_fields fs ∷ "}" ∷ [])

  pub dumps_items : Items → String
  dumps_items nil = ""
  dumps_items (cons x nil) = dumps x
  dumps_items (cons x (cons y xs)) = append (dumps x) (append "," (dumps_items (cons y xs)))

  pub dumps_fields : Fields → String
  dumps_fields end = ""
  dumps_fields (field k v end) = append (quote k) (append ":" (dumps v))
  dumps_fields (field k v (field k' v' fs)) =
      append (quote k) (append ":" (append (dumps v) (append "," (dumps_fields (field k' v' fs)))))

-- An object whose values are texts, from its fields in printing order.
abbrev pub texts : List (String × String) → Fields
texts [] = end
texts ((k, v) ∷ rest) = field k (text v) (texts rest)

-- `None` is printed as `null`.
abbrev pub optional_text : Option String → Json
optional_text none = null
optional_text (some s) = text s

-- `payload.get(name)`
unfoldable pub member : String → Fields → Option Json
member name end = none
member name (field k v fs) = if k == name then some v else member name fs

-- `value in values`
unfoldable pub is_listed : String → List String → Bool
is_listed k [] = false
is_listed k (n ∷ ns) = k == n || is_listed k ns

unfoldable pub names_within : Fields → List String → Bool
unfolding is_listed
names_within end names = true
names_within (field k v fs) names = is_listed k names && names_within fs names

unfoldable pub all_present : List String → Fields → Bool
unfolding member
all_present [] fs = true
all_present (n ∷ ns) fs = elim (member n fs) [ none ↦ false | some _ ↦ all_present ns fs ]

-- `set(payload) == names`
unfoldable pub has_exactly : Fields → List String → Bool
unfolding names_within all_present
has_exactly fs names = names_within fs names && all_present names fs
