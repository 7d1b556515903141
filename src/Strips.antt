-- ===== src/Strips.antt =====
-- Laws of `strip`: nothing is left to strip afterwards, and only white space is lost.
use vice_ceo_proof_carrying.Prelude.{
  Bool-cases, Char, String, ap, arith, code, eq_of_beq, false, inl, inr, nat_eq, refl, string_eq,
  sym, true, ◌&&◌, ◌==◌, ◌∙◌, ◌≡◌,
}
use vice_ceo_proof_carrying.Text.{append, is_blank, is_space, lstrip, rstrip, strip}

lstrip_space :
    (c : Char) (s : String) → is_space (code c) ≡ true → lstrip (String.◌∷◌ c s) ≡ lstrip s
unfolding lstrip
lstrip_space c s e = rw (e, lstrip)

lstrip_shown :
    (c : Char) (s : String) → is_space (code c) ≡ false → lstrip (String.◌∷◌ c s) ≡ String.◌∷◌ c s
unfolding lstrip
lstrip_shown c s e = rw (e, lstrip)

lstrip-nil : lstrip "" ≡ ""
unfolding lstrip
lstrip-nil = refl

is_blank-lstrip : (s : String) → is_blank (lstrip s) ≡ is_blank s
unfolding is_blank
is_blank-lstrip String.[] = ap is_blank lstrip-nil
is_blank-lstrip (String.◌∷◌ c s) = elim (Bool-cases (is_space (code c))) [
  | inl space ↦ rw (lstrip_space c s space, space) (is_blank-lstrip s)
  | inr shown ↦ rw (lstrip_shown c s shown) refl
]

is_blank-rstrip : (s : String) → is_blank (rstrip s) ≡ is_blank s
unfolding is_blank rstrip
is_blank-rstrip String.[] = refl
is_blank-rstrip (String.◌∷◌ c s) = elim (Bool-cases (is_space (code c) && is_blank s)) [
  | inl blank ↦ rw blank refl
  | inr shown ↦ rw shown (ground (arith, is_blank-rstrip s))
]

-- A stripped text is empty exactly if the text was blank.
pub is_blank-strip : (s : String) → is_blank (strip s) ≡ is_blank s
unfolding strip
is_blank-strip s = is_blank-rstrip (lstrip s) ∙ is_blank-lstrip s

rstrip-rstrip : (s : String) → rstrip (rstrip s) ≡ rstrip s
unfolding is_blank rstrip
rstrip-rstrip String.[] = refl
rstrip-rstrip (String.◌∷◌ c s) = elim (Bool-cases (is_space (code c) && is_blank s)) [
  | inl blank ↦ rw blank refl
  | inr shown ↦ rw shown (rw (is_blank-rstrip s, shown, rstrip-rstrip s) refl)
]

rstrip_shown :
    (c : Char) (s : String)
    → is_space (code c) ≡ false
    → rstrip (String.◌∷◌ c s) ≡ String.◌∷◌ c (rstrip s)
unfolding rstrip is_blank
rstrip_shown c s e = rw e

rstrip-nil : rstrip "" ≡ ""
unfolding rstrip
rstrip-nil = refl

lstrip-rstrip-lstrip : (s : String) → lstrip (rstrip (lstrip s)) ≡ rstrip (lstrip s)
lstrip-rstrip-lstrip String.[] = simp (lstrip-nil, rstrip-nil)
lstrip-rstrip-lstrip (String.◌∷◌ c s) = elim (Bool-cases (is_space (code c))) [
  | inl space ↦ rw (lstrip_space c s space) (lstrip-rstrip-lstrip s)
  | inr shown ↦
      rw (lstrip_shown c s shown, rstrip_shown c s shown, lstrip_shown c (rstrip s) shown) refl
]

pub strip-strip : (s : String) → strip (strip s) ≡ strip s
unfolding strip
strip-strip s = rw (lstrip-rstrip-lstrip s) (rstrip-rstrip (lstrip s))

strip_empty : (s : String) → strip s ≡ "" → is_blank s ≡ true
unfolding is_blank
strip_empty s e = sym (is_blank-strip s) ∙ ap is_blank e

-- What is not blank does not strip to nothing.
pub strip_shown : (s : String) → is_blank s ≡ false → (strip s == "") ≡ false
strip_shown s h = elim (Bool-cases (strip s == "")) [
  | inr shown ↦ shown
  | inl empty ↦ absurd (cc (strip_empty s (eq_of_beq (strip s) "" empty), h))
]

-- A text with a visible first character is not blank.
pub append_shown :
    (c : Char) (s t : String)
    → is_space (code c) ≡ false
    → is_blank (append (String.◌∷◌ c s) t) ≡ false
unfolding is_blank append
append_shown c s t h = rw h
