-- ===== src/Joins.antt =====
-- When a joined text determines its parts: the separator stands in no part but the last.
use vice_ceo_proof_carrying.Prelude.{
  Bool-cases, String, [], ap, arith, code, false, inl, inr, refl, sym, ℕ, ◌&&◌, ◌∙◌, ◌∷◌, ◌≡◌,
}
use vice_ceo_proof_carrying.Text.{append, has_code, is_blank, is_space, join, lstrip, rstrip, strip}

pub append_cancel : (p : String) {x y : String} → append p x ≡ append p y → x ≡ y
unfolding append
append_cancel String.[] h = h
append_cancel (String.◌∷◌ c p) h = append_cancel p (cc h)

pub append_assoc : (a b c : String) → append (append a b) c ≡ append a (append b c)
unfolding append
append_assoc String.[] b c = refl
append_assoc (String.◌∷◌ ch a) b c = ap (String.◌∷◌ ch) (append_assoc a b c)

-- A bar in the first part is as good as the first separator.
pub regroup :
    (a b c d : String)
    → append (append a (append "|" b)) (append "|" (append c (append "|" d)))
      ≡ append a (append "|" (append (append b (append "|" c)) (append "|" d)))
regroup a b c d = simp append_assoc

-- The code of `|`.
abbrev pub bar : ℕ
bar = 124

bar-append : (y : String) → append "|" y ≡ String.◌∷◌ "|" y
unfolding append
bar-append y = refl

-- Two texts that agree, each cut at its first bar.
cut_at_bar :
    (a b : String) {x y : String}
    → has_code bar a ≡ false
    → has_code bar b ≡ false
    → append a (append "|" x) ≡ append b (append "|" y)
    → (a ≡ b) × (x ≡ y)
unfolding has_code append
cut_at_bar String.[] String.[] ha hb h = (refl, cc h)
cut_at_bar String.[] (String.◌∷◌ d b) ha hb h =
    let e : d ≡ "|" = cc h in absurd (ground (arith, ap code e))
cut_at_bar (String.◌∷◌ c a) String.[] ha hb h =
    let e : c ≡ "|" = cc h in absurd (ground (arith, ap code e))
cut_at_bar (String.◌∷◌ c a) (String.◌∷◌ d b) {x} {y} ha hb h =
    let tails : append a (append "|" x) ≡ append b (append "|" y) = cc h in
    let heads : c ≡ d = cc h in
    let (same, rest) = cut_at_bar a b (ground arith) (ground arith) tails in
    (cc (heads, same), rest)

pub join_three :
    (a b c : String) → join "|" (a ∷ b ∷ c ∷ []) ≡ append a (append "|" (append b (append "|" c)))
unfolding join
join_three a b c = refl

-- A text joined by bars determines its three parts, if only the last may hold a bar.
pub join-injective :
    (a b c a' b' c' : String)
    → has_code bar a ≡ false
    → has_code bar b ≡ false
    → has_code bar a' ≡ false
    → has_code bar b' ≡ false
    → join "|" (a ∷ b ∷ c ∷ []) ≡ join "|" (a' ∷ b' ∷ c' ∷ [])
    → (a ≡ a') × (b ≡ b') × (c ≡ c')
join-injective a b c a' b' c' ha hb ha' hb' h =
    let (p, rest) = cut_at_bar a a' ha ha' (sym (join_three a b c) ∙ h ∙ join_three a' b' c') in
    let (q, r) = cut_at_bar b b' hb hb' rest in (p, q, r)

-- `strip` takes characters away and adds none.
rstrip-has_code : (n : ℕ) (s : String) → has_code n s ≡ false → has_code n (rstrip s) ≡ false
unfolding rstrip has_code
rstrip-has_code n String.[] h = refl
rstrip-has_code n (String.◌∷◌ c s) h = elim (Bool-cases (is_space (code c) && is_blank s)) [
  | inl blank ↦ rw blank refl
  | inr shown ↦ rw shown (ground (arith, rstrip-has_code n s))
]

lstrip-has_code : (n : ℕ) (s : String) → has_code n s ≡ false → has_code n (lstrip s) ≡ false
unfolding lstrip has_code
lstrip-has_code n String.[] h = refl
lstrip-has_code n (String.◌∷◌ c s) h = ground (arith, lstrip-has_code n s)

pub strip-has_code : (n : ℕ) (s : String) → has_code n s ≡ false → has_code n (strip s) ≡ false
unfolding strip
strip-has_code n s h = rstrip-has_code n (lstrip s) (lstrip-has_code n s h)
