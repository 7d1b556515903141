-- ===== src/Dict.antt =====
-- Python's `dict`: a list of entries in insertion order; a write to a key that is there keeps its
-- place.
use vice_ceo_proof_carrying.Prelude.{
  Bool-cases, Eq, List, Option, [], arith, beq_refl, eq_of_beq, if◌then◌else◌, inl, inr, map,
  nat_eq, none, refl, some, string_eq, sym, ◌==◌, ◌∷◌, ◌≡◌, ◌≢◌,
}

pub record Dict {ℓ} (K V : Type ℓ) : Type ℓ where
  pub entries : List (K × V)

abbrev pub no_entries {ℓ} : {K V : Type ℓ} → Dict K V
no_entries = record { entries = [] }

module _ {ℓ} {K V : Type ℓ} ⦃e : Eq K⦄ where
  find_entry : K → List (K × V) → Option V
  find_entry k [] = none
  find_entry k ((j, v) ∷ m) = if j == k then some v else find_entry k m

  write_entry : K → V → List (K × V) → List (K × V)
  write_entry k v [] = (k, v) ∷ []
  write_entry k v ((j, w) ∷ m) = if j == k then (j, v) ∷ m else (j, w) ∷ write_entry k v m

  -- `d.get(k)`
  unfoldable pub lookup : Dict K V → K → Option V
  unfolding find_entry
  lookup d k = find_entry k d.entries

  -- `d[k] = v`
  unfoldable pub insert : Dict K V → K → V → Dict K V
  unfolding write_entry
  insert d k v = record { entries = write_entry k v d.entries }

  find_entry-write_entry :
      (k j : K) (v : V) (m : List (K × V))
      → find_entry j (write_entry k v m) ≡ (if k == j then some v else find_entry j m)
  unfolding find_entry write_entry
  find_entry-write_entry k j v [] = refl
  find_entry-write_entry k j v ((i, w) ∷ m) =
      ground (arith, find_entry-write_entry k j v m, e.beq_iff k j, e.beq_iff i k, e.beq_iff i j)

  pub lookup-insert :
      (d : Dict K V) (k j : K) (v : V)
      → lookup (insert d k v) j ≡ (if k == j then some v else lookup d j)
  unfolding lookup insert
  lookup-insert d k j v = find_entry-write_entry k j v d.entries

  pub lookup-insert_self : (d : Dict K V) (k : K) (v : V) → lookup (insert d k v) k ≡ some v
  lookup-insert_self d k v = simp (lookup-insert, beq_refl)

  pub lookup-insert_ne :
      (d : Dict K V) (k j : K) (v : V) → j ≢ k → lookup (insert d k v) j ≡ lookup d j
  lookup-insert_ne d k j v other = elim (Bool-cases (k == j)) [
    | inl same ↦ absurd (other (sym (eq_of_beq k j same)))
    | inr differ ↦ rw (lookup-insert, differ)
  ]

  pub lookup-no_entries : (k : K) → lookup no_entries k ≡ none
  unfolding lookup
  lookup-no_entries k = refl

-- `d.values()`
unfoldable pub values {ℓ} : {K V : Type ℓ} → Dict K V → List V
values d = map (λ e. e.1) d.entries

pub ruleset dict_laws = (lookup-insert, lookup-insert_self, lookup-no_entries)
