-- ===== src/Registry/Segments.antt =====
-- registry_watch.py: the comparison of captured content by the hashes of its segments. How the
-- regular expression splits a text is a parameter, as is the length of a text in bytes.
use vice_ceo_proof_carrying.Json.{is_listed}
use vice_ceo_proof_carrying.Prelude.{
  List, String, [], if◌then◌else◌, leb, length, nat_eq, string_eq, suc, zero, ℕ, ◌∷◌,
}
use vice_ceo_proof_carrying.Registry.Types.{RegistrySnapshot, RegistrySourceCapture}
use vice_ceo_proof_carrying.Runtime.{Runtime}
use vice_ceo_proof_carrying.Text.{first, join, strip}

pub record TextTools : Type 0 where
  -- `re.split(r"(?<=[.!?])\s+|\s+[•▪]\s+", content)`
  pub split_sentences : String → List String
  -- `" ".join(text.split())`
  pub collapse : String → String
  -- `len(text)`
  pub text_length : String → ℕ
  -- `len(text.encode("utf-8"))`
  pub byte_length : String → ℕ

unfoldable pub take_first {ℓ} : {A : Type ℓ} → ℕ → List A → List A
take_first zero xs = []
take_first (suc n) [] = []
take_first (suc n) (x ∷ xs) = x ∷ take_first n xs

module _ (rt : Runtime) (tools : TextTools) where
  long_segments : List String → List String
  unfolding strip
  long_segments [] = []
  long_segments (s ∷ ss) =
      let rest = long_segments ss in
      if leb 24 (tools.text_length (strip s))
      then first 800 (strip (tools.collapse s)) ∷ rest
      else rest

  -- `_content_segments`
  unfoldable pub content_segments : String → List String
  unfolding long_segments take_first
  content_segments content = take_first 120 (long_segments (tools.split_sentences content))

  hashes : List String → List String
  hashes [] = []
  hashes (s ∷ ss) = rt.sha256 s ∷ hashes ss

  -- `_content_segment_hashes`
  unfoldable pub content_segment_hashes : String → List String
  unfolding hashes content_segments
  content_segment_hashes content = hashes (content_segments content)

  unfoldable pub unseen : List String → List String → List String
  unfolding is_listed
  unseen prior [] = []
  unseen prior (s ∷ ss) =
      let rest = unseen prior ss in if is_listed (rt.sha256 s) prior then rest else s ∷ rest

  -- `_changed_content_segments`
  unfoldable pub changed_content_segments : RegistrySnapshot → RegistrySourceCapture → List String
  unfolding unseen content_segments take_first
  changed_content_segments prior capture =
      take_first 12
        (unseen prior.content_segment_hashes (content_segments capture.normalized_content))

  excerpt_of : List String → String
  excerpt_of [] =
      "No newly separable public-text segment was available; review the cited source revision."
  excerpt_of (s ∷ ss) = first 6000 (join "\n" (s ∷ ss))

  -- `_changed_content_excerpt`
  unfoldable pub changed_content_excerpt : RegistrySnapshot → RegistrySourceCapture → String
  unfolding excerpt_of changed_content_segments
  changed_content_excerpt prior capture = excerpt_of (changed_content_segments prior capture)

  -- `_changed_segment_count`
  unfoldable pub changed_segment_count : RegistrySnapshot → RegistrySourceCapture → ℕ
  unfolding changed_content_segments
  changed_segment_count prior capture = length (changed_content_segments prior capture)
