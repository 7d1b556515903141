-- ===== src/Registry/Documents/Forgets.antt =====
-- registry_watch.py: what a Firestore store gives back of a snapshot.
use vice_ceo_proof_carrying.Dict.{Dict, lookup-insert_self}
use vice_ceo_proof_carrying.Json.{Fields}
use vice_ceo_proof_carrying.Outcome.{ok}
use vice_ceo_proof_carrying.Prelude.{List, String, [], ap, refl, some, ◌∷◌, ◌≡◌}
use vice_ceo_proof_carrying.Registry.Documents.{
  Conversions, firestore_latest_snapshot, firestore_save_snapshot, snapshot_document,
  snapshot_of_document,
}
use vice_ceo_proof_carrying.Registry.Segments.{
  TextTools, changed_content_segments, content_segments, take_first, unseen,
}
use vice_ceo_proof_carrying.Registry.Types.{RegistrySnapshot, RegistrySourceCapture}
use vice_ceo_proof_carrying.Runtime.{Runtime}

-- What comes back of a snapshot.
abbrev pub without_hashes : RegistrySnapshot → RegistrySnapshot
without_hashes p = record p { content_segment_hashes = [] }

firestore_latest-save :
    (conv : Conversions) (p : RegistrySnapshot) (documents : Dict String Fields)
    → firestore_latest_snapshot conv (firestore_save_snapshot p documents) p.source_id
      ≡ ok (some (without_hashes p))
unfolding firestore_latest_snapshot firestore_save_snapshot snapshot_document snapshot_of_document
firestore_latest-save conv p documents =
    rw (lookup-insert_self documents p.source_id (snapshot_document p)) refl

unseen-none : (rt : Runtime) (tools : TextTools) (ss : List String) → unseen rt tools [] ss ≡ ss
unfolding unseen
unseen-none rt tools [] = refl
unseen-none rt tools (s ∷ ss) = ap (λ xs. s ∷ xs) (unseen-none rt tools ss)

-- With Firestore, the segment hashes of a snapshot are forgotten: a snapshot that was saved and is
-- read again is the same but for them, so that of the next capture the first twelve segments count
-- as newly observed, also those that have not changed.
pub firestore-forgets :
    (rt : Runtime) (tools : TextTools) (conv : Conversions) (p : RegistrySnapshot)
    (documents : Dict String Fields) (capture : RegistrySourceCapture)
    → (firestore_latest_snapshot conv (firestore_save_snapshot p documents) p.source_id
        ≡ ok (some (without_hashes p)))
      × (changed_content_segments rt tools (without_hashes p) capture
          ≡ take_first 12 (content_segments rt tools capture.normalized_content))
unfolding changed_content_segments
firestore-forgets rt tools conv p documents capture = (
  firestore_latest-save conv p documents,
  ap (take_first 12) (unseen-none rt tools (content_segments rt tools capture.normalized_content)),
)
