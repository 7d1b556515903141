-- ===== src/Registry/Documents.antt =====
-- registry_watch.py: the snapshots of `FirestoreRegistryWatchStore`. A document is what
-- `asdict(snapshot)` wrote; the client's collection is a dictionary of documents.
pub mod Forgets
use vice_ceo_proof_carrying.Dict.{Dict, insert, lookup}
use vice_ceo_proof_carrying.Json.{
  Fields, Items, Json, array, cons, end, field, flag, member, nil, null, number, object, text,
}
use vice_ceo_proof_carrying.Outcome.{Error, Result, ok, or_raise, runtime_error, ◌>>=◌, ◌>>◌}
use vice_ceo_proof_carrying.Prelude.{
  List, Option, String, [], nat_eq, none, some, string_eq, ℕ, ◌∷◌,
}
use vice_ceo_proof_carrying.Registry.Segments.{content_segment_hashes}
use vice_ceo_proof_carrying.Registry.Types.{RegistrySnapshot}

abbrev pub legacy_normalization_version : String
legacy_normalization_version = "legacy_raw_whitespace_v1"

-- Python's `str(value)` and `int(value)`, of a value that is no text or no number: parameters. The
-- `none` of the second is its `TypeError` or `ValueError`.
pub record Conversions : Type 0 where
  pub str_value : Json → String
  pub int_value : Json → Option ℕ

abbrev invalid_record : Error
invalid_record = runtime_error "registry_watch_snapshot_record_invalid"

hash_items : List String → Items
hash_items [] = nil
hash_items (s ∷ ss) = cons (text s) (hash_items ss)

-- `asdict(snapshot)`
unfoldable pub snapshot_document : RegistrySnapshot → Fields
unfolding hash_items
snapshot_document p = field "source_id" (text p.source_id) (
    field "canonical_url" (text p.canonical_url) (
      field "source_version" (text p.source_version) (
        field "captured_at" (text p.captured_at) (
          field "evidence_sha256" (text p.evidence_sha256) (
            field "byte_count" (number p.byte_count) (
              field "normalization_version" (text p.normalization_version) (
                field "content_segment_hashes" (array (hash_items p.content_segment_hashes))
                  end)))))))

-- `str(value)`
str_of : Conversions → Json → String
str_of conv (text s) = s
str_of conv (number n) = conv.str_value (number n)
str_of conv (flag b) = conv.str_value (flag b)
str_of conv (array items) = conv.str_value (array items)
str_of conv (object fs) = conv.str_value (object fs)
str_of conv null = conv.str_value null

-- `int(value)`
int_of : Conversions → Json → Option ℕ
int_of conv (number n) = some n
int_of conv (text s) = conv.int_value (text s)
int_of conv (flag b) = conv.int_value (flag b)
int_of conv (array items) = conv.int_value (array items)
int_of conv (object fs) = conv.int_value (object fs)
int_of conv null = conv.int_value null

-- `str(stored[name])`; a missing key is a `KeyError`.
text_at : Conversions → Fields → String → Result String
unfolding str_of member
text_at conv stored name = do
  value ← or_raise (member name stored) invalid_record
  ok (str_of conv value)

-- `str(stored.get("normalization_version", LEGACY_NORMALIZATION_VERSION))`
version_at : Conversions → Fields → String
unfolding str_of member
version_at conv stored = elim (member "normalization_version" stored) [
  | none ↦ legacy_normalization_version
  | some value ↦ str_of conv value
]

-- The snapshot that `latest_snapshot` builds from a document.
unfoldable pub snapshot_of_document : Conversions → Fields → Result RegistrySnapshot
unfolding text_at int_of version_at
snapshot_of_document conv stored = do
  source_id ← text_at conv stored "source_id"
  canonical_url ← text_at conv stored "canonical_url"
  source_version ← text_at conv stored "source_version"
  captured_at ← text_at conv stored "captured_at"
  evidence_sha256 ← text_at conv stored "evidence_sha256"
  counted ← or_raise (member "byte_count" stored) invalid_record
  byte_count ← or_raise (int_of conv counted) invalid_record
  ok (record {
    source_id = source_id;
    canonical_url = canonical_url;
    source_version = source_version;
    captured_at = captured_at;
    evidence_sha256 = evidence_sha256;
    byte_count = byte_count;
    normalization_version = version_at conv stored;
    content_segment_hashes = [];
  })

abbrev read_document : Conversions → Option Fields → Result (Option RegistrySnapshot)
read_document conv none = ok none
read_document conv (some stored) = do p ← snapshot_of_document conv stored; ok (some p)

-- `latest_snapshot`, of the collection of sources.
unfoldable pub firestore_latest_snapshot :
    Conversions → Dict String Fields → String → Result (Option RegistrySnapshot)
unfolding snapshot_of_document lookup
firestore_latest_snapshot conv documents source_id = read_document conv (lookup documents source_id)

-- `save_snapshot`
unfoldable pub firestore_save_snapshot : RegistrySnapshot → Dict String Fields → Dict String Fields
unfolding snapshot_document insert
firestore_save_snapshot p documents = insert documents p.source_id (snapshot_document p)
