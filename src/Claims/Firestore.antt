-- ===== src/Claims/Firestore.antt =====
-- claim_store.py: `FirestoreClaimStore`. The Firestore client is a parameter: documents that are
-- read and created by id, inside one transaction.
use vice_ceo_proof_carrying.Claims.Scope.{
  ClaimResult, ClaimStore, Request, Scope, already, claim_key, document_id, scope_eq, won,
}
use vice_ceo_proof_carrying.Dict.{
  Dict, insert, lookup, lookup-insert_ne, lookup-insert_self, lookup-no_entries, no_entries,
}
use vice_ceo_proof_carrying.Outcome.{Action, Error, Result, ok, proceed, raise}
use vice_ceo_proof_carrying.Prelude.{Option, String, arith, nat_eq, none, some, string_eq, ◌≡◌, ◌≢◌}
use vice_ceo_proof_carrying.Runtime.{Runtime}

pub record ClaimDocument : Type 0 where
  pub schema_version : String
  pub tenant_sha256 : String
  pub claim_kind : String
  pub record_id : String
  pub created_at : String

abbrev pub claim_store_schema_version : String
claim_store_schema_version = "vice-ceo-demo-claim-v1"

-- A collection of Firestore, with what its documentation says of `get`, `create` and `set`.
pub record Documents (D : Type 0) : Type 1 where
  pub Collection : Type 0
  pub empty : Collection
  pub get : Collection → String → Option D
  pub put : Collection → String → D → Collection
  pub get-empty : (i : String) → get empty i ≡ none
  pub get-put_self : (c : Collection) (i : String) (d : D) → get (put c i d) i ≡ some d
  pub get-put_ne : (c : Collection) (i j : String) (d : D) → j ≢ i → get (put c i d) j ≡ get c j

-- A collection in memory follows the documentation.
abbrev pub local_documents : (D : Type 0) → Documents D
local_documents D = record {
  Collection = Dict String D;
  empty = no_entries;
  get = lookup;
  get-empty = lookup-no_entries;
  put = insert;
  get-put_self = lookup-insert_self;
  get-put_ne = lookup-insert_ne;
}

-- `claim_once` is called with the time that `_now_timestamp` gives.
module _ (rt : Runtime) (docs : Documents ClaimDocument) (created_at : String) where
  open docs use {Collection, get, put, get-put_self, get-put_ne}

  -- `existing.to_dict().get("record_id")`
  unfoldable pub stored_record : Collection → String → Option String
  stored_record s i = elim (get s i) [ none ↦ none | some d ↦ some d.record_id ]

  unfoldable pub claim_document : Request → ClaimDocument
  claim_document r = record {
    schema_version = claim_store_schema_version;
    tenant_sha256 = rt.sha256 r.tenant;
    claim_kind = r.claim_kind;
    record_id = r.record_id;
    created_at = created_at;
  }

  -- The transaction `create_once`.
  create_once : Collection → String → Request → Result ClaimResult × Collection
  unfolding stored_record claim_document
  create_once s i r = elim (stored_record s i) [
    | none ↦ (ok (won r.record_id), put s i (claim_document r))
    | some old ↦ (ok (already old), s)
  ]

  unfoldable pub claim_document_once : Request → Action Collection ClaimResult
  unfolding create_once
  claim_document_once r s =
      proceed (claim_key r.tenant r.claim_kind r.idempotency_key)
        (λ k s'. create_once s' (document_id rt k) r) s

  module _ (r : Request) (s : Collection) where
    pub firestore_invalid :
        (e : Error)
        → claim_key r.tenant r.claim_kind r.idempotency_key ≡ raise e
        → claim_document_once r s ≡ (raise e, s)
    unfolding claim_document_once
    firestore_invalid e h = rw h

    module _ (k : Scope) (valid : claim_key r.tenant r.claim_kind r.idempotency_key ≡ ok k) where
      pub firestore_taken :
          (old : String)
          → stored_record s (document_id rt k) ≡ some old
          → claim_document_once r s ≡ (ok (already old), s)
      unfolding claim_document_once
      firestore_taken old h = rw valid (ground arith)

      pub firestore_fresh :
          stored_record s (document_id rt k) ≡ none
          → (claim_document_once r s).0 ≡ ok (won r.record_id)
      unfolding claim_document_once
      firestore_fresh h = rw valid (ground arith)

      firestore_state :
          stored_record s (document_id rt k) ≡ none
          → (claim_document_once r s).1 ≡ put s (document_id rt k) (claim_document r)
      unfolding claim_document_once
      firestore_state h = rw valid (ground arith)

      pub firestore_records :
          stored_record s (document_id rt k) ≡ none
          → stored_record (claim_document_once r s).1 (document_id rt k) ≡ some r.record_id
      firestore_records h = rw (firestore_state h) (
          unfold stored_record claim_document in
          ground (arith, get-put_self s (document_id rt k) (claim_document r)))

      pub firestore_keeps :
          (j : String)
          → stored_record s (document_id rt k) ≡ none
          → j ≢ document_id rt k
          → stored_record (claim_document_once r s).1 j ≡ stored_record s j
      firestore_keeps j h other = rw (firestore_state h) (
          unfold stored_record claim_document in
          ground (arith, get-put_ne s (document_id rt k) j (claim_document r) other))

  abbrev pub firestore_store : ClaimStore
  firestore_store = record {
    State = Collection;
    Key = String;
    key_of = document_id rt;
    recorded = stored_record;
    claim_once = claim_document_once;
    claim_invalid = firestore_invalid;
    claim_taken = λ r s k old v. firestore_taken r s k v old;
    claim_fresh = λ r s k v. firestore_fresh r s k v;
    claim_records = λ r s k v. firestore_records r s k v;
    claim_keeps = λ r s k j v. firestore_keeps r s k v j;
  }
