-- ===== src/Registry/Records/Refines.antt =====
-- registry_watch.py: runs are saved and read, and candidates queued and decided, in the Firestore
-- store as in the in-memory one. Their lists differ and are not compared.
use mathlib.Core.Option
use vice_ceo_proof_carrying.Claims.Scope.{ClaimStore}
use vice_ceo_proof_carrying.Dict.{Dict, insert, lookup}
use vice_ceo_proof_carrying.Http.Types.{after}
use vice_ceo_proof_carrying.Outcome.{Result, Result-cases}
use vice_ceo_proof_carrying.Prelude.{
  Bool-cases, List, Option, String, [], ap, inl, inr, nat_eq, none, refl, some, string_eq, ◌==◌,
  ◌∷◌, ◌≡◌,
}
use vice_ceo_proof_carrying.Registry.Actions.{
  resolve_action_candidate, resolve_found, resolved_action_candidate, save_action_candidate,
}
use vice_ceo_proof_carrying.Registry.Records.{
  FirestoreRecords, StoredCandidate, brief_as_dict, brief_from_mapping, candidate_as_dict,
  candidate_from_mapping, firestore_get_run, firestore_resolve, firestore_save_candidate,
  firestore_save_run, run_as_dict, run_from_mapping, set_default, snapshot_as_dict,
  snapshot_from_mapping, transition,
}
use vice_ceo_proof_carrying.Registry.Store.{WatchState, get_run, queue_candidate, save_run}
use vice_ceo_proof_carrying.Registry.Types.{RegistryActionCandidate, RegistryWatchRun}
use vice_ceo_proof_carrying.Runtime.{Runtime}

module _ {A B : Type 0} (f : A → B) where
  -- The dictionary with each value read by `f`.
  abbrev pub read_entries : List (String × A) → List (String × B)
  read_entries [] = []
  read_entries ((k, a) ∷ m) = (k, f a) ∷ read_entries m

  abbrev pub read_values : Dict String A → Dict String B
  read_values d = record { entries = read_entries d.entries }

  find-read_entries :
      (m : List (String × A)) (k : String)
      → lookup {V = B} (record { entries = read_entries m }) k
        ≡ Option.map f (lookup (record { entries = m }) k)
  unfolding lookup
  find-read_entries [] k = refl
  find-read_entries ((j, a) ∷ m) k = elim (Bool-cases (j == k)) [
    | inl same ↦ rw same refl
    | inr other ↦ rw other (find-read_entries m k)
  ]

  write-read_entries :
      (m : List (String × A)) (k : String) (a : A)
      → read_values (insert (record { entries = m }) k a)
        ≡ insert (record { entries = read_entries m }) k (f a)
  unfolding insert
  write-read_entries [] k a = refl
  write-read_entries ((j, b) ∷ m) k a = elim (Bool-cases (j == k)) [
    | inl same ↦ rw same refl
    | inr other ↦
        rw other (ap (λ d. record { entries = (j, f b) ∷ d.entries }) (write-read_entries m k a))
  ]

-- What is written is read as it was.
candidate_round_trip :
    (c : RegistryActionCandidate) → candidate_from_mapping (candidate_as_dict c) ≡ c
unfolding candidate_from_mapping candidate_as_dict set_default
candidate_round_trip c = refl

map_round_trip :
    {A B : Type 0} (read : A → B) (write : B → A)
    → ((b : B) → read (write b) ≡ b)
    → (o : Option B) → Option.map read (Option.map write o) ≡ o
map_round_trip read write same none = refl
map_round_trip read write same (some b) = ap some (same b)

run_round_trip : (r : RegistryWatchRun) → run_from_mapping (run_as_dict r) ≡ r
unfolding run_from_mapping run_as_dict snapshot_from_mapping snapshot_as_dict brief_from_mapping
    brief_as_dict set_default
run_round_trip r =
    rw
      (
        map_round_trip snapshot_from_mapping snapshot_as_dict (λ p. refl) r.snapshot,
        map_round_trip brief_from_mapping brief_as_dict (λ b. refl) r.brief,
        map_round_trip candidate_from_mapping candidate_as_dict candidate_round_trip
            r.action_candidate,
      )
      refl

module _ (rt : Runtime) (claims : ClaimStore) where
  -- The operations that are compared.
  pub data RecordCall : Type 0 where
    save_a_run : RegistryWatchRun → RecordCall
    get_a_run : String → RecordCall
    save_a_candidate : RegistryActionCandidate → RecordCall
    resolve_a_candidate : String → String → String → RecordCall

  pub data RecordReply : Type 0 where
    was_saved : RecordReply
    run_read : Option RegistryWatchRun → RecordReply
    resolution : Result RegistryActionCandidate → RecordReply

  -- A call of the in-memory store.
  pub memory_call : RecordCall → WatchState claims → RecordReply × WatchState claims
  memory_call (save_a_run r) s = (was_saved, save_run claims r s)
  memory_call (get_a_run id) s = (run_read (get_run claims s id), s)
  memory_call (save_a_candidate c) s = (was_saved, queue_candidate claims c s)
  memory_call (resolve_a_candidate id decision at_time) s =
      let (r, q) = resolve_action_candidate rt id decision at_time s.candidates in
      (resolution r, record s { candidates = q })

  -- The same call of the Firestore store.
  pub firestore_call : RecordCall → FirestoreRecords → RecordReply × FirestoreRecords
  firestore_call (save_a_run r) docs = (was_saved, firestore_save_run r docs)
  firestore_call (get_a_run id) docs = (run_read (firestore_get_run docs id), docs)
  firestore_call (save_a_candidate c) docs = (was_saved, firestore_save_candidate c docs)
  firestore_call (resolve_a_candidate id decision at_time) docs =
      let (r, after) = firestore_resolve rt id decision at_time docs in (resolution r, after)

  pub memory_calls : List RecordCall → WatchState claims → List RecordReply × WatchState claims
  memory_calls [] s = ([], s)
  memory_calls (c ∷ cs) s =
      let (reply, s1) = memory_call c s in
      let (replies, s2) = memory_calls cs s1 in (reply ∷ replies, s2)

  pub firestore_calls : List RecordCall → FirestoreRecords → List RecordReply × FirestoreRecords
  firestore_calls [] docs = ([], docs)
  firestore_calls (c ∷ cs) docs =
      let (reply, d1) = firestore_call c docs in
      let (replies, d2) = firestore_calls cs d1 in (reply ∷ replies, d2)

  -- What the documents stand for, beside a state's claims and snapshots.
  abbrev pub as_memory : WatchState claims → FirestoreRecords → WatchState claims
  as_memory s docs = record s {
    runs = read_values run_from_mapping docs.run_documents;
    candidates = read_values candidate_from_mapping docs.action_documents;
  }

  resolve_found_refines :
      (o : Option StoredCandidate) (id decision at_time : String) (s : WatchState claims)
      (docs : FirestoreRecords)
      → (let (r, q) =
            resolve_found rt id
              (Option.map candidate_from_mapping o)
              decision
              at_time
              (read_values candidate_from_mapping docs.action_documents) in
          Path
            (RecordReply × WatchState claims)
            (resolution r, record (as_memory s docs) { candidates = q })
            (
              resolution (transition rt id o decision at_time docs).0,
              as_memory s (transition rt id o decision at_time docs).1,
            ))
  unfolding resolve_found transition
  resolve_found_refines none id decision at_time s docs = refl
  resolve_found_refines (some stored) id decision at_time s docs =
      elim (Result-cases
        (resolved_action_candidate rt (candidate_from_mapping stored) decision at_time)) [
          | inr (x, stays) ↦ rw stays refl
          | inl (done, made) ↦
              rw
                (
                  made,
                  write-read_entries candidate_from_mapping docs.action_documents.entries id
                      (candidate_as_dict done),
                  candidate_round_trip done,
                )
                refl
        ]

  refines_once :
      (c : RecordCall) (s : WatchState claims) (docs : FirestoreRecords)
      → memory_call c (as_memory s docs)
        ≡ ((firestore_call c docs).0, as_memory s (firestore_call c docs).1)
  unfolding memory_call firestore_call save_run get_run queue_candidate save_action_candidate
      firestore_save_run firestore_get_run firestore_save_candidate resolve_action_candidate
      firestore_resolve
  refines_once (save_a_run r) s docs =
      rw
        (
          write-read_entries run_from_mapping docs.run_documents.entries r.run_id (run_as_dict r),
          run_round_trip r,
        )
        refl
  refines_once (get_a_run id) s docs =
      rw (find-read_entries run_from_mapping docs.run_documents.entries id) refl
  refines_once (save_a_candidate c) s docs =
      rw
        (
          write-read_entries candidate_from_mapping docs.action_documents.entries c.candidate_id
              (candidate_as_dict c),
          candidate_round_trip c,
        )
        refl
  refines_once (resolve_a_candidate id decision at_time) s docs =
      rw (find-read_entries candidate_from_mapping docs.action_documents.entries id)
        (resolve_found_refines (lookup docs.action_documents id) id decision at_time s docs)

  -- For four operations, saving a run, reading a run by its id, queueing a candidate and deciding
  -- one, the Firestore store refines the in-memory store: from any documents, also ones of earlier
  -- versions, every sequence of such calls gets the replies that the in-memory store gives when it
  -- starts with what the documents stand for, and the documents go on standing for its state. The
  -- list of candidates is not among the operations: Firestore's is cut at 100.
  pub firestore-refines :
      (cs : List RecordCall) (s : WatchState claims) (docs : FirestoreRecords)
      → memory_calls cs (as_memory s docs)
        ≡ ((firestore_calls cs docs).0, as_memory s (firestore_calls cs docs).1)
  unfolding memory_calls firestore_calls
  firestore-refines [] s docs = refl
  firestore-refines (c ∷ cs) s docs =
      rw (refines_once c s docs, firestore-refines cs s (firestore_call c docs).1) refl
