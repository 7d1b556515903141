-- ===== src/Registry/Listing/Sorted.antt =====
-- registry_watch.py: the owner's list is complete and in order.
use mathlib.Core.List.{Perm}
use mathlib.Core.List.Perm
use vice_ceo_proof_carrying.Dict.{values}
use vice_ceo_proof_carrying.Prelude.{
  Bool-cases, List, String, [], arith, eq_iff, false, inl, inr, length, not, refl, suc, true, ◌+◌,
  ◌∷◌, ◌≡◌,
}
use vice_ceo_proof_carrying.Registry.Actions.{ActionQueue}
use vice_ceo_proof_carrying.Registry.Listing.{
  count_candidates, insert_newest, list_action_candidates, listed_before, newest_first,
  owner_action_queue, str_le,
}
use vice_ceo_proof_carrying.Registry.Types.{RegistryActionCandidate}
use vice_ceo_proof_carrying.Text.{first}

-- Each candidate comes after the ones that are not older.
pub data IsNewestFirst : List RegistryActionCandidate → Type 0 where
  none_listed : IsNewestFirst []
  one_listed : (c : RegistryActionCandidate) → IsNewestFirst (c ∷ [])
  then_older :
      {newer : RegistryActionCandidate} {older : RegistryActionCandidate}
      {rest : List RegistryActionCandidate}
      → listed_before older newer ≡ true
      → IsNewestFirst (older ∷ rest)
      → IsNewestFirst (newer ∷ older ∷ rest)

str_le-total : (s t : String) → str_le s t ≡ false → str_le t s ≡ true
unfolding str_le
str_le-total String.[] t h = absurd (cc h)
str_le-total (String.◌∷◌ c s) String.[] h = refl
str_le-total (String.◌∷◌ c s) (String.◌∷◌ d t) h = ground (arith, h, str_le-total s t)

listed_before-total :
    (a b : RegistryActionCandidate) → listed_before a b ≡ false → listed_before b a ≡ true
unfolding listed_before
listed_before-total a b h = ground (
  arith,
  h,
  str_le-total a.created_at b.created_at,
  str_le-total a.candidate_id b.candidate_id,
  eq_iff a.created_at b.created_at,
  eq_iff b.created_at a.created_at,
)

insert_under :
    (c d : RegistryActionCandidate) (ds : List RegistryActionCandidate)
    → listed_before c d ≡ true
    → IsNewestFirst (d ∷ ds)
    → IsNewestFirst (d ∷ insert_newest c ds)
unfolding insert_newest
insert_under c d [] older sorted = then_older older (one_listed c)
insert_under c d (e ∷ es) older (then_older h sorted) = elim (Bool-cases (listed_before e c)) [
  | inl first ↦ rw first (then_older older (then_older first sorted))
  | inr later ↦ rw later (then_older h (insert_under c e es (listed_before-total e c later) sorted))
]

insert_newest-IsNewestFirst :
    (c : RegistryActionCandidate) (ds : List RegistryActionCandidate)
    → IsNewestFirst ds
    → IsNewestFirst (insert_newest c ds)
unfolding insert_newest
insert_newest-IsNewestFirst c [] sorted = one_listed c
insert_newest-IsNewestFirst c (d ∷ ds) sorted = elim (Bool-cases (listed_before d c)) [
  | inl before ↦ rw before (then_older before sorted)
  | inr later ↦ rw later (insert_under c d ds (listed_before-total d c later) sorted)
]

insert_newest-perm :
    (c : RegistryActionCandidate) (ds : List RegistryActionCandidate)
    → Perm (insert_newest c ds) (c ∷ ds)
unfolding insert_newest
insert_newest-perm c [] = Perm.refl (c ∷ [])
insert_newest-perm c (d ∷ ds) = elim (Bool-cases (listed_before d c)) [
  | inl before ↦ rw before (Perm.refl (c ∷ d ∷ ds))
  | inr later ↦ rw later (Perm.trans (Perm.cons d (insert_newest-perm c ds)) (Perm.swap c d ds))
]

newest_first-IsNewestFirst : (cs : List RegistryActionCandidate) → IsNewestFirst (newest_first cs)
unfolding newest_first
newest_first-IsNewestFirst [] = none_listed
newest_first-IsNewestFirst (c ∷ cs) =
    insert_newest-IsNewestFirst c (newest_first cs) (newest_first-IsNewestFirst cs)

newest_first-perm : (cs : List RegistryActionCandidate) → Perm (newest_first cs) cs
unfolding newest_first
newest_first-perm [] = Perm.nil
newest_first-perm (c ∷ cs) =
    Perm.trans (insert_newest-perm c (newest_first cs)) (Perm.cons c (newest_first-perm cs))

-- The owner's list holds each candidate of the queue exactly as often as the queue does, and no
-- other, and it is ordered by creation time and then id, from the newest down.
pub list_action_candidates-IsNewestFirst :
    (q : ActionQueue)
    → Perm (list_action_candidates q) (values q) × IsNewestFirst (list_action_candidates q)
unfolding list_action_candidates
list_action_candidates-IsNewestFirst q =
    (newest_first-perm (values q), newest_first-IsNewestFirst (values q))

counted_once :
    (cs : List RegistryActionCandidate)
    → count_candidates (λ c. c.requires_owner_decision) cs
        + count_candidates (λ c. not c.requires_owner_decision) cs
      ≡ length cs
unfolding count_candidates
counted_once [] = refl
counted_once (c ∷ cs) = ground (arith, counted_once cs)

insert_newest-length :
    (c : RegistryActionCandidate) (ds : List RegistryActionCandidate)
    → length (insert_newest c ds) ≡ suc (length ds)
unfolding insert_newest
insert_newest-length c [] = refl
insert_newest-length c (d ∷ ds) = ground (arith, insert_newest-length c ds)

newest_first-length : (cs : List RegistryActionCandidate) → length (newest_first cs) ≡ length cs
unfolding newest_first
newest_first-length [] = refl
newest_first-length (c ∷ cs) =
    omega (arith, insert_newest-length c (newest_first cs), newest_first-length cs)

-- The overview's counts add up: every candidate of the queue is counted once as awaiting a decision
-- or as resolved, and the total is the size of the queue.
pub owner_action_queue-total :
    (q : ActionQueue)
    → ((owner_action_queue q).total ≡ length (values q))
      × ((owner_action_queue q).awaiting_owner_decision + (owner_action_queue q).resolved
          ≡ (owner_action_queue q).total)
unfolding owner_action_queue list_action_candidates
owner_action_queue-total q =
    (newest_first-length (values q), counted_once (newest_first (values q)))
