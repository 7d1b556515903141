-- ===== src/Registry/Sources/Distinct.antt =====
-- registry_watch.py: configured sources are valid and have different ids.
use vice_ceo_proof_carrying.Json.{Items, Json, all_present, cons, is_listed, names_within, nil}
use vice_ceo_proof_carrying.Outcome.{ok, ok_holds, ok_of_bind, ok_of_require, or_raise}
use vice_ceo_proof_carrying.Prelude.{
  List, Option, String, [], arith, eq_iff, false, nat_eq, not, string_eq, subst, ◌&&◌, ◌∷◌, ◌≡◌,
  ◌≢◌,
}
use vice_ceo_proof_carrying.Registry.Sources.{
  all_fields, checked_source, item_fields, nonempty_items, optional_config_string,
  registry_sources_from_environment, required_config_string, required_environment, required_fields,
  source_of_item, sources_of_items,
}
use vice_ceo_proof_carrying.Registry.Types.{RegistrySource, check_source}

-- No source of the list has the id.
abbrev pub Absent : String → List RegistrySource → Type 0
Absent id [] = Unit {0}
Absent id (s ∷ ss) = (id ≢ s.source_id) × Absent id ss

-- Every source is valid, and no two have one id.
abbrev pub IsPortfolio : List RegistrySource → Type 0
IsPortfolio [] = Unit {0}
IsPortfolio (s ∷ ss) = (check_source s ≡ ok tt) × Absent s.source_id ss × IsPortfolio ss

-- No source has an id that was seen.
abbrev Unseen : List String → List RegistrySource → Type 0
Unseen seen [] = Unit {0}
Unseen seen (s ∷ ss) = (is_listed s.source_id seen ≡ false) × Unseen seen ss

Unseen-split :
    (id : String) (seen : List String) (ss : List RegistrySource)
    → Unseen (id ∷ seen) ss
    → Absent id ss × Unseen seen ss
unfolding is_listed
Unseen-split id seen [] h = (tt, tt)
Unseen-split id seen (s ∷ ss) (h, hs) =
    let (away, rest) = Unseen-split id seen ss hs in
    ((λ p. ground (arith, h, p, eq_iff s.source_id id), away), (ground (arith, h), rest))

checked_source-valid : (s t : RegistrySource) → checked_source s ≡ ok t → check_source t ≡ ok tt
unfolding checked_source
checked_source-valid s t h = ok_of_bind (check_source s) _ h (λ done passed same.
    subst {A = RegistrySource} (λ x. check_source x ≡ ok tt) {x = s} {y = t} (cc same) passed)

source_of_item-valid :
    (item : Json) (s : RegistrySource) → source_of_item item ≡ ok s → check_source s ≡ ok tt
unfolding source_of_item
source_of_item-valid item s h0 = ok_of_bind (item_fields item) _ h0 (λ fs p0 h1.
    ok_of_require (all_present required_fields fs && names_within fs all_fields) _ _ h1 (λ p1 h2.
      ok_of_bind (required_config_string fs "source_id") _ h2 (λ id p2 h3.
        ok_of_bind (required_config_string fs "display_name") _ h3 (λ name p3 h4.
          ok_of_bind (required_config_string fs "canonical_url") _ h4 (λ url p4 h5.
            ok_of_bind (required_config_string fs "jurisdiction") _ h5 (λ place p5 h6.
              ok_of_bind (optional_config_string fs "source_owner" "Unspecified public owner") _ h6
                (λ owner p6 h7.
                  ok_of_bind (optional_config_string fs "refresh_schedule" "0 9 * * *") _ h7
                    (λ plan p7 h8.
                      ok_of_bind
                        (optional_config_string fs "operational_focus" "public EPR program update")
                        _ h8 (λ focus p8 h9. checked_source-valid _ s h9)))))))))

sources_of_items-IsPortfolio :
    (seen : List String) (items : Items) (ss : List RegistrySource)
    → sources_of_items seen items ≡ ok ss
    → IsPortfolio ss × Unseen seen ss
unfolding sources_of_items
sources_of_items-IsPortfolio seen nil ss h =
    ok_holds (λ x. IsPortfolio x × Unseen seen x) h (tt, tt)
sources_of_items-IsPortfolio seen (cons item items) ss h0 =
    ok_of_bind (source_of_item item) _ h0 (λ s made h1.
      ok_of_require (not (is_listed s.source_id seen)) _ _ h1 (λ fresh h2.
        ok_of_bind (sources_of_items (s.source_id ∷ seen) items) _ h2 (λ rest done h3.
          let (good, unseen) = sources_of_items-IsPortfolio (s.source_id ∷ seen) items rest done in
          let (away, old) = Unseen-split s.source_id seen rest unseen in
          ok_holds (λ x. IsPortfolio x × Unseen seen x) h3
            ((source_of_item-valid item s made, away, good), (ground (arith, fresh), old)))))

-- If the environment's value gives sources, whatever `json.loads` makes of it, then each of them is
-- valid and no two have one id.
pub sources-IsPortfolio :
    (loads : String → Option Json) (value : String) (ss : List RegistrySource)
    → registry_sources_from_environment loads value ≡ ok ss
    → IsPortfolio ss
unfolding registry_sources_from_environment
sources-IsPortfolio loads value ss h0 =
    ok_of_bind (required_environment "vice_ceo_registry_sources_json_required" value) _ h0
      (λ raw p0 h1. ok_of_bind (or_raise (loads raw) _) _ h1 (λ parsed p1 h2.
        ok_of_bind (nonempty_items parsed) _ h2
          (λ items p2 h3. (sources_of_items-IsPortfolio [] items ss h3).0)))
