-- ===== src/Knowledge.antt =====
-- knowledge_packs.py: the approved packs and who may read them.
use mathlib.Core.List.{reverse}
use vice_ceo_proof_carrying.Dict.{Dict, lookup}
use vice_ceo_proof_carrying.Json.{Fields, dumps, end, field, is_listed, object, texts}
use vice_ceo_proof_carrying.Outcome.{
  Result, knowledge_pack_error, ok, ok_of_bind, ok_of_require, or_raise, or_raise-some, require,
  ◌>>=◌, ◌>>◌,
}
use vice_ceo_proof_carrying.Prelude.{
  Bool, List, String, [], beq_of_eq, eq_of_beq, false, nat_eq, refl, some, string_eq, true, ◌==◌,
  ◌↔◌, ◌∷◌, ◌≡◌,
}
use vice_ceo_proof_carrying.Runtime.{Runtime}
use vice_ceo_proof_carrying.Specialists.{policy_guard, support_intake}

abbrev pub knowledge_pack_schema_version : String
knowledge_pack_schema_version = "vice-ceo-demo-knowledge-pack-v1"

pub record KnowledgePack : Type 0 where
  pub pack_id : String
  pub version : String
  pub status : String
  pub source_reference : String
  pub source_type : String
  pub allowed_specialists : List String
  pub content_sha256 : String
  pub summary : String
  pub legal_or_regulatory_authority : Bool

pub record KnowledgeGrounding : Type 0 where
  pub pack_id : String
  pub version : String
  pub source_reference : String
  pub source_type : String
  pub content_sha256 : String
  pub summary : String
  pub retrieval_status : String
  pub legal_or_regulatory_authority : Bool

abbrev pub support_playbook_summary : String
support_playbook_summary =
    "Synthetic password-reset requests may be classified only as triaged or resolution prepared. No customer contact, account change, or external support action is permitted."

abbrev pub policy_playbook_summary : String
policy_playbook_summary =
    "A synthetic transition requires a registered tool contract, a current policy decision, and a valid Action Warrant before simulation."

abbrev pub support_playbook_id : String
support_playbook_id = "synthetic_support_password_reset_playbook"

abbrev pub warrant_playbook_id : String
warrant_playbook_id = "synthetic_action_warrant_playbook"

-- `KNOWLEDGE_PACKS`
unfoldable pub knowledge_packs : Runtime → Dict String KnowledgePack
knowledge_packs rt = record {
  entries =
      (
        support_playbook_id,
        record {
          pack_id = support_playbook_id;
          version = "1.0.0";
          status = "approved";
          source_reference = "vice_ceo_demo_support_playbook_v1";
          source_type = "synthetic_demo_playbook";
          allowed_specialists = support_intake ∷ [];
          content_sha256 = rt.sha256 support_playbook_summary;
          summary = support_playbook_summary;
          legal_or_regulatory_authority = false;
        },
      )
      ∷ (
        warrant_playbook_id,
        record {
          pack_id = warrant_playbook_id;
          version = "1.0.0";
          status = "approved";
          source_reference = "vice_ceo_demo_action_warrant_playbook_v1";
          source_type = "synthetic_demo_policy";
          allowed_specialists = policy_guard ∷ [];
          content_sha256 = rt.sha256 policy_playbook_summary;
          summary = policy_playbook_summary;
          legal_or_regulatory_authority = false;
        },
      )
      ∷ [];
}

abbrev pub grounding_of : KnowledgePack → KnowledgeGrounding
grounding_of p = record {
  pack_id = p.pack_id;
  version = p.version;
  source_reference = p.source_reference;
  source_type = p.source_type;
  content_sha256 = p.content_sha256;
  summary = p.summary;
  retrieval_status = "approved_exact_version";
  legal_or_regulatory_authority = false;
}

-- `retrieve_approved_knowledge`, from any set of packs: the source reads `KNOWLEDGE_PACKS`.
unfoldable pub retrieve_from :
    Dict String KnowledgePack → String → String → String → Result KnowledgeGrounding
unfolding lookup is_listed
retrieve_from packs pack_id expected_version specialist_name = do
  p ← or_raise (lookup packs pack_id) (knowledge_pack_error "knowledge_pack_not_found")
  require (p.status == "approved") (knowledge_pack_error "knowledge_pack_not_approved")
  require (p.version == expected_version) (knowledge_pack_error "knowledge_pack_version_mismatch")
  require (is_listed specialist_name p.allowed_specialists)
      (knowledge_pack_error "knowledge_pack_specialist_not_authorized")
  ok (grounding_of p)

abbrev pub retrieve_approved_knowledge :
    Runtime → String → String → String → Result KnowledgeGrounding
retrieve_approved_knowledge rt = retrieve_from (knowledge_packs rt)

-- A pack that a specialist may read under a version.
pub record IsReadable (p : KnowledgePack) (version specialist : String) : Type 0 where
  approved : p.status ≡ "approved"
  exact : p.version ≡ version
  scoped : is_listed specialist p.allowed_specialists ≡ true

retrieve_from-IsReadable :
    (packs : Dict String KnowledgePack) (i v s : String) (g : KnowledgeGrounding)
    → retrieve_from packs i v s ≡ ok g
    → (p : KnowledgePack) × (lookup packs i ≡ some p) × IsReadable p v s × (g ≡ grounding_of p)
unfolding retrieve_from
retrieve_from-IsReadable packs i v s g h =
    ok_of_bind (or_raise (lookup packs i) (knowledge_pack_error "knowledge_pack_not_found")) _ h
      (λ p found h1. ok_of_require (p.status == "approved") _ _ h1 (λ approved h2.
        ok_of_require (p.version == v) _ _ h2 (λ exact h3.
          ok_of_require (is_listed s p.allowed_specialists) _ _ h3 (λ scoped h4. (
            p,
            or_raise-some (lookup packs i) _ found,
            record {
              approved = eq_of_beq p.status "approved" approved;
              exact = eq_of_beq p.version v exact;
              scoped = scoped;
            },
            cc h4,
          )))))

-- `retrieve_approved_knowledge`, over any set of packs, answers with a reference exactly if the id
-- names a pack that is approved, has the expected version and lists the specialist; the reference
-- is then that pack's.
pub retrieve_from_iff :
    (packs : Dict String KnowledgePack) (i v s : String) (g : KnowledgeGrounding)
    → (retrieve_from packs i v s ≡ ok g)
      ↔ ((p : KnowledgePack) × (lookup packs i ≡ some p) × IsReadable p v s × (g ≡ grounding_of p))
unfolding retrieve_from
retrieve_from_iff packs i v s g = (
  retrieve_from-IsReadable packs i v s g,
  λ (p, found, readable, same).
      rw
        (
          found,
          beq_of_eq p.status "approved" readable.approved,
          beq_of_eq p.version v readable.exact,
          readable.scoped,
          same,
        )
        refl,
)

pack_fields : List (String × KnowledgePack) → Fields
pack_fields [] = end
pack_fields ((i, p) ∷ ps) =
    field i
      (object (
        texts (
          ("content_sha256", p.content_sha256)
          ∷ ("source_reference", p.source_reference)
          ∷ ("status", p.status)
          ∷ ("version", p.version)
          ∷ [])))
      (pack_fields ps)

-- `knowledge_manifest_sha256`; `sorted` puts the warrant playbook before the support playbook.
unfoldable pub knowledge_manifest_sha256 : Runtime → String
unfolding pack_fields knowledge_packs dumps
knowledge_manifest_sha256 rt =
    rt.sha256 (dumps (object (pack_fields (reverse (knowledge_packs rt).entries))))
