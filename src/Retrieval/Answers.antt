-- ===== src/Retrieval/Answers.antt =====
-- app/domain/retrieval/answers.py: a policy answer whose citations resolve to the hits.
pub mod Grounded
use agent_observability_lab.Base.{
  ◌≡◌, refl, ap, Bool, true, false, is_empty, is_some, ◌⊎◌, inl, inr, ◌↔◌, String, Option, none,
  some, List, [], ◌∷◌, map, ◌==◌, String_eq, if◌then◌else◌, Dict, lookup, put, lookup-put, put-All,
  All, Any, any, contains, arith, has_length, not, ◌&&◌,
}
use agent_observability_lab.Agent.Schemas.{PolicyCitation}
use agent_observability_lab.Retrieval.Contracts.{RetrievalHit}

pub record CitedPolicyAnswer : Type 0 where
  pub message : String
  pub citations : List PolicyCitation

-- an answer, `HallucinatedCitation` with the identifier, or pydantic's error for a field
pub data Cited (A : Type 0) : Type 0 where
  cited : A → Cited A
  hallucinated : String → Cited A
  invalid : Cited A

-- `{str(hit.chunk_id): hit for hit in hits}`, from the dictionary so far
unfoldable pub index_hits : Dict String RetrievalHit → List RetrievalHit → Dict String RetrievalHit
index_hits d [] = d
index_hits d (hit ∷ hits) = index_hits (put hit.chunk_id hit d) hits

unfoldable pub citation : String → RetrievalHit → PolicyCitation
citation citation_id hit = record {
  citation_id = citation_id;
  text = hit.text;
  document_version = hit.document_version;
}

unfoldable pub and_cite : PolicyCitation → Cited (List PolicyCitation) → Cited (List PolicyCitation)
and_cite c (Cited.hallucinated id) = Cited.hallucinated id
and_cite c Cited.invalid = Cited.invalid
and_cite c (Cited.cited cs) = Cited.cited (c ∷ cs)

-- whether `PolicyCitation` takes the fields
unfoldable pub citation_fits : PolicyCitation → Bool
citation_fits c =
    not (c.citation_id == "") && (not (c.text == "") && not (c.document_version == ""))

-- The loop over the identifiers: the first unknown one, or citation without text, is raised.
unfoldable pub resolve :
    String → Option RetrievalHit → Cited (List PolicyCitation) → Cited (List PolicyCitation)
unfolding and_cite citation citation_fits
resolve citation_id none rest = Cited.hallucinated citation_id
resolve citation_id (some hit) rest =
    if citation_fits (citation citation_id hit)
    then and_cite (citation citation_id hit) rest
    else Cited.invalid

unfoldable pub cite_all : Dict String RetrievalHit → List String → Cited (List PolicyCitation)
unfolding resolve
cite_all by_id [] = Cited.cited []
cite_all by_id (id ∷ ids) = resolve id (lookup id by_id) (cite_all by_id ids)

unfoldable pub with_message : String → Cited (List PolicyCitation) → Cited CitedPolicyAnswer
with_message message (Cited.hallucinated id) = Cited.hallucinated id
with_message message Cited.invalid = Cited.invalid
with_message message (Cited.cited []) = Cited.hallucinated "missing"
with_message message (Cited.cited (c ∷ cs)) =
    if has_length 1 4000 message
    then Cited.cited (record { message = message; citations = c ∷ cs })
    else Cited.invalid

unfoldable pub build_cited_policy_answer :
    String → List String → List RetrievalHit → Cited CitedPolicyAnswer
unfolding with_message cite_all index_hits
build_cited_policy_answer message citation_ids hits =
    with_message message (cite_all (index_hits [] hits) citation_ids)
