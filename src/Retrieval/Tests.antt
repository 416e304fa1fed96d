-- ===== src/Retrieval/Tests.antt =====
-- Chunks, fused hits and cited answers of small documents.
use agent_observability_lab.Base.{
  ◌≡◌, refl, ◌↔◌, true, false, is_empty, String, List, [], ◌∷◌, map, ℕ, ◌+◌, ◌-◌, All, ◌≤◌,
  text_length, contains, String_eq, String_discrete, ℕ_discrete, arith, Real, join, lookup, put,
}
use agent_observability_lab.Retrieval.Contracts.{
  RetrievalHit, RetrievalSource, RetrievalSource_discrete,
}
use agent_observability_lab.Retrieval.Chunking.{
  DeterministicChunker, windows, windows_from, take, drop,
}
use agent_observability_lab.Retrieval.Chunking.Windows.{rejoin, rejoin-windows}
use agent_observability_lab.Retrieval.Fusion.{
  reciprocal_rank_fusion, add_lists, add_hits, add_hit, no_fusion, sort_hits, insert_hit, before,
  score_of, values, take_hits, fuse_from, fused_hit, Fused,
}
use agent_observability_lab.Retrieval.Fusion.Ranked.{IsFusion, reciprocal_rank_fusion-IsFusion}
use agent_observability_lab.Retrieval.Answers.{CitedPolicyAnswer, Cited, build_cited_policy_answer}
use agent_observability_lab.Retrieval.Answers.Grounded.{
  Quotes, IsQuotable, is_cited, build_cited_policy_answer_lem,
}

abbrev tokens : List String
tokens = "a" ∷ "b" ∷ "c" ∷ "d" ∷ "e" ∷ []

abbrev chunker : DeterministicChunker
chunker = record { chunk_size = 3; overlap = 1 }

tokens_windows : windows chunker tokens ≡ ("a" ∷ "b" ∷ "c" ∷ []) ∷ ("c" ∷ "d" ∷ "e" ∷ []) ∷ []
unfolding windows windows_from take drop join String_discrete
tokens_windows = refl

rejoin-windows_example : rejoin 1 (windows chunker tokens) ≡ tokens
rejoin-windows_example =
    rejoin-windows chunker tokens (omega arith)
      (λ e. cc, (λ e. cc, (λ e. cc, (λ e. cc, (λ e. cc, tt)))))

abbrev hit : String → RetrievalSource → Real → ℕ → RetrievalHit
hit id source score rank = record {
  chunk_id = id;
  document_id = "document-1";
  document_version = "2026-07-30";
  text = "Delivered orders can be refunded.";
  score = score;
  source = source;
  corpus_version = "policy-v1";
  rank = rank;
  contributing_ranks = [];
  contributing_scores = [];
}

abbrev by_keyword : List RetrievalHit
by_keyword =
    hit "chunk-1" RetrievalSource.keyword 9 1 ∷ hit "chunk-2" RetrievalSource.keyword 7 2 ∷ []

abbrev by_vector : List RetrievalHit
by_vector = hit "chunk-2" RetrievalSource.vector 5 1 ∷ hit "chunk-3" RetrievalSource.vector 4 2 ∷ []

abbrev add : Real → Real → Real
add a b = a + b

abbrev reciprocal : ℕ → Real
reciprocal n = 100 - n

abbrev ids_of : Fused (List RetrievalHit) → List String
ids_of Fused.k_not_positive = []
ids_of (Fused.hits hs) = map (λ h. h.chunk_id) hs

fused_ids :
    ids_of (reciprocal_rank_fusion add reciprocal 60 (by_keyword ∷ by_vector ∷ []) 2)
    ≡ "chunk-2" ∷ "chunk-1" ∷ []
unfolding reciprocal_rank_fusion add_lists add_hits add_hit no_fusion sort_hits insert_hit before
    score_of values take_hits fuse_from fused_hit lookup put String_discrete ℕ_discrete
    RetrievalSource_discrete
fused_ids = refl

reciprocal_rank_fusion-IsFusion_example :
    IsFusion 60 2 (reciprocal_rank_fusion add reciprocal 60 (by_keyword ∷ by_vector ∷ []) 2)
reciprocal_rank_fusion-IsFusion_example =
    reciprocal_rank_fusion-IsFusion add reciprocal 60 (by_keyword ∷ by_vector ∷ []) 2

by_keyword-IsQuotable : All IsQuotable by_keyword
by_keyword-IsQuotable = (((λ e. cc), (λ e. cc), (λ e. cc)), (((λ e. cc), (λ e. cc), (λ e. cc)), tt))

build_cited_policy_answer_lem_example :
    ((a : CitedPolicyAnswer)
      → build_cited_policy_answer "yes" ("chunk-1" ∷ []) by_keyword ≡ Cited.cited a
      → (a.message ≡ "yes")
        × (map (λ c. c.citation_id) a.citations ≡ "chunk-1" ∷ [])
        × All (Quotes by_keyword) a.citations)
    × ((is_cited (build_cited_policy_answer "yes" ("chunk-1" ∷ []) by_keyword) ≡ true) ↔ (
        (is_empty {A = String} ("chunk-1" ∷ []) ≡ false)
        × (1 ≤ text_length "yes")
        × (text_length "yes" ≤ 4000)
        × All (λ id. contains (map (λ h. h.chunk_id) by_keyword) id ≡ true) ("chunk-1" ∷ [])))
build_cited_policy_answer_lem_example =
    build_cited_policy_answer_lem "yes" ("chunk-1" ∷ []) by_keyword by_keyword-IsQuotable
