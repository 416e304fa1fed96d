-- ===== src/Retrieval/Contracts.antt =====
-- app/domain/retrieval/contracts.py: documents, chunks and hits.
use agent_observability_lab.Base.{String, ℕ, Uuid, Real, Dict, Eq}

pub record SourceDocument : Type 0 where
  pub document_id : Uuid
  pub slug : String
  pub version : String
  pub title : String
  pub content : String
  pub source_metadata : Dict String String

pub record DocumentChunk : Type 0 where
  pub chunk_id : Uuid
  pub document_id : Uuid
  pub document_slug : String
  pub document_version : String
  pub title : String
  pub ordinal : ℕ
  pub text : String
  pub content_hash : String
  pub source_metadata : Dict String String

pub data RetrievalSource : Type 0 where
  keyword vector fused : RetrievalSource

unfoldable pub RetrievalSource_discrete : Discrete RetrievalSource
RetrievalSource_discrete = hlevel

instance abbrev pub RetrievalSource_eq : Eq RetrievalSource
RetrievalSource_eq = record { dec = RetrievalSource_discrete }

pub record RetrievalHit : Type 0 where
  pub chunk_id : Uuid
  pub document_id : Uuid
  pub document_version : String
  pub text : String
  pub score : Real
  pub source : RetrievalSource
  pub corpus_version : String
  pub rank : ℕ
  pub contributing_ranks : Dict RetrievalSource ℕ
  pub contributing_scores : Dict RetrievalSource Real
