-- ===== src/Retrieval/Fusion.antt =====
-- app/domain/retrieval/fusion.py: reciprocal-rank fusion. Adding floats and dividing 1.0 by a number
-- are parameters; the spans of the retriever are left out.
pub mod Ranked
use agent_observability_lab.Base.{
  Bool, true, false, not, ◌&&◌, ◌||◌, String, Option, none, some, List, [], ◌∷◌, ◌++◌, ℕ, zero, suc,
  ◌+◌, ◌==◌, ℕ_eq, String_eq, if◌then◌else◌, Dict, lookup, put, or_else, is_some, ltb, text_le,
  Real,
}
use agent_observability_lab.Retrieval.Contracts.{RetrievalHit, RetrievalSource, RetrievalSource_eq}

abbrev pub default_rrf_k : ℕ
default_rrf_k = 60

-- the dictionaries of the loop, by the chunk's identifier
pub record Fusion : Type 0 where
  pub merged : Dict String RetrievalHit
  pub scores : Dict String Real
  pub ranks : Dict String (Dict RetrievalSource ℕ)
  pub source_scores : Dict String (Dict RetrievalSource Real)

unfoldable pub no_fusion : Fusion
no_fusion = record { merged = []; scores = []; ranks = []; source_scores = [] }

-- the hits, or `ValueError`
pub data Fused (A : Type 0) : Type 0 where
  hits : A → Fused A
  k_not_positive : Fused A

-- `hits[:limit]`
unfoldable pub take_hits : ℕ → List RetrievalHit → List RetrievalHit
take_hits zero hs = []
take_hits (suc n) [] = []
take_hits (suc n) (h ∷ hs) = h ∷ take_hits n hs

unfoldable pub values : Dict String RetrievalHit → List RetrievalHit
values [] = []
values ((k, h) ∷ d) = h ∷ values d

module _ (scores : Dict String Real) where
  unfoldable pub score_of : RetrievalHit → Real
  score_of hit = or_else (lookup hit.chunk_id scores) 0

  -- the order of the keys `(-score, str(chunk_id))`
  unfoldable pub before : RetrievalHit → RetrievalHit → Bool
  unfolding score_of
  before a b =
      ltb (score_of b) (score_of a) || (score_of a == score_of b && text_le a.chunk_id b.chunk_id)

  unfoldable pub insert_hit : RetrievalHit → List RetrievalHit → List RetrievalHit
  insert_hit hit [] = hit ∷ []
  insert_hit hit (h ∷ hs) = if before hit h then hit ∷ h ∷ hs else h ∷ insert_hit hit hs

  -- `sorted` by those keys
  unfoldable pub sort_hits : List RetrievalHit → List RetrievalHit
  unfolding insert_hit
  sort_hits [] = []
  sort_hits (h ∷ hs) = insert_hit h (sort_hits hs)

-- the second loop
unfoldable pub fused_hit : Fusion → ℕ → RetrievalHit → RetrievalHit
fused_hit f position hit = record hit {
  source = RetrievalSource.fused;
  score = score_of f.scores hit;
  rank = position;
  contributing_ranks = or_else (lookup hit.chunk_id f.ranks) [];
  contributing_scores = or_else (lookup hit.chunk_id f.source_scores) [];
}

unfoldable pub fuse_from : Fusion → ℕ → List RetrievalHit → List RetrievalHit
unfolding fused_hit
fuse_from f position [] = []
fuse_from f position (h ∷ hs) = fused_hit f position h ∷ fuse_from f (position + 1) hs

module _ (add : Real → Real → Real) (reciprocal : ℕ → Real) (k : ℕ) where
  unfoldable pub add_hit : ℕ → RetrievalHit → Fusion → Fusion
  add_hit position hit f =
      let key = hit.chunk_id in
      record {
        merged = if is_some (lookup key f.merged) then f.merged else put key hit f.merged;
        scores =
            put key (add (or_else (lookup key f.scores) 0) (reciprocal (k + position))) f.scores;
        ranks = put key (put hit.source position (or_else (lookup key f.ranks) [])) f.ranks;
        source_scores =
            put key (put hit.source hit.score (or_else (lookup key f.source_scores) []))
              f.source_scores;
      }

  unfoldable pub add_hits : ℕ → List RetrievalHit → Fusion → Fusion
  unfolding add_hit
  add_hits position [] f = f
  add_hits position (hit ∷ rest) f = add_hits (position + 1) rest (add_hit position hit f)

  unfoldable pub add_lists : List (List RetrievalHit) → Fusion → Fusion
  unfolding add_hits
  add_lists [] f = f
  add_lists (ranked ∷ rest) f = add_lists rest (add_hits 1 ranked f)

  unfoldable pub reciprocal_rank_fusion : List (List RetrievalHit) → ℕ → Fused (List RetrievalHit)
  unfolding add_lists
  reciprocal_rank_fusion ranked_lists limit =
      let f = add_lists ranked_lists no_fusion in
      let ordered = sort_hits f.scores (values f.merged) in
      if ltb limit 1
      then Fused.hits []
      else if ltb k 1
      then Fused.k_not_positive
      else Fused.hits (fuse_from f 1 (take_hits limit ordered))

-- `FusedRetriever`: the two retrievers it asks, as searches of a world
unfoldable pub search :
    {W : Type 0}
    → (Real → Real → Real)
    → (ℕ → Real)
    → (String → Bool)
    → (String → ℕ → W → List RetrievalHit × W)
    → (String → ℕ → W → List RetrievalHit × W)
    → ℕ
    → String
    → ℕ
    → W
    → Fused (List RetrievalHit) × W
search add reciprocal is_blank keyword vector rrf_k query limit w =
    let (by_keyword, w') = keyword query limit w in
    let (by_vector, w'') = vector query limit w' in
    if ltb limit 1 || is_blank query
    then (Fused.hits [], w)
    else (reciprocal_rank_fusion add reciprocal rrf_k (by_keyword ∷ by_vector ∷ []) limit, w'')
