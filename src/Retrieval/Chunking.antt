-- ===== src/Retrieval/Chunking.antt =====
-- app/domain/retrieval/chunking.py: the windows of tokens and the chunks made from them. Splitting a
-- text at white space, its SHA-256 digest and `uuid5` are parameters.
pub mod Windows
use Prim.Native.String.{◌++◌ as append}
use agent_observability_lab.Base.{
  Bool, true, false, ◌||◌, String, Option, none, some, List, [], ◌∷◌, ℕ, zero, suc, ◌+◌, ◌-◌, ◌==◌,
  ℕ_eq, String_eq, if◌then◌else◌, length, leb, ltb, Uuid, join, is_empty,
}
use agent_observability_lab.Retrieval.Contracts.{SourceDocument, DocumentChunk}

abbrev pub default_chunk_size : ℕ
default_chunk_size = 160

abbrev pub default_chunk_overlap : ℕ
default_chunk_overlap = 32

-- `DeterministicChunker` with its checked settings
pub record DeterministicChunker : Type 0 where
  pub chunk_size : ℕ
  pub overlap : ℕ

pub data ChunkerError : Type 0 where
  size_not_positive overlap_out_of_range : ChunkerError

pub data Made (A : Type 0) : Type 0 where
  made : A → Made A
  invalid : ChunkerError → Made A

-- `overlap < 0` is written out by the type
unfoldable pub new_chunker : ℕ → ℕ → Made DeterministicChunker
new_chunker chunk_size overlap =
    if ltb chunk_size 1
    then Made.invalid ChunkerError.size_not_positive
    else if leb chunk_size overlap
    then Made.invalid ChunkerError.overlap_out_of_range
    else Made.made (record { chunk_size = chunk_size; overlap = overlap })

-- `tokens[:n]` and `tokens[n:]`
unfoldable pub take : ℕ → List String → List String
take zero ts = []
take (suc n) [] = []
take (suc n) (t ∷ ts) = t ∷ take n ts

unfoldable pub drop : ℕ → List String → List String
drop zero ts = ts
drop (suc n) [] = []
drop (suc n) (t ∷ ts) = drop n ts

-- The windows of the loop from `start`, where `rest` is `tokens[start:]`: an iteration takes a
-- window, and goes on a step later unless the window reaches the end.
unfoldable pub windows_from : ℕ → ℕ → ℕ → List String → List (List String)
unfolding take drop
windows_from zero size step rest = []
windows_from (suc fuel) size step rest =
    let window = take size rest in
    let more = windows_from fuel size step (drop step rest) in
    if join " " window == ""
    then []
    else if leb (length rest) size
    then window ∷ []
    else window ∷ more

-- as many iterations as there are tokens are enough
unfoldable pub windows : DeterministicChunker → List String → List (List String)
unfolding windows_from
windows chunker tokens =
    if is_empty tokens
    then []
    else windows_from (length tokens) chunker.chunk_size (chunker.chunk_size - chunker.overlap)
        tokens

module _ (split : String → List String) (sha256 : String → String) (uuid5 : String → Uuid)
    (decimal : ℕ → String) where
  unfoldable pub identity : SourceDocument → ℕ → String → String
  identity document ordinal content_hash = join "|" (
      document.document_id ∷ document.slug ∷ document.version ∷ decimal ordinal ∷ content_hash ∷ [])

  unfoldable pub to_chunk : SourceDocument → ℕ → List String → DocumentChunk
  unfolding identity
  to_chunk document ordinal window =
      let text = join " " window in
      let content_hash = sha256 text in
      record {
        chunk_id = uuid5 (identity document ordinal content_hash);
        document_id = document.document_id;
        document_slug = document.slug;
        document_version = document.version;
        title = document.title;
        ordinal = ordinal;
        text = text;
        content_hash = content_hash;
        source_metadata = document.source_metadata;
      }

  unfoldable pub number_from : SourceDocument → ℕ → List (List String) → List DocumentChunk
  unfolding to_chunk
  number_from document ordinal [] = []
  number_from document ordinal (window ∷ rest) =
      to_chunk document ordinal window ∷ number_from document (ordinal + 1) rest

  unfoldable pub chunk : DeterministicChunker → SourceDocument → List DocumentChunk
  unfolding number_from
  chunk chunker document = number_from document 0 (windows chunker (split document.content))

  chunk_made : Made DeterministicChunker → SourceDocument → Made (List DocumentChunk)
  chunk_made (Made.invalid e) document = Made.invalid e
  chunk_made (Made.made chunker) document = Made.made (chunk chunker document)

  unfoldable pub chunk_document : ℕ → ℕ → SourceDocument → Made (List DocumentChunk)
  unfolding chunk_made
  chunk_document chunk_size overlap document = chunk_made (new_chunker chunk_size overlap) document
