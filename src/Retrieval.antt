-- ===== src/Retrieval.antt =====
-- app/domain/retrieval: documents and hits, chunking, rank fusion, cited answers and metrics.
pub mod Contracts
pub mod Chunking
pub mod Answers
pub mod Fusion
mod Tests
