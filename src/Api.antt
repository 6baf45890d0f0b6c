-- ===== src/Api.antt =====
-- api/v1alpha1: the resources that the controllers reconcile.
pub mod DoclingConfig
pub mod Condition
pub mod DocumentProcessor
pub mod Stages
pub mod UnstructuredDataPipeline
pub mod ChunksGenerator
pub mod VectorEmbeddingsGenerator
pub mod DestinationSyncer
pub mod SourceCrawler
mod Tests
