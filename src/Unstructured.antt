-- ===== src/Unstructured.antt =====
-- pkg/unstructured: the layout of the files of a pipeline, and where they come from and go to.
pub mod Layout
pub mod Codec
pub mod S3Source
pub mod S3Destination
pub mod ConvertedFile
pub mod ChunksFile
pub mod EmbeddingsFile
mod Tests
