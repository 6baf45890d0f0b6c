-- ===== src/Unstructured/EmbeddingsFile.antt =====
-- pkg/unstructured/embeddings_file.go: the embeddings of the chunks of a document. A vector is a
-- parameter.
use native.Mathlib.Decide.{ℕ_discrete}
use unstructured_data_contro.Api.VectorEmbeddingsGenerator.{
  NomicEmbedTextV15Config, GeminiEmbedding2Config,
}
use unstructured_data_contro.Unstructured.ConvertedFile
use unstructured_data_contro.Unstructured.ConvertedFile.{ConvertedFile, ConvertedFileMetadata}
use unstructured_data_contro.Unstructured.ChunksFile
use unstructured_data_contro.Unstructured.ChunksFile.{ChunksFileMetadata, metadata_as_encoded}
use unstructured_data_contro.Prelude.{
  Text, Bool, Option, List, ◌&&◌, ◌==◌, Eq, nat_eq, list_eq, ◌≡◌, true, arith,
}

pub record EmbeddingFileMetadata : Type 0 where
  pub converted_file_metadata : ConvertedFileMetadata
  pub chunk_file_metadata : ChunksFileMetadata
  pub model_name : Text
  pub nomic_embed_text_v15_config : NomicEmbedTextV15Config
  pub gemini_embedding2_config : GeminiEmbedding2Config

-- A chunks file as it is read: a part that is missing is `none`. No chunks and an empty list of
-- chunks are not told apart.
pub record ChunksDocument : Type 0 where
  pub metadata : ChunksFileMetadata
  pub text : List Text

pub record ReadChunks : Type 0 where
  pub converted_document : Option ConvertedFile
  pub chunks_document : Option ChunksDocument

pub record EmbeddingsFile (Vector : Type 0) : Type 0 where
  pub converted_document : ConvertedFile
  pub chunks_document : ChunksDocument
  pub metadata : EmbeddingFileMetadata
  pub embeddings : List (Text × Vector)

nomic_dec : Discrete NomicEmbedTextV15Config
nomic_dec = hlevel ℕ_discrete

instance unfoldable pub nomic_eq : Eq NomicEmbedTextV15Config
unfolding nomic_dec
nomic_eq = record { dec = nomic_dec }

gemini_dec : Discrete GeminiEmbedding2Config
gemini_dec = hlevel ℕ_discrete

instance unfoldable pub gemini_eq : Eq GeminiEmbedding2Config
unfolding gemini_dec
gemini_eq = record { dec = gemini_dec }

-- EmbeddingFileMetadata.Equal; cmp.Equal calls the Equal of the metadata in it.
unfoldable pub equal : EmbeddingFileMetadata → EmbeddingFileMetadata → Bool
equal c other =
    ConvertedFile.equal c.converted_file_metadata other.converted_file_metadata
    && ChunksFile.equal c.chunk_file_metadata other.chunk_file_metadata
    && c.model_name == other.model_name
    && c.nomic_embed_text_v15_config == other.nomic_embed_text_v15_config
    && c.gemini_embedding2_config == other.gemini_embedding2_config

pub equal_refl : (c : EmbeddingFileMetadata) → equal c c ≡ true
unfolding equal ConvertedFile.equal
equal_refl c = ground (arith, ChunksFile.equal_refl c.chunk_file_metadata)

-- What is read back of the metadata that encoding/json has written.
abbrev pub embedding_metadata_as_encoded : EmbeddingFileMetadata → EmbeddingFileMetadata
embedding_metadata_as_encoded c = record c {
  chunk_file_metadata = metadata_as_encoded c.chunk_file_metadata;
}

-- The metadata that is read back is the same if that of the chunks file is.
pub equal-embedding_metadata_as_encoded :
    (c : EmbeddingFileMetadata)
    → metadata_as_encoded c.chunk_file_metadata ≡ c.chunk_file_metadata
    → equal (embedding_metadata_as_encoded c) c ≡ true
unfolding equal ConvertedFile.equal
equal-embedding_metadata_as_encoded c h =
    ground (arith, h, ChunksFile.equal_refl c.chunk_file_metadata)
