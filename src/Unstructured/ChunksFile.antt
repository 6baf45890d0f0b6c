-- ===== src/Unstructured/ChunksFile.antt =====
-- pkg/unstructured/chunks_file.go and chunking.go: the chunks of a converted document. The chunks
-- and their metadata are pointers that every writer sets, and plain fields here.
use native.Mathlib.Decide.{ℕ_discrete}
use unstructured_data_contro.Api.ChunksGenerator.{
  ChunksGeneratorConfig, chunks_generator_config_eq, config_as_encoded,
}
use unstructured_data_contro.Unstructured.ConvertedFile
use unstructured_data_contro.Unstructured.ConvertedFile.{ConvertedFile, ConvertedFileMetadata}
use unstructured_data_contro.Prelude.{
  Text, codes, Bool, List, ◌&&◌, ◌==◌, Eq, nat_eq, list_eq, ◌≡◌, true, arith, Result, ok,
}

abbrev pub langchain_chunking_tool : Text
langchain_chunking_tool = codes "langchain"

pub record ChunksFileMetadata : Type 0 where
  pub converted_file_metadata : ConvertedFileMetadata
  pub chunking_tool : Text
  pub chunks_generator_config : ChunksGeneratorConfig

-- ConvertedDocument is the metadata and the content of a converted file.
pub record ChunksFile : Type 0 where
  pub converted_document : ConvertedFile
  pub metadata : ChunksFileMetadata
  pub text : List Text

-- ChunksFileMetadata.Equal
unfoldable pub equal : ChunksFileMetadata → ChunksFileMetadata → Bool
unfolding ConvertedFile.equal
equal c other =
    ConvertedFile.equal c.converted_file_metadata other.converted_file_metadata
    && c.chunking_tool == other.chunking_tool
    && c.chunks_generator_config == other.chunks_generator_config

pub equal_refl : (c : ChunksFileMetadata) → equal c c ≡ true
unfolding equal
equal_refl c = ground arith

chunks_file_metadata_dec : Discrete ChunksFileMetadata
chunks_file_metadata_dec = hlevel ℕ_discrete

-- cmp.Equal of two metadata
instance unfoldable pub chunks_file_metadata_eq : Eq ChunksFileMetadata
unfolding chunks_file_metadata_dec
chunks_file_metadata_eq = record { dec = chunks_file_metadata_dec }

-- What is read back of the metadata that encoding/json has written.
abbrev pub metadata_as_encoded : ChunksFileMetadata → ChunksFileMetadata
metadata_as_encoded c = record c {
  chunks_generator_config = config_as_encoded c.chunks_generator_config;
}

abbrev pub file_as_encoded : ChunksFile → ChunksFile
file_as_encoded f = record f { metadata = metadata_as_encoded f.metadata }

-- The metadata that is read back is the same if the configuration is.
pub equal-metadata_as_encoded :
    (c : ChunksFileMetadata)
    → equal (metadata_as_encoded c) c
      ≡ (config_as_encoded c.chunks_generator_config == c.chunks_generator_config)
unfolding equal
equal-metadata_as_encoded c = ground arith

-- json.Marshal and json.Unmarshal of a chunks file. An empty slice of the configuration is read
-- back as nil.
pub record ChunksCodec : Type 0 where
  pub marshal : ChunksFile → Result Text
  pub unmarshal : Text → Result ChunksFile
  pub unmarshal-marshal :
      (f : ChunksFile) (t : Text) → marshal f ≡ ok t → unmarshal t ≡ ok (file_as_encoded f)
