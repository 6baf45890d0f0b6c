-- ===== src/Api/VectorEmbeddingsGenerator.antt =====
-- `VectorEmbeddingsGenerator` of api/v1alpha1/vectorembeddingsgenerator_types.go.
use unstructured_data_contro.Api.Condition.{
  Condition, put_condition, waiting, outcome_condition, applied_generation,
}
use unstructured_data_contro.Api.DocumentProcessor.{OwnerReference}
use unstructured_data_contro.Prelude.{
  ℕ, ◌+◌, Text, codes, Option, List, [], ◌==◌, nat_eq, list_eq, if◌then◌else◌, Error,
}

pub record NomicEmbedTextV15Config : Type 0 where
  pub encoding_format : Text

pub record GeminiEmbedding2Config : Type 0 where
  pub encoding_format : Text

-- A batch size below 1 is the number 0 here.
pub record VectorEmbeddingsGeneratorConfig : Type 0 where
  pub model_name : Text
  pub batch_size : ℕ
  pub nomic_embed_text_v15_config : NomicEmbedTextV15Config
  pub gemini_embedding2_config : GeminiEmbedding2Config

unfoldable pub set_defaults : VectorEmbeddingsGeneratorConfig → VectorEmbeddingsGeneratorConfig
set_defaults c = record c {
  model_name = if c.model_name == [] then codes "nomic-ai/nomic-embed-text-v1.5" else c.model_name;
  batch_size = if c.batch_size == 0 then 1000 else c.batch_size;
}

pub record VectorEmbeddingsGeneratorStatus : Type 0 where
  pub last_applied_generation : ℕ
  pub conditions : List Condition
  pub files_processed : ℕ

pub record VectorEmbeddingsGenerator : Type 0 where
  pub name : Text
  pub namespace : Text
  pub owner_references : List OwnerReference
  pub generation : ℕ
  pub stage_name : Text
  pub depends_on : List Text
  pub config : VectorEmbeddingsGeneratorConfig
  pub status : VectorEmbeddingsGeneratorStatus

abbrev pub vector_embedding_generation_condition_type : Text
vector_embedding_generation_condition_type = codes "VectorEmbeddingGenerationReady"

unfoldable pub set_waiting : VectorEmbeddingsGenerator → VectorEmbeddingsGenerator
set_waiting c = record c {
  status = record c.status {
    conditions =
        put_condition
          (waiting vector_embedding_generation_condition_type
            (codes "VectorEmbeddingsGenerator is getting reconciled"))
          c.status.conditions;
  };
}

unfoldable pub update_status :
    Text → Option Error → VectorEmbeddingsGenerator → VectorEmbeddingsGenerator
update_status message e c = record c {
  status = record c.status {
    last_applied_generation = applied_generation c.generation c.status.last_applied_generation e;
    conditions =
        put_condition (outcome_condition vector_embedding_generation_condition_type message e)
          c.status.conditions;
  };
}

-- Status.FilesProcessed += n
abbrev pub add_files_processed : ℕ → VectorEmbeddingsGenerator → VectorEmbeddingsGenerator
add_files_processed n c = record c {
  status = record c.status { files_processed = c.status.files_processed + n };
}
