-- ===== src/Api/UnstructuredDataPipeline.antt =====
-- `UnstructuredDataPipeline` of api/v1alpha1/unstructureddatapipeline_types.go.
use unstructured_data_contro.Api.Condition.{
  Condition, put_condition, waiting, outcome_condition, applied_generation,
}
use unstructured_data_contro.Api.DocumentProcessor.{document_processor_condition}
use unstructured_data_contro.Api.DoclingConfig.{DocumentProcessorConfig}
use unstructured_data_contro.Api.ChunksGenerator.{ChunksGeneratorConfig, chunks_generator_condition}
use unstructured_data_contro.Api.VectorEmbeddingsGenerator.{
  VectorEmbeddingsGeneratorConfig, vector_embedding_generation_condition_type,
}
use unstructured_data_contro.Api.DestinationSyncer.{
  DestinationSyncerConfig, destination_syncer_condition,
}
use unstructured_data_contro.Api.SourceCrawler.{SourceCrawlerConfig, source_crawler_condition}
use unstructured_data_contro.Prelude.{ℕ, Text, codes, Option, none, some, Bool, List, [], Error}

pub data StageType : Type 0 where
  source_crawler document_processor chunks_generator : StageType
  vector_embeddings_generator destination_syncer : StageType

-- The type of a stage with the section that goes with it. The API server keeps the section of a
-- source crawler and of a destination syncer from being absent (XValidation).
pub data StageConfig : Type 0 where
  crawl : SourceCrawlerConfig → StageConfig
  convert : Option DocumentProcessorConfig → StageConfig
  chunk : Option ChunksGeneratorConfig → StageConfig
  embed : Option VectorEmbeddingsGeneratorConfig → StageConfig
  sync : DestinationSyncerConfig → StageConfig
  unknown : Text → StageConfig

-- An entry of spec.stages: PipelineStage, less the query section, which no controller reads.
pub record StageSpec : Type 0 where
  pub name : Text
  pub depends_on : List Text
  pub config : StageConfig

pub record StageCreationStatus : Type 0 where
  pub name : Text
  pub created : Bool

pub record UnstructuredDataPipelineStatus : Type 0 where
  pub last_applied_generation : ℕ
  pub conditions : List Condition
  pub stages : List StageCreationStatus

pub record UnstructuredDataPipeline : Type 0 where
  pub name : Text
  pub namespace : Text
  pub generation : ℕ
  pub secret_ref : Text
  pub stages : List StageSpec
  pub status : UnstructuredDataPipelineStatus

abbrev pub unstructured_data_pipeline_condition : Text
unstructured_data_pipeline_condition = codes "UnstructuredDataPipelineReady"

unfoldable pub update_status :
    Text → Option Error → UnstructuredDataPipeline → UnstructuredDataPipeline
update_status message e c = record c {
  status = record c.status {
    last_applied_generation = applied_generation c.generation c.status.last_applied_generation e;
    conditions =
        put_condition (outcome_condition unstructured_data_pipeline_condition message e)
          c.status.conditions;
  };
}

unfoldable pub set_waiting : UnstructuredDataPipeline → UnstructuredDataPipeline
set_waiting c = record c {
  status = record c.status {
    conditions =
        put_condition
          (waiting unstructured_data_pipeline_condition
            (codes "UnstructuredDataPipeline is getting reconciled"))
          c.status.conditions;
  };
}

-- ConditionTypeForStage of api/v1alpha1/stages_utils.go; another type has the empty condition.
unfoldable pub condition_type_for_stage : Option StageType → Text
condition_type_for_stage (some source_crawler) = source_crawler_condition
condition_type_for_stage (some document_processor) = document_processor_condition
condition_type_for_stage (some chunks_generator) = chunks_generator_condition
condition_type_for_stage (some vector_embeddings_generator) =
    vector_embedding_generation_condition_type
condition_type_for_stage (some destination_syncer) = destination_syncer_condition
condition_type_for_stage none = []
