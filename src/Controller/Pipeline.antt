-- ===== src/Controller/Pipeline.antt =====
-- internal/controller/unstructureddatapipeline_controller.go: a pipeline has one resource for each
-- of its stages. The API server, with CreateOrUpdate, SetControllerReference and RetryOnConflict of
-- controller-runtime and client-go, is a parameter.
pub mod Reconcile
pub mod Children
pub mod Listing
pub mod Orphans
pub mod Applied
pub mod Invalid
mod Tests
use native.Mathlib.Decide.{ℕ_discrete}
use unstructured_data_contro.Api.Stages.{PipelineStage, validate_stages}
use unstructured_data_contro.Api.DoclingConfig.{DocumentProcessorConfig}
use unstructured_data_contro.Api.DoclingConfig.Sample.{empty_docling}
use unstructured_data_contro.Api.ChunksGenerator.{ChunksGeneratorConfig, config_as_encoded}
use unstructured_data_contro.Api.VectorEmbeddingsGenerator.{VectorEmbeddingsGeneratorConfig}
use unstructured_data_contro.Api.DestinationSyncer.{DestinationSyncerConfig}
use unstructured_data_contro.Api.SourceCrawler.{SourceCrawlerConfig}
use unstructured_data_contro.Api.UnstructuredDataPipeline.{
  StageType, source_crawler, document_processor, chunks_generator, vector_embeddings_generator,
  destination_syncer, StageConfig, crawl, convert, chunk, embed, sync, unknown, StageSpec,
  StageCreationStatus, UnstructuredDataPipeline, UnstructuredDataPipelineStatus, update_status,
}
use unstructured_data_contro.Controller.{Session, Kube, lift, status_patch}
use mathlib.Core.Option
use unstructured_data_contro.Controller.StageFrame.{Next, finished, requeue_after}
use unstructured_data_contro.Prelude.{
  ℕ, Text, codes, Bool, true, false, Option, none, some, List, [], ◌∷◌, ◌++◌, ◌==◌, Eq, nat_eq,
  list_eq, map, contains, not, if◌then◌else◌, Result, ok, err, Error, new_error, wrap, Io, pure,
  raise, attempt, ◌>>=◌, ◌>>◌,
}

stage_type_dec : Discrete StageType
stage_type_dec = hlevel ℕ_discrete

instance unfoldable pub stage_type_eq : Eq StageType
unfolding stage_type_dec
stage_type_eq = record { dec = stage_type_dec }

-- The spec of a resource of a stage.
pub data ChildSpec : Type 0 where
  source_crawler_spec : (stage_name secret_ref : Text) → List Text → SourceCrawlerConfig → ChildSpec
  document_processor_spec : (stage_name : Text) → List Text → DocumentProcessorConfig → ChildSpec
  chunks_generator_spec : (stage_name : Text) → List Text → ChunksGeneratorConfig → ChildSpec
  vector_embeddings_generator_spec :
      (stage_name : Text) → List Text → VectorEmbeddingsGeneratorConfig → ChildSpec
  destination_syncer_spec :
      (stage_name secret_ref : Text) → List Text → DestinationSyncerConfig → ChildSpec

-- A resource of a stage: its labels, the UID of its controller if it has one, and its spec.
pub record Child : Type 0 where
  pub labels : Text → Option Text
  pub controller : Option Text
  pub spec : Option ChildSpec

-- What is read back of a spec, and of a resource, that encoding/json has written. A configuration
-- of a chunks generator may have an empty slice, which is left out.
abbrev pub spec_as_encoded : ChildSpec → ChildSpec
spec_as_encoded spec = elim spec [
  | chunks_generator_spec name depends_on config ↦
      chunks_generator_spec name depends_on (config_as_encoded config)
  | other ↦ other
]

abbrev pub child_as_encoded : Child → Child
child_as_encoded c = record c { spec = Option.map spec_as_encoded c.spec }

-- The resources of the stages, in the namespace of the pipeline.
pub record Cluster (W : Type 0) : Type 0 where
  -- controllerutil.CreateOrUpdate with the function that changes the resource
  pub create_or_update : StageType → Text → (Child → Result Child) → Io W (Unit {0})
  -- controllerutil.SetControllerReference: an error if another controller owns the resource
  pub set_controller_reference : UnstructuredDataPipeline → Child → Result Child
  -- r.List by the label of the pipeline: the names
  pub list : StageType → Text → Io W (List Text)
  pub delete : StageType → Text → Io W (Unit {0})
  -- retry.RetryOnConflict around r.Get and r.Status().Update: whether an update went through
  pub update_latest : Io W (Unit {0})
  -- whether an update that fails has been applied all the same
  pub update_reached : W → Bool
  -- the order in which Go ranges over the map from types to names
  pub order : List (StageType × Text) → List (StageType × Text)

abbrev pub pipeline_label : Text
pipeline_label = codes "operator.dataverse.redhat.com/unstructured-data-pipeline"

abbrev pub child_cr_name : UnstructuredDataPipeline → Text → Text
child_cr_name pipeline stage = pipeline.name ++ codes "-" ++ stage

abbrev pub stage_type : StageConfig → Option StageType
stage_type (crawl c) = some source_crawler
stage_type (convert c) = some document_processor
stage_type (chunk c) = some chunks_generator
stage_type (embed c) = some vector_embeddings_generator
stage_type (sync c) = some destination_syncer
stage_type (unknown t) = none

-- ListStages
abbrev pub list_stages : List StageType
list_stages =
    source_crawler ∷ document_processor ∷ chunks_generator ∷ vector_embeddings_generator
    ∷ destination_syncer ∷ []

-- The empty configurations of Go.
abbrev pub empty_document_processor_config : DocumentProcessorConfig
empty_document_processor_config = record { type = []; docling_config = empty_docling }

abbrev pub empty_chunks_generator_config : ChunksGeneratorConfig
empty_chunks_generator_config = record {
  strategy = [];
  recursive_character_splitter_config = record {
    separators = none;
    chunk_size = 0;
    chunk_overlap = 0;
    keep_separator = false;
  };
  markdown_splitter_config = record {
    chunk_size = 0;
    chunk_overlap = 0;
    code_blocks = false;
    reference_links = false;
    heading_hierarchy = false;
    join_table_rows = false;
  };
  token_splitter_config = record {
    chunk_size = 0;
    chunk_overlap = 0;
    model_name = [];
    encoding_name = [];
    allowed_special = none;
    disallowed_special = none;
  };
}

abbrev pub empty_vector_embeddings_generator_config : VectorEmbeddingsGeneratorConfig
empty_vector_embeddings_generator_config = record {
  model_name = [];
  batch_size = 0;
  nomic_embed_text_v15_config = record { encoding_format = [] };
  gemini_embedding2_config = record { encoding_format = [] };
}

abbrev pub or_empty {ℓ} : {A : Type ℓ} → A → Option A → A
or_empty d none = d
or_empty d (some a) = a

-- The type and the spec of the resource that a stage asks for.
unfoldable pub child_of : UnstructuredDataPipeline → StageSpec → Result (StageType × ChildSpec)
child_of pipeline stage = elim stage.config [
  | crawl c ↦
      ok (source_crawler, source_crawler_spec stage.name pipeline.secret_ref stage.depends_on c)
  | convert c ↦ ok (
    document_processor,
    document_processor_spec stage.name stage.depends_on
        (or_empty empty_document_processor_config c),
  )
  | chunk c ↦ ok (
    chunks_generator,
    chunks_generator_spec stage.name stage.depends_on (or_empty empty_chunks_generator_config c),
  )
  | embed c ↦ ok (
    vector_embeddings_generator,
    vector_embeddings_generator_spec stage.name stage.depends_on
        (or_empty empty_vector_embeddings_generator_config c),
  )
  | sync c ↦ ok (
    destination_syncer,
    destination_syncer_spec stage.name pipeline.secret_ref stage.depends_on c,
  )
  | unknown t ↦ err (new_error (codes "unknown stage type: " ++ t))
]

abbrev pub type_name : StageType → Text
type_name source_crawler = codes "SourceCrawler"
type_name document_processor = codes "DocumentProcessor"
type_name chunks_generator = codes "ChunksGenerator"
type_name vector_embeddings_generator = codes "VectorEmbeddingsGenerator"
type_name destination_syncer = codes "DestinationSyncer"

abbrev pub put_label : Text → Text → (Text → Option Text) → Text → Option Text
put_label k v labels q = if q == k then some v else labels q

-- latest.Status.Stages with the stage marked
unfoldable pub put_created : Text → List StageCreationStatus → List StageCreationStatus
put_created name [] = record { name = name; created = true } ∷ []
put_created name (s ∷ stages) =
    let rest = put_created name stages in
    if s.name == name then record s { created = true } ∷ stages else s ∷ rest

unfoldable pub keep_active : List Text → List StageCreationStatus → List StageCreationStatus
keep_active names [] = []
keep_active names (s ∷ stages) =
    let rest = keep_active names stages in if contains names s.name then s ∷ rest else rest

-- expectedStages[stageType]
unfoldable pub expected_names : UnstructuredDataPipeline → StageType → List StageSpec → List Text
expected_names pipeline t [] = []
expected_names pipeline t (s ∷ stages) =
    let rest = expected_names pipeline t stages in
    elim (stage_type s.config) [
      | none ↦ rest
      | some u ↦ if u == t then child_cr_name pipeline s.name ∷ rest else rest
    ]

abbrev pub tagged : StageType → List Text → List (StageType × Text)
tagged t names = map (λ (n : Text). (t, n)) names
