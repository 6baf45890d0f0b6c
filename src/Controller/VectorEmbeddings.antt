-- ===== src/Controller/VectorEmbeddings.antt =====
-- internal/controller/vectorembeddingsgenerator_controller.go: the chunks of the stage before are
-- sent to the embedding API in batches.
pub mod Reconcile
pub mod Batches
pub mod Requests
pub mod Repeat
mod Tests
use unstructured_data_contro.Env.{Env}
use unstructured_data_contro.FileStore.{FileStore, exists, retrieve, store, list_files_in_path}
use unstructured_data_contro.Embedding.{EmbeddingService, generate_embeddings}
use unstructured_data_contro.Api.VectorEmbeddingsGenerator.{
  VectorEmbeddingsGenerator, VectorEmbeddingsGeneratorStatus, VectorEmbeddingsGeneratorConfig,
  set_defaults, set_waiting, update_status, add_files_processed,
}
use unstructured_data_contro.Unstructured.Codec.{Codec}
use unstructured_data_contro.Unstructured.Layout.{stage_path, remap_to_output_dir}
use unstructured_data_contro.Unstructured.ConvertedFile.{ConvertedFile}
use unstructured_data_contro.Unstructured.EmbeddingsFile.{
  EmbeddingFileMetadata, ChunksDocument, ReadChunks, EmbeddingsFile, equal,
  embedding_metadata_as_encoded,
}
use unstructured_data_contro.Controller.{Session, Kube, lift}
use unstructured_data_contro.Controller.StageFrame
use unstructured_data_contro.Controller.StageFrame.{
  Next, finished, StageResource, Storage, handle_error, or_handle, succeed,
}
use unstructured_data_contro.Prelude.{
  ℕ, zero, suc, ◌+◌, Text, codes, Bool, true, false, Option, none, some, List, [], ◌∷◌, ◌++◌, ◌==◌,
  nat_eq, list_eq, not, length, decimal, if◌then◌else◌, Result, ok, err, Error, new_error, Io, pure,
  raise, attempt, ◌≡◌, ◌>>=◌, ◌>>◌,
}

-- ModelCredentials
pub record ModelCredentials : Type 0 where
  pub endpoint : Text
  pub api_key : Text

-- The codec of an embeddings file: what is read of one is its metadata, if it has any, where an
-- empty slice of a configuration is read back as nil.
pub record EmbeddingsCodec (Vector : Type 0) : Type 0 where
  pub marshal : EmbeddingsFile Vector → Result Text
  pub unmarshal : Text → Result (Option EmbeddingFileMetadata)
  pub unmarshal-marshal :
      (file : EmbeddingsFile Vector) (t : Text)
      → marshal file ≡ ok t
      → unmarshal t ≡ ok (some (embedding_metadata_as_encoded file.metadata))

pub record Deps : Type 1 where
  pub env : Env
  pub Vector : Type 0
  pub service : EmbeddingService env.World Vector
  pub kube : Kube env.World VectorEmbeddingsGenerator VectorEmbeddingsGeneratorStatus
  pub chunks_json : Text → Result ReadChunks
  pub embeddings_json : EmbeddingsCodec Vector
  -- embeddingModelCredentials, which the ControllerConfig reconciler fills
  pub credentials : Text → Option ModelCredentials

-- texts[start:], as far as `n` texts, and what is behind them
abbrev pub take_batch : ℕ → List Text → List Text
take_batch zero texts = []
take_batch (suc n) [] = []
take_batch (suc n) (t ∷ texts) = t ∷ take_batch n texts

abbrev pub drop_batch : ℕ → List Text → List Text
drop_batch zero texts = texts
drop_batch (suc n) [] = []
drop_batch (suc n) (t ∷ texts) = drop_batch n texts

-- The slices that the loop over batchStart goes through. The fuel runs out (`none`) only where the
-- loop does not end.
unfoldable pub batches : ℕ → ℕ → List Text → Option (List (List Text))
batches fuel size [] = some []
batches zero size (t ∷ texts) = none
batches (suc fuel) size (t ∷ texts) = elim (batches fuel size (drop_batch size (t ∷ texts))) [
  | none ↦ none
  | some rest ↦ some (take_batch size (t ∷ texts) ∷ rest)
]

module _ (deps : Deps) (fs : FileStore deps.env) (config : VectorEmbeddingsGeneratorConfig)
    (input_path output_path : Text) where
  open deps use {Vector}
  open deps.env use {World}

  abbrev pub embeddings_path : Text → Text
  embeddings_path path = remap_to_output_dir path input_path output_path

  unfoldable pub read_chunks : Text → Io World ReadChunks
  read_chunks path = do bytes ← retrieve deps.env fs path; λ w. (deps.chunks_json bytes, w)

  abbrev pub wanted : ConvertedFile → ChunksDocument → EmbeddingFileMetadata
  wanted file chunks = record {
    converted_file_metadata = file.metadata;
    chunk_file_metadata = chunks.metadata;
    model_name = config.model_name;
    nomic_embed_text_v15_config = config.nomic_embed_text_v15_config;
    gemini_embedding2_config = config.gemini_embedding2_config;
  }

  -- The metadata to compare with, which dereferences both parts of the chunks file.
  abbrev pub wanted_of : ReadChunks → Result EmbeddingFileMetadata
  wanted_of chunks = elim chunks.converted_document [
    | none ↦ err (new_error (codes "nil pointer dereference"))
    | some file ↦ elim chunks.chunks_document [
      | none ↦ err (new_error (codes "nil pointer dereference"))
      | some document ↦ ok (wanted file document)
    ]
  ]

  -- A file that cannot be read as an embeddings file is embedded again.
  abbrev pub outdated : ReadChunks → Result (Option EmbeddingFileMetadata) → Result Bool
  outdated chunks (err e) = ok true
  outdated chunks (ok none) = ok true
  outdated chunks (ok (some current)) = elim (wanted_of chunks) [
    | err e ↦ err e
    | ok metadata ↦ ok (not (equal current metadata))
  ]

  abbrev pub outdated_if : ReadChunks → Text → Bool → Io World Bool
  outdated_if chunks path false = pure true
  outdated_if chunks path true = do
    bytes ← retrieve deps.env fs (embeddings_path path)
    λ w. (outdated chunks (deps.embeddings_json.unmarshal bytes), w)

  abbrev pub needs_if : Text → Bool → Io World Bool
  needs_if path false = raise (new_error (codes "chunked file " ++ path ++ codes " does not exist"))
  needs_if path true = do
    chunks ← read_chunks path
    there ← exists deps.env fs (embeddings_path path)
    outdated_if chunks path there

  unfoldable pub needs_embedding : Text → Io World Bool
  needs_embedding path = do there ← exists deps.env fs path; needs_if path there

  -- The switch on the name of the model.
  unfoldable pub encoding_format : Result Text
  encoding_format =
      if config.model_name == codes "gemini-embedding-2"
      then ok config.gemini_embedding2_config.encoding_format
      else if config.model_name == codes "nomic-ai/nomic-embed-text-v1.5"
      then ok config.nomic_embed_text_v15_config.encoding_format
      else err (new_error (codes "unsupported model for encoding format: " ++ config.model_name))

  abbrev pub credentials_of : Result ModelCredentials
  credentials_of = elim (deps.credentials config.model_name) [
    | none ↦ err (new_error (codes "unsupported embedding model: " ++ config.model_name))
    | some creds ↦ ok creds
  ]

  abbrev pub generate : ModelCredentials → Text → List Text → Io World (List Vector)
  generate creds format batch =
      generate_embeddings deps.service
        (record {
          endpoint = creds.endpoint;
          auth_format = codes "Bearer";
          api_key = creds.api_key;
          model_name = config.model_name;
        })
        batch format

  -- allEmbeddings = append(allEmbeddings, embeddingResult.Embeddings...)
  unfoldable pub embed_batches :
      ModelCredentials → Text → List (List Text) → List Vector → Io World (List Vector)
  embed_batches creds format [] vectors = pure vectors
  embed_batches creds format (batch ∷ rest) vectors = do
    got ← generate creds format batch
    embed_batches creds format rest (vectors ++ got)

  -- Each text with the vector at its place; the lengths are equal where this is used.
  abbrev pub paired : List Text → List Vector → List (Text × Vector)
  paired [] vectors = []
  paired (t ∷ texts) [] = []
  paired (t ∷ texts) (v ∷ vectors) = (t, v) ∷ paired texts vectors

  abbrev pub counted : List Text → List Vector → Result (List (Text × Vector))
  counted texts vectors =
      if length vectors == length texts
      then ok (paired texts vectors)
      else err (
          new_error (
            codes "embedding count mismatch: expected "
            ++ decimal (length texts)
            ++ codes ", got "
            ++ decimal (length vectors)))

  -- A loop that does not end has no result; `none` stands for it as an error.
  abbrev pub batched : Option (List (List Text)) → Result (List (List Text))
  batched none = err (new_error (codes "the loop over the batches does not end"))
  batched (some slices) = ok slices

  abbrev pub embed_document : ConvertedFile → ChunksDocument → Io World (EmbeddingsFile Vector)
  embed_document file chunks = do
    creds ← (λ w. (credentials_of, w))
    format ← (λ w. (encoding_format, w))
    slices ← (λ w. (batched (batches (length chunks.text) config.batch_size chunks.text), w))
    vectors ← embed_batches creds format slices []
    pairs ← (λ w. (counted chunks.text vectors, w))
    pure (record {
      converted_document = file;
      chunks_document = chunks;
      metadata = wanted file chunks;
      embeddings = pairs;
    })

  abbrev pub store_document : Text → ConvertedFile → ChunksDocument → Io World Bool
  store_document path file chunks = do
    embedded ← embed_document file chunks
    bytes ← (λ w. (deps.embeddings_json.marshal embedded, w))
    store deps.env fs (embeddings_path path) bytes
    pure true

  -- A chunks file that lacks a part is an error, and one without chunks is passed over.
  abbrev pub embed_chunks : Text → Option ConvertedFile → Option ChunksDocument → Io World Bool
  embed_chunks path (some file) (some chunks) =
      if length chunks.text == 0 then pure false else store_document path file chunks
  embed_chunks path (some file) none =
      raise (new_error (codes "invalid chunks file structure: missing required fields"))
  embed_chunks path none chunks =
      raise (new_error (codes "invalid chunks file structure: missing required fields"))

  abbrev pub process_if : Text → Bool → Io World Bool
  process_if path false = pure false
  process_if path true = do
    chunks ← read_chunks path
    embed_chunks path chunks.converted_document chunks.chunks_document

  unfoldable pub process_chunked_file : Text → Io World Bool
  process_chunked_file path = do needed ← needs_embedding path; process_if path needed
