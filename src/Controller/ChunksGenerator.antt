-- ===== src/Controller/ChunksGenerator.antt =====
-- internal/controller/chunksgenerator_controller.go: the converted documents of the stage before are
-- split into chunks.
pub mod Reconcile
pub mod Repeat
pub mod Counter
mod Tests
use unstructured_data_contro.Env.{Env}
use unstructured_data_contro.FileStore.{FileStore, exists, retrieve, store, list_files_in_path}
use unstructured_data_contro.Api.ChunksGenerator.{
  ChunksGenerator, ChunksGeneratorStatus, ChunksGeneratorConfig, recursive_character, markdown,
  token, set_defaults, set_waiting, update_status, add_files_processed,
}
use unstructured_data_contro.Unstructured.Codec.{Codec}
use unstructured_data_contro.Unstructured.Layout.{stage_path, remap_to_output_dir}
use unstructured_data_contro.Unstructured.ConvertedFile.{ConvertedFile}
use unstructured_data_contro.Unstructured.ChunksFile.{
  ChunksCodec, ChunksFile, ChunksFileMetadata, langchain_chunking_tool, equal,
}
use unstructured_data_contro.Controller.{Session, Kube, lift}
use unstructured_data_contro.Controller.StageFrame
use unstructured_data_contro.Controller.StageFrame.{
  Next, finished, requeue_after, StageResource, Storage, handle_error, or_handle, succeed,
}
use unstructured_data_contro.Langchain.{
  Options, SplitOption, Splitter, Splitting, chunk, convert_options_to_option_list,
  markdown_splitter, no_options, option_if, recursive_character_splitter, semaphore_acquire_error,
  split_if, token_splitter, with_allowed_special, with_chunk_overlap, with_chunk_size,
  with_code_blocks, with_disallowed_special, with_encoding_name, with_heading_hierarchy,
  with_join_table_rows, with_keep_separator, with_model_name, with_reference_links, with_separators,
}
use unstructured_data_contro.Prelude.{
  ℕ, suc, ◌+◌, Text, length, codes, Bool, true, false, Option, none, some, List, [], ◌∷◌, ◌++◌,
  ◌==◌, nat_eq, list_eq, not, contains_text, if◌then◌else◌, Result, ok, err, Error, new_error, Io,
  pure, raise, attempt, ◌>>=◌, ◌>>◌,
}

pub record Deps : Type 1 where
  pub env : Env
  pub splitting : Splitting env.World
  pub kube : Kube env.World ChunksGenerator ChunksGeneratorStatus
  pub converted_json : Codec ConvertedFile
  pub chunks_json : ChunksCodec

-- The splitter of a configuration with its options.
unfoldable pub chunker : ChunksGeneratorConfig → Result (Splitter × Options)
chunker c =
    if c.strategy == recursive_character
    then (let r = c.recursive_character_splitter_config in
        ok (
          recursive_character_splitter,
          record no_options {
            separators = r.separators;
            chunk_size = r.chunk_size;
            chunk_overlap = r.chunk_overlap;
            keep_separator = r.keep_separator;
          },
        ))
    else if c.strategy == markdown
    then (let m = c.markdown_splitter_config in
        ok (
          markdown_splitter,
          record no_options {
            chunk_size = m.chunk_size;
            chunk_overlap = m.chunk_overlap;
            code_blocks = m.code_blocks;
            reference_links = m.reference_links;
            keep_heading_hierarchy = m.heading_hierarchy;
            join_table_rows = m.join_table_rows;
          },
        ))
    else if c.strategy == token
    then (let t = c.token_splitter_config in
        ok (
          token_splitter,
          record no_options {
            chunk_size = t.chunk_size;
            chunk_overlap = t.chunk_overlap;
            model_name = t.model_name;
            encoding_name = t.encoding_name;
            allowed_special = t.allowed_special;
            disallowed_special = t.disallowed_special;
          },
        ))
    else err (new_error (codes "invalid strategy: " ++ c.strategy))

module _ (deps : Deps) (fs : FileStore deps.env) (config : ChunksGeneratorConfig)
    (input_path output_path : Text) where
  open deps.env use {World}

  abbrev pub chunks_path : Text → Text
  chunks_path path = remap_to_output_dir path input_path output_path

  -- The converted file at a path.
  unfoldable pub read_converted : Text → Io World ConvertedFile
  read_converted path = do
    bytes ← retrieve deps.env fs path
    λ w. (deps.converted_json.unmarshal bytes, w)

  abbrev pub wanted : ConvertedFile → ChunksFileMetadata
  wanted file = record {
    converted_file_metadata = file.metadata;
    chunking_tool = langchain_chunking_tool;
    chunks_generator_config = config;
  }

  abbrev pub outdated : ConvertedFile → Text → Bool → Io World Bool
  outdated file path false = pure true
  outdated file path true = do
    bytes ← retrieve deps.env fs (chunks_path path)
    chunks ← (λ w. (deps.chunks_json.unmarshal bytes, w))
    pure (not (equal chunks.metadata (wanted file)))

  unfoldable pub needs_chunking : Text → Io World Bool
  needs_chunking path = do
    file ← read_converted path
    there ← exists deps.env fs (chunks_path path)
    outdated file path there

  abbrev chunks_file : ConvertedFile → List Text → ChunksFile
  chunks_file file text = record { converted_document = file; metadata = wanted file; text = text }

  unfoldable pub chunk_file : Text → Io World ChunksFile
  chunk_file path = do
    file ← read_converted path
    chosen ← (λ w. (chunker config, w))
    text ← chunk deps.splitting chosen file.markdown
    pure (chunks_file file text)

  abbrev pub process_if : Text → Bool → Io World Bool
  process_if path false = pure false
  process_if path true = do
    file ← chunk_file path
    bytes ← (λ w. (deps.chunks_json.marshal file, w))
    store deps.env fs (chunks_path path) bytes
    pure true

  unfoldable pub process_converted_file : Text → Io World Bool
  process_converted_file path = do needed ← needs_chunking path; process_if path needed
