-- ===== src/Controller/ChunksGenerator/Tests.antt =====
-- The chunks generator in a world in memory with two converted documents, one of which cannot be
-- read.
use native.Mathlib.Decide.{ℕ_discrete}
use unstructured_data_contro.GoPath.{clean, join, dir}
use unstructured_data_contro.Env.Memory.{Memory, memory, memory_view, memory-Laws}
use unstructured_data_contro.FileStore.{
  FileStore, new, get_file_store_s3_client, exists, retrieve, store, make_parent,
  file_exists_in_cache, file_exists_in_s3, object_exists, local_path, list_files_in_path,
  list_objects_in_prefix, append_pages, sort_by_size,
}
use unstructured_data_contro.Api.DoclingConfig.Sample.{empty_docling}
use unstructured_data_contro.Api.DoclingConfig.{docling_config_eq}
use unstructured_data_contro.Api.ChunksGenerator.{
  ChunksGenerator, ChunksGeneratorStatus, ChunksGeneratorConfig, recursive_character, set_defaults,
  set_waiting, update_status, chunks_generator_config_eq, config_as_encoded,
}
use unstructured_data_contro.Unstructured.Codec.{Codec}
use unstructured_data_contro.Unstructured.Codec.Constant.{constant_codec}
use unstructured_data_contro.Unstructured.Layout.{stage_path, remap_to_output_dir}
use unstructured_data_contro.Unstructured.ConvertedFile.{ConvertedFile, document_converter_docling}
use unstructured_data_contro.Unstructured.ConvertedFile
use unstructured_data_contro.Unstructured.ChunksFile
use unstructured_data_contro.Unstructured.ChunksFile.{
  ChunksFile, file_as_encoded, langchain_chunking_tool, chunks_file_metadata_eq,
}
use unstructured_data_contro.Controller.{
  Session, Kube, status_patch, parent_pipeline_name_from_owner_reference,
}
use unstructured_data_contro.Controller.StageFrame
use unstructured_data_contro.Controller.StageFrame.{Storage, handle_error, wait_and_run}
use unstructured_data_contro.Controller.StageFrame.Outcomes.{MergeLaws, wakes_dependents}
use unstructured_data_contro.Controller.ChunksGenerator.{
  Deps, chunker, chunks_path, read_converted, needs_chunking, chunk_file, process_converted_file,
}
use unstructured_data_contro.Controller.ChunksGenerator.Reconcile.{
  process_files, run_files, run, reconcile,
}
use unstructured_data_contro.Langchain.{Splitting, chunk}
use unstructured_data_contro.Controller.ChunksGenerator.Repeat.{
  SplittingLaws, needs_chunking-process_converted_file,
}
use unstructured_data_contro.Controller.ChunksGenerator.Counter.{
  files, tally, Late, reconcile_failed-wakes_dependents, run_files_failed-wakes_dependents,
}
use unstructured_data_contro.Prelude.{
  Text, codes, true, false, none, some, [], ◌∷◌, ◌==◌, Eq, Error, ok, err, new_error, pure, ◌≡◌,
  ◌≢◌, refl, arith, ne_of_test, nat_eq, list_eq, if◌then◌else◌, trim_prefix, cut_prefix, has_prefix,
  contains_text, not, Text, List, ◌⊎◌,
}

abbrev config : ChunksGeneratorConfig
config = record {
  strategy = recursive_character;
  recursive_character_splitter_config = record {
    separators = none;
    chunk_size = 1000;
    chunk_overlap = 200;
    keep_separator = false;
  };
  markdown_splitter_config = record {
    chunk_size = 0;
    chunk_overlap = 0;
    code_blocks = false;
    reference_links = false;
    heading_hierarchy = false;
    join_table_rows = false;
  };
  token_splitter_config = record {
    chunk_size = 0;
    chunk_overlap = 0;
    model_name = [];
    encoding_name = [];
    allowed_special = none;
    disallowed_special = none;
  };
}

abbrev document : ConvertedFile
document = record {
  metadata = record {
    raw_file_path = codes "a";
    file_identifier = codes "u";
    document_converter = document_converter_docling;
    docling_config = empty_docling;
  };
  markdown = codes "T";
}

abbrev chunked : ChunksFile
chunked = record {
  converted_document = document;
  metadata = record {
    converted_file_metadata = document.metadata;
    chunking_tool = langchain_chunking_tool;
    chunks_generator_config = config;
  };
  text = codes "T" ∷ [];
}

document_dec : Discrete ConvertedFile
document_dec = hlevel ℕ_discrete

instance unfoldable document_eq : Eq ConvertedFile
unfolding document_dec
document_eq = record { dec = document_dec }

chunked_dec : Discrete ChunksFile
chunked_dec = hlevel ℕ_discrete

instance unfoldable chunked_eq : Eq ChunksFile
unfolding chunked_dec
chunked_eq = record { dec = chunked_dec }

abbrev splitting : Splitting Memory
splitting = record {
  try_acquire = λ w. (true, w);
  release = λ w. w;
  split_text = λ s o t. ok (t ∷ []);
}

abbrev no_status : ChunksGeneratorStatus
no_status = record { last_applied_generation = 0; conditions = []; files_processed = 0 }

abbrev generator : ChunksGenerator
generator = record {
  name = codes "p-c";
  namespace = codes "n";
  owner_references = record { name = codes "p"; is_controller = true } ∷ [];
  generation = 1;
  stage_name = codes "c";
  depends_on = codes "d" ∷ [];
  config = config;
  status = no_status;
}

-- A counter that the target leaves alone stays as the server has it.
abbrev merged :
    ChunksGeneratorStatus → ChunksGeneratorStatus → ChunksGeneratorStatus → ChunksGeneratorStatus
merged base target server = record target {
  files_processed =
      if target.files_processed == base.files_processed
      then server.files_processed
      else target.files_processed;
}

abbrev kube : Kube Memory ChunksGenerator ChunksGeneratorStatus
kube = record {
  is_config_healthy = pure true;
  get = λ s. pure (record generator { status = s });
  patch_status = pure tt;
  patch_reached = λ w. false;
  merge_patch = merged;
  now = pure (codes "2025-01-01T00:00:00Z");
}

kube-MergeLaws : MergeLaws kube files
kube-MergeLaws = record { unsent = λ base target server e. ground arith }

abbrev known_file : Codec ChunksFile
known_file = constant_codec chunked (codes "C")

chunks_read_back :
    (f : ChunksFile) (t : Text)
    → known_file.marshal f ≡ ok t
    → known_file.unmarshal t ≡ ok (file_as_encoded f)
chunks_read_back f t h = ground arith

abbrev deps : Deps
deps = record {
  env = memory;
  splitting = splitting;
  kube = kube;
  converted_json = constant_codec document (codes "D");
  chunks_json = record {
    marshal = known_file.marshal;
    unmarshal = known_file.unmarshal;
    unmarshal-marshal = chunks_read_back;
  };
}

splitting-SplittingLaws : SplittingLaws deps memory_view
splitting-SplittingLaws = record {
  try_acquire-Same = λ w. record { disk = λ q. refl; object = λ h k. refl };
  release-Same = λ w. record { disk = λ q. refl; object = λ h k. refl };
}

abbrev world : Memory
world = record {
  files = λ p. none;
  objects = λ k.
      if k == codes "pipelines/p/stages/d/a.json"
      then some (codes "D")
      else if k == codes "pipelines/p/stages/d/b.json"
      then some (codes "{")
      else none;
  keys = codes "pipelines/p/stages/d/a.json" ∷ codes "pipelines/p/stages/d/b.json" ∷ [];
  reachable = true;
}

abbrev fs : FileStore memory
fs = record { root = codes "/t"; s3 = tt }

abbrev input_path : Text
input_path = codes "pipelines/p/stages/d/"

abbrev output_path : Text
output_path = codes "pipelines/p/stages/c/"

abbrev path : Text
path = codes "pipelines/p/stages/d/a.json"

apart :
    clean (local_path memory fs path)
    ≢ clean (local_path memory fs (chunks_path deps fs config input_path output_path path))
unfolding local_path join remap_to_output_dir trim_prefix cut_prefix nat_eq list_eq
apart = ne_of_test _ _ refl

processed : (process_converted_file deps fs config input_path output_path path world).0 ≡ ok true
unfolding process_converted_file needs_chunking chunk_file read_converted exists retrieve store
    make_parent file_exists_in_cache file_exists_in_s3 object_exists local_path join dir
    remap_to_output_dir trim_prefix cut_prefix chunker chunk document_eq chunked_eq nat_eq list_eq
processed = refl

abbrev after : Memory
after = (process_converted_file deps fs config input_path output_path path world).1

asked_again : (needs_chunking deps fs config input_path output_path path after).0 ≡ ok false
unfolding process_converted_file needs_chunking chunk_file read_converted exists retrieve store
    make_parent file_exists_in_cache file_exists_in_s3 object_exists local_path join dir
    remap_to_output_dir trim_prefix cut_prefix chunker chunk document_eq chunked_eq
    chunks_file_metadata_eq ChunksFile.equal ConvertedFile.equal chunks_generator_config_eq
    docling_config_eq nat_eq list_eq
asked_again = refl

needs_chunking-process_converted_file_example : false ≡ not (config_as_encoded config == config)
needs_chunking-process_converted_file_example =
    needs_chunking-process_converted_file deps memory_view memory-Laws splitting-SplittingLaws fs
      config input_path output_path path apart false world processed asked_again

abbrev storage : Storage (Unit {0})
storage = record { data_storage_directory = codes "/t"; file_store_client = some tt }

abbrev start : Session Memory ChunksGenerator ChunksGeneratorStatus
start = record { cr = generator; server = no_status; world = world }

abbrev failure : Error
failure = new_error (codes "failed to chunk some files: [invalid character]")

-- Of the two documents one is chunked, and the other fails.
fails : (reconcile deps storage start).0 ≡ err failure
unfolding reconcile run StageFrame.reconcile wait_and_run new get_file_store_s3_client handle_error
    status_patch parent_pipeline_name_from_owner_reference set_waiting update_status set_defaults
    stage_path process_files list_files_in_path list_objects_in_prefix append_pages sort_by_size
    process_converted_file needs_chunking chunk_file read_converted exists retrieve store
    make_parent file_exists_in_cache file_exists_in_s3 object_exists local_path join dir
    remap_to_output_dir trim_prefix cut_prefix chunker chunk document_eq chunked_eq nat_eq list_eq
    has_prefix contains_text
fails = refl

reconcile_failed-wakes_dependents_example :
    (wakes_dependents 0 (reconcile deps storage start).1.server.files_processed ≡ false)
    ⊎ Late deps storage kube-MergeLaws (reconcile deps storage start).1.world
reconcile_failed-wakes_dependents_example =
    reconcile_failed-wakes_dependents deps storage kube-MergeLaws start failure fails

abbrev both : List Text
both = path ∷ codes "pipelines/p/stages/d/b.json" ∷ []

one_fails :
    (tally deps storage kube-MergeLaws fs input_path output_path both start).errors
    ≡ new_error (codes "invalid character") ∷ []
unfolding process_files process_converted_file needs_chunking chunk_file read_converted exists
    retrieve store make_parent file_exists_in_cache file_exists_in_s3 object_exists local_path join
    dir remap_to_output_dir trim_prefix cut_prefix chunker chunk document_eq chunked_eq nat_eq
    list_eq has_prefix contains_text
one_fails = refl

some_error : (tally deps storage kube-MergeLaws fs input_path output_path both start).errors ≢ []
some_error h = absurd (ground (arith, one_fails, h))

run_files_failed-wakes_dependents_example :
    wakes_dependents 0
      (run_files deps storage fs input_path output_path both start).1.server.files_processed
    ≡ false
run_files_failed-wakes_dependents_example =
    run_files_failed-wakes_dependents deps storage kube-MergeLaws fs input_path output_path both
      start some_error
