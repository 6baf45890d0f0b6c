-- ===== src/Controller/VectorEmbeddings/Tests.antt =====
-- The embedding of documents in a world in memory, with a service that answers each text with its
-- length.
use native.Mathlib.Decide.{ℕ_discrete}
use unstructured_data_contro.GoPath.{clean, join, dir}
use unstructured_data_contro.Env.Memory.{Memory, memory, memory_view, memory-Laws}
use unstructured_data_contro.FileStore.{
  FileStore, exists, retrieve, store, make_parent, file_exists_in_cache, file_exists_in_s3,
  object_exists, local_path,
}
use unstructured_data_contro.Api.DoclingConfig.Sample.{empty_docling}
use unstructured_data_contro.Api.DoclingConfig.{docling_config_eq}
use unstructured_data_contro.Api.ChunksGenerator.{
  ChunksGeneratorConfig, recursive_character, chunks_generator_config_eq,
}
use unstructured_data_contro.Api.VectorEmbeddingsGenerator.{
  VectorEmbeddingsGenerator, VectorEmbeddingsGeneratorStatus, VectorEmbeddingsGeneratorConfig,
  set_defaults,
}
use unstructured_data_contro.Embedding.{EmbeddingService, generate_embeddings}
use unstructured_data_contro.Unstructured.Layout.{remap_to_output_dir}
use unstructured_data_contro.Unstructured.ConvertedFile
use unstructured_data_contro.Unstructured.ConvertedFile.{ConvertedFile, document_converter_docling}
use unstructured_data_contro.Unstructured.ChunksFile
use unstructured_data_contro.Unstructured.ChunksFile.{langchain_chunking_tool}
use unstructured_data_contro.Unstructured.EmbeddingsFile
use unstructured_data_contro.Unstructured.EmbeddingsFile.{
  embedding_metadata_as_encoded, EmbeddingFileMetadata, ChunksDocument, ReadChunks, EmbeddingsFile,
  nomic_eq, gemini_eq,
}
use unstructured_data_contro.Controller.{Kube}
use unstructured_data_contro.Controller.VectorEmbeddings.{
  ModelCredentials, Deps, batches, embeddings_path, read_chunks, needs_embedding, encoding_format,
  generate, embed_batches, embed_document, process_chunked_file,
}
use unstructured_data_contro.Controller.VectorEmbeddings.Batches.{
  concat, Bounded, batches-set_defaults, embeddings-embed_document,
}
use unstructured_data_contro.Controller.VectorEmbeddings.Requests.{ServiceLaws}
use unstructured_data_contro.Controller.VectorEmbeddings.Repeat.{
  HasEmptySlice, needs_embedding-process_chunked_file,
}
use unstructured_data_contro.Prelude.{
  ◌⊎◌, ℕ, Text, codes, true, false, Option, none, some, List, [], ◌∷◌, ◌==◌, map, length, Eq, ok,
  err, new_error, pure, Result, ◌≡◌, ◌≢◌, refl, arith, nat_eq, list_eq, ne_of_test, if◌then◌else◌,
  trim_prefix, cut_prefix,
}

abbrev chunking : ChunksGeneratorConfig
chunking = record {
  strategy = recursive_character;
  recursive_character_splitter_config = record {
    separators = none;
    chunk_size = 1000;
    chunk_overlap = 200;
    keep_separator = false;
  };
  markdown_splitter_config = record {
    chunk_size = 0;
    chunk_overlap = 0;
    code_blocks = false;
    reference_links = false;
    heading_hierarchy = false;
    join_table_rows = false;
  };
  token_splitter_config = record {
    chunk_size = 0;
    chunk_overlap = 0;
    model_name = [];
    encoding_name = [];
    allowed_special = none;
    disallowed_special = none;
  };
}

abbrev document : ConvertedFile
document = record {
  metadata = record {
    raw_file_path = codes "a";
    file_identifier = codes "u";
    document_converter = document_converter_docling;
    docling_config = empty_docling;
  };
  markdown = codes "T";
}

abbrev chunks : ChunksDocument
chunks = record {
  metadata = record {
    converted_file_metadata = document.metadata;
    chunking_tool = langchain_chunking_tool;
    chunks_generator_config = chunking;
  };
  text = codes "T" ∷ codes "UU" ∷ codes "VVV" ∷ [];
}

-- Two texts in a request.
abbrev config : VectorEmbeddingsGeneratorConfig
config = record {
  model_name = codes "gemini-embedding-2";
  batch_size = 2;
  nomic_embed_text_v15_config = record { encoding_format = [] };
  gemini_embedding2_config = record { encoding_format = codes "float" };
}

abbrev metadata : EmbeddingFileMetadata
metadata = record {
  converted_file_metadata = document.metadata;
  chunk_file_metadata = chunks.metadata;
  model_name = config.model_name;
  nomic_embed_text_v15_config = config.nomic_embed_text_v15_config;
  gemini_embedding2_config = config.gemini_embedding2_config;
}

-- The payload is the length of each text, and the answer is the payload.
abbrev service : EmbeddingService Memory ℕ
service = record {
  new_request = λ m u. ok tt;
  do_request = λ m u a p w. (ok (record { code = 200; body = ok p }), w);
  marshal = λ r. ok (map (λ (t : Text). length t) r.input);
  decode = λ t. ok t;
}

metadata_dec : Discrete EmbeddingFileMetadata
metadata_dec = hlevel ℕ_discrete

instance unfoldable metadata_eq : Eq EmbeddingFileMetadata
unfolding metadata_dec
metadata_eq = record { dec = metadata_dec }

abbrev encode : EmbeddingsFile ℕ → Result Text
encode f =
    if f.metadata == metadata then ok (codes "E") else err (new_error (codes "unsupported value"))

abbrev decode : Text → Result (Option EmbeddingFileMetadata)
decode t =
    if t == codes "E" then ok (some metadata) else err (new_error (codes "invalid character"))

decode-encode :
    (f : EmbeddingsFile ℕ) (t : Text)
    → encode f ≡ ok t
    → decode t ≡ ok (some (embedding_metadata_as_encoded f.metadata))
decode-encode f t h = ground arith

abbrev no_status : VectorEmbeddingsGeneratorStatus
no_status = record { last_applied_generation = 0; conditions = []; files_processed = 0 }

abbrev kube : Kube Memory VectorEmbeddingsGenerator VectorEmbeddingsGeneratorStatus
kube = record {
  is_config_healthy = pure true;
  get = λ s w. (err (new_error (codes "not found")), w);
  patch_status = pure tt;
  patch_reached = λ w. false;
  merge_patch = λ base target server. target;
  now = pure (codes "2025-01-01T00:00:00Z");
}

abbrev deps : Deps
deps = record {
  env = memory;
  Vector = ℕ;
  service = service;
  kube = kube;
  chunks_json = λ t.
      if t == codes "C"
      then ok (record { converted_document = some document; chunks_document = some chunks })
      else err (new_error (codes "invalid character"));
  embeddings_json = record {
    marshal = encode;
    unmarshal = decode;
    unmarshal-marshal = decode-encode;
  };
  credentials = λ m. some (record { endpoint = codes "http://e"; api_key = codes "k" });
}

service-ServiceLaws : ServiceLaws deps memory_view
service-ServiceLaws = record {
  do_request-Same = λ m u a p w. record { disk = λ q. refl; object = λ h k. refl };
}

abbrev world : Memory
world = record {
  files = λ p. none;
  objects = λ k. if k == codes "c/a.json" then some (codes "C") else none;
  keys = codes "c/a.json" ∷ [];
  reachable = true;
}

abbrev fs : FileStore memory
fs = record { root = codes "/t"; s3 = tt }

abbrev path : Text
path = codes "c/a.json"

apart :
    clean (local_path memory fs path)
    ≢ clean (local_path memory fs (embeddings_path deps fs config (codes "c/") (codes "e/") path))
unfolding local_path join remap_to_output_dir trim_prefix cut_prefix nat_eq list_eq
apart = ne_of_test _ _ refl

processed : (process_chunked_file deps fs config (codes "c/") (codes "e/") path world).0 ≡ ok true
unfolding process_chunked_file needs_embedding read_chunks encoding_format embed_batches batches
    generate_embeddings exists retrieve store make_parent file_exists_in_cache file_exists_in_s3
    object_exists local_path join dir remap_to_output_dir trim_prefix cut_prefix metadata_eq nat_eq
    list_eq
processed = refl

abbrev after : Memory
after = (process_chunked_file deps fs config (codes "c/") (codes "e/") path world).1

asked_again : (needs_embedding deps fs config (codes "c/") (codes "e/") path after).0 ≡ ok false
unfolding process_chunked_file needs_embedding read_chunks encoding_format embed_batches batches
    generate_embeddings exists retrieve store make_parent file_exists_in_cache file_exists_in_s3
    object_exists local_path join dir remap_to_output_dir trim_prefix cut_prefix metadata_eq
    EmbeddingsFile.equal ChunksFile.equal ConvertedFile.equal docling_config_eq
    chunks_generator_config_eq nomic_eq gemini_eq nat_eq list_eq
asked_again = refl

needs_embedding-process_chunked_file_example :
    (false ≡ false)
    ⊎ HasEmptySlice deps memory_view memory-Laws service-ServiceLaws fs config
        (codes "c/")
        (codes "e/")
        path
        apart
        after
needs_embedding-process_chunked_file_example =
    needs_embedding-process_chunked_file deps memory_view memory-Laws service-ServiceLaws fs config
      (codes "c/") (codes "e/") path apart false world processed asked_again

batches-set_defaults_example :
    (slices : List (List Text)) × ((batches 3 (set_defaults config).batch_size chunks.text
        ≡ some slices)
      × ((concat slices ≡ chunks.text) × Bounded (set_defaults config).batch_size slices))
batches-set_defaults_example = batches-set_defaults config chunks.text

answers :
    (creds : ModelCredentials) (format : Text) (batch : List Text) (vectors : List ℕ) (w : Memory)
    → (generate deps fs config (codes "c/") (codes "e/") creds format batch w).0 ≡ ok vectors
    → vectors ≡ map (λ (t : Text). length t) batch
unfolding generate_embeddings nat_eq
answers creds format [] vectors w h = ground arith
answers creds format (t ∷ batch) vectors w h = ground arith

abbrev embedded : EmbeddingsFile ℕ
embedded = record {
  converted_document = document;
  chunks_document = chunks;
  metadata = metadata;
  embeddings = (codes "T", 1) ∷ (codes "UU", 2) ∷ (codes "VVV", 3) ∷ [];
}

embeds :
    (embed_document deps fs config (codes "c/") (codes "e/") document chunks world).0 ≡ ok embedded
unfolding encoding_format embed_batches batches generate_embeddings nat_eq list_eq
embeds = refl

embeddings-embed_document_example :
    embedded.embeddings ≡ map (λ (t : Text). (t, length t)) chunks.text
embeddings-embed_document_example =
    embeddings-embed_document deps fs config (codes "c/") (codes "e/") (λ t. length t) answers
      document chunks embedded world embeds
