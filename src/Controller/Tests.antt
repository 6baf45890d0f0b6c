-- ===== src/Controller/Tests.antt =====
-- The document processor in a world in memory, with a service that accepts every file.
use unstructured_data_contro.GoPath.{join, dir}
use unstructured_data_contro.Env.Memory.{Memory, memory}
use unstructured_data_contro.FileStore.{
  FileStore, exists, retrieve, file_exists_in_cache, file_exists_in_s3, object_exists, local_path,
}
use unstructured_data_contro.Docling.{Service, pending}
use unstructured_data_contro.Api.DocumentProcessor.{
  DocumentProcessor, DocumentProcessorStatus, get_job_by_file_path, find_job,
  is_file_permanently_failing,
}
use unstructured_data_contro.Api.DoclingConfig.{DoclingConfig}
use unstructured_data_contro.Api.DoclingConfig.Sample.{empty_docling}
use unstructured_data_contro.Unstructured.Codec.{Codec}
use unstructured_data_contro.Unstructured.Codec.Lengths.{length_codec}
use unstructured_data_contro.Unstructured.Layout.{metadata_path, remap_to_output_dir}
use unstructured_data_contro.Unstructured.ConvertedFile.{ConvertedFile}
use unstructured_data_contro.Controller.{Session, Kube}
use unstructured_data_contro.Controller.Wire.{Floats, WireConfig}
use unstructured_data_contro.Controller.DocumentProcessor.{
  Deps, needs_conversion, look, get_file_uid,
}
use unstructured_data_contro.Controller.DocumentProcessor.Reconcile.{Settings}
use unstructured_data_contro.Controller.DocumentProcessor.Attempts.{Untried, MergeLaws}
use unstructured_data_contro.Controller.DocumentProcessor.Attempts.Steps.{needs_conversion_fresh}
use unstructured_data_contro.Controller.DocumentProcessor.Attempts.Rounds.{rounds, rounds-Untried}
use unstructured_data_contro.Prelude.{
  ℕ, Text, codes, true, false, none, some, [], ◌∷◌, ◌==◌, ok, err, new_error, pure, ◌≡◌, refl, inl,
  nat_eq, list_eq, if◌then◌else◌, trim_prefix, cut_prefix, ◌++◌,
}

abbrev floats : Floats
floats = record { Float = ℕ; zero_float = 0; parse = λ s. none }

abbrev service : Service Memory (WireConfig floats)
service = record {
  do_request = λ m u a p w. (ok (record { code = 200; body = ok pending }), w);
  join_path = λ u p. ok (u ++ p);
  base_url = λ u. ok u;
  marshal_payload = λ o u. ok u;
  decode_async = λ t. ok (record { task_id = codes "1"; task_status = t });
  decode_status = λ t. ok (record { task_status = t });
  decode_response = λ t. ok (record { md_content = []; status = t });
  try_acquire = λ w. (true, w);
  release = λ w. (true, w);
}

encodes_nothing :
    (f : ConvertedFile) (t : Text)
    → err (new_error (codes "unsupported")) ≡ ok t
    → err (new_error (codes "unsupported")) ≡ ok f
encodes_nothing f t h = cc

-- A codec that encodes nothing.
abbrev no_codec : Codec ConvertedFile
no_codec = record {
  marshal = λ f. err (new_error (codes "unsupported"));
  unmarshal = λ t. err (new_error (codes "unsupported"));
  unmarshal-marshal = encodes_nothing;
}

abbrev docling_config : DoclingConfig
docling_config = record empty_docling {
  do_picture_classification = some false;
  do_picture_description = some false;
}

abbrev no_status : DocumentProcessorStatus
no_status = record {
  last_applied_generation = 0;
  conditions = [];
  jobs = [];
  permanently_failing_files = [];
  files_processed = 0;
}

abbrev processor : DocumentProcessor
processor = record {
  name = codes "dp";
  namespace = codes "ns";
  owner_references = record { name = codes "pipe"; is_controller = true } ∷ [];
  generation = 1;
  stage_name = codes "convert";
  depends_on = codes "source" ∷ [];
  config = record { type = codes "docling"; docling_config = docling_config };
  status = no_status;
}

abbrev kube : Kube Memory DocumentProcessor DocumentProcessorStatus
kube = record {
  is_config_healthy = pure true;
  get = λ s. pure (record processor { status = s });
  patch_status = pure tt;
  patch_reached = λ w. false;
  merge_patch = λ base target server. target;
  now = pure (codes "2025-01-01T00:00:00Z");
}

kube-MergeLaws : MergeLaws kube
kube-MergeLaws = record {
  jobs = λ base target server. inl refl;
  failing = λ base target server. inl refl;
}

abbrev deps : Deps
deps = record {
  env = memory;
  floats = floats;
  service = service;
  docling = record { url = codes "http://docling"; key = codes "k" };
  kube = kube;
  raw_json = length_codec;
  converted_json = no_codec;
}

abbrev settings : Settings Unit
settings = record {
  vlm_api_url = [];
  vlm_api_key = [];
  data_storage_directory = codes "/data";
  file_store_client = some tt;
  prompt = codes "Describe this picture.";
}

abbrev path : Text
path = codes "in/a"

-- The raw file a, with its metadata: the path of length 4, and the UID.
abbrev world : Memory
world = record {
  files = λ p. none;
  objects = λ k.
      if k == path
      then some (codes "A")
      else if k == codes "in/a.json"
      then some (4 ∷ codes "in/auid")
      else none;
  keys = path ∷ codes "in/a.json" ∷ [];
  reachable = true;
}

abbrev start : Session Memory DocumentProcessor DocumentProcessorStatus
start = record { cr = processor; server = no_status; world = world }

abbrev fs : FileStore memory
fs = record { root = codes "/data"; s3 = tt }

needed : (needs_conversion deps fs (codes "in/") (codes "out/") path start).0 ≡ ok true
unfolding needs_conversion look get_file_uid exists retrieve file_exists_in_cache file_exists_in_s3
    object_exists local_path join dir metadata_path remap_to_output_dir trim_prefix cut_prefix
    is_file_permanently_failing get_job_by_file_path find_job nat_eq list_eq
needed = refl

needs_conversion_fresh_example :
    get_job_by_file_path path
      (needs_conversion deps fs (codes "in/") (codes "out/") path start).1.cr
    ≡ none
needs_conversion_fresh_example =
    needs_conversion_fresh deps fs (codes "in/") (codes "out/") path start needed

no_status-Untried : Untried no_status
no_status-Untried = record { first = tt; none_failing = refl }

rounds-Untried_example : Untried (rounds deps kube-MergeLaws settings 2 start).server
rounds-Untried_example = rounds-Untried deps kube-MergeLaws settings 2 start no_status-Untried
