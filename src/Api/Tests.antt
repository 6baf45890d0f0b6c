-- ===== src/Api/Tests.antt =====
-- The resources at concrete inputs.
use unstructured_data_contro.Api.Condition.{
  Condition, put_condition, find_condition, find_condition-put_condition, waiting,
}
use unstructured_data_contro.Api.DoclingConfig.{DocumentProcessorConfig, set_defaults}
use unstructured_data_contro.Api.DoclingConfig.Sample.{empty_docling}
use unstructured_data_contro.Api.DoclingConfig.Defaults.{set_defaults_present}
use unstructured_data_contro.Api.DocumentProcessor.{
  Job, DocumentProcessor, find_job, add_or_update_job, get_job_by_file_path,
  delete_job_by_file_path,
}
use unstructured_data_contro.Api.DocumentProcessor.Jobs.{
  get_job-add_or_update_job, UniquePaths, jobs-UniquePaths,
}
use unstructured_data_contro.Prelude.{
  Text, codes, true, none, some, [], ◌∷◌, ◌==◌, ◌≡◌, ◌≢◌, refl, nat_eq, list_eq, if◌then◌else◌,
}

abbrev empty_config : DocumentProcessorConfig
empty_config = record { type = []; docling_config = empty_docling }

abbrev prompt : Text
prompt = codes "Describe this picture."

set_defaults_present_example :
    ((set_defaults prompt empty_config).docling_config.do_picture_description ≢ none)
    × ((set_defaults prompt empty_config).docling_config.do_picture_classification ≢ none)
    × ((set_defaults prompt empty_config).docling_config.do_picture_description ≡ some true
        → (set_defaults prompt empty_config).docling_config.picture_description_api ≢ none)
set_defaults_present_example = set_defaults_present prompt empty_config

abbrev job_of : Text → Text → Job
job_of path task = record {
  file_path = path;
  file_identifier = codes "uid";
  document_converter = codes "docling";
  docling_config = empty_docling;
  task_id = task;
  status = codes "pending";
  created_on = codes "2025-01-01T00:00:00Z";
  attempts = 1;
}

abbrev path : Text
path = codes "a.pdf"

-- A processor with a job for a.pdf and one for b.pdf.
abbrev processor : DocumentProcessor
processor = record {
  name = codes "dp";
  namespace = codes "ns";
  owner_references = [];
  generation = 1;
  stage_name = codes "convert";
  depends_on = codes "source" ∷ [];
  config = empty_config;
  status = record {
    last_applied_generation = 0;
    conditions = [];
    jobs = job_of path (codes "1") ∷ job_of (codes "b.pdf") (codes "2") ∷ [];
    permanently_failing_files = codes "c.pdf" ∷ [];
    files_processed = 0;
  };
}

get_job-add_or_update_job_example :
    get_job_by_file_path (codes "b.pdf") (add_or_update_job (job_of path (codes "3")) processor) ≡ (
      if path == codes "b.pdf"
      then some (job_of path (codes "3"))
      else get_job_by_file_path (codes "b.pdf") processor)
get_job-add_or_update_job_example =
    get_job-add_or_update_job (codes "b.pdf") (job_of path (codes "3")) processor

processor-UniquePaths : UniquePaths processor.status.jobs
unfolding find_job nat_eq list_eq
processor-UniquePaths = (refl, (refl, tt))

jobs-UniquePaths_example :
    UniquePaths (add_or_update_job (job_of path (codes "3")) processor).status.jobs
    × UniquePaths (delete_job_by_file_path (codes "b.pdf") processor).status.jobs
jobs-UniquePaths_example =
    jobs-UniquePaths (codes "b.pdf") (job_of path (codes "3")) processor processor-UniquePaths

abbrev ready : Condition
ready = waiting (codes "Ready") (codes "waiting")

find_condition-put_condition_example :
    find_condition (codes "Ready") (put_condition ready (waiting (codes "Other") [] ∷ ready ∷ []))
    ≡ (if ready.type == codes "Ready"
        then some ready
        else find_condition (codes "Ready") (waiting (codes "Other") [] ∷ ready ∷ []))
find_condition-put_condition_example =
    find_condition-put_condition (codes "Ready") ready (waiting (codes "Other") [] ∷ ready ∷ [])
