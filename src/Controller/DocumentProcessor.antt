-- ===== src/Controller/DocumentProcessor.antt =====
-- internal/controller/documentprocessor_controller.go: which documents are sent to the conversion
-- service, and what becomes of the jobs. `reconcile` is in Controller/DocumentProcessor/Reconcile.
pub mod Reconcile
pub mod Attempts
use unstructured_data_contro.Env.{Env}
use unstructured_data_contro.FileStore.{FileStore, exists, retrieve, store, get_file_url}
use unstructured_data_contro.Docling
use unstructured_data_contro.Docling.{
  Service, ClientConfig, DoclingResponse, AsyncDoclingResponse, convert_file, get_converted_file,
}
use unstructured_data_contro.Api.DoclingConfig.{DoclingConfig}
use unstructured_data_contro.Api.DocumentProcessor.{
  Job, DocumentProcessor, DocumentProcessorStatus, add_or_update_job, get_job_by_file_path,
  delete_job_by_file_path, is_file_permanently_failing, add_permanently_failing_file,
}
use unstructured_data_contro.Unstructured.Codec.{Codec}
use unstructured_data_contro.Unstructured.Layout.{
  RawFileMetadata, metadata_path, remap_to_output_dir,
}
use unstructured_data_contro.Unstructured.ConvertedFile.{
  ConvertedFile, ConvertedFileMetadata, document_converter_docling, equal,
}
use unstructured_data_contro.Controller.{Session, Kube, lift, status_patch}
use unstructured_data_contro.Controller.Wire.{Floats, WireConfig}
use unstructured_data_contro.Prelude.{
  ℕ, suc, ◌+◌, Text, codes, Bool, true, false, Option, none, some, List, [], ◌∷◌, ◌++◌, leb, ◌==◌,
  ◌||◌, nat_eq, list_eq, contains_text, if◌then◌else◌, Result, ok, err, Error, new_error, Io, pure,
  raise, attempt, ◌>>=◌, ◌>>◌,
}

-- What the reconciler talks to: the world, the conversion service, the API server, encoding/json.
pub record Deps : Type 1 where
  pub env : Env
  pub floats : Floats
  pub service : Service env.World (WireConfig floats)
  pub docling : ClientConfig
  pub kube : Kube env.World DocumentProcessor DocumentProcessorStatus
  pub raw_json : Codec RawFileMetadata
  pub converted_json : Codec ConvertedFile

abbrev pub max_docling_conversion_attempts : ℕ
max_docling_conversion_attempts = 3

-- The metadata that a conversion of `path` with the current configuration would have.
abbrev pub wanted : Text → Text → DocumentProcessor → ConvertedFileMetadata
wanted path uid cr = record {
  raw_file_path = path;
  file_identifier = uid;
  document_converter = document_converter_docling;
  docling_config = cr.config.docling_config;
}

abbrev pub in_job : Job → ConvertedFileMetadata
in_job job = record {
  raw_file_path = job.file_path;
  file_identifier = job.file_identifier;
  document_converter = job.document_converter;
  docling_config = job.docling_config;
}

-- The attempt count of a new job, from the job that is there.
abbrev pub next_attempt : Option Job → ℕ
next_attempt none = 1
next_attempt (some job) = job.attempts + 1

module _ (deps : Deps) (fs : FileStore deps.env) (input_path output_path : Text) where
  abbrev State : Type 0
  State = Session deps.env.World DocumentProcessor DocumentProcessorStatus

  abbrev patch : (DocumentProcessor → DocumentProcessor) → Io State (Unit {0})
  patch = status_patch deps.kube (λ (d : DocumentProcessor). d.status)

  abbrev converted_path : Text → Text
  converted_path path = remap_to_output_dir (path ++ codes ".json") input_path output_path

  unfoldable pub get_file_uid : Text → Io deps.env.World Text
  get_file_uid path = do
    bytes ← retrieve deps.env fs (metadata_path path)
    metadata ← (λ w. (deps.raw_json.unmarshal bytes, w))
    pure metadata.uid

  -- The metadata of the converted file, if there is one.
  abbrev converted_if : Text → Bool → Io deps.env.World (Option ConvertedFileMetadata)
  converted_if path false = pure none
  converted_if path true = do
    bytes ← retrieve deps.env fs (converted_path path)
    file ← (λ w. (deps.converted_json.unmarshal bytes, w))
    pure (some file.metadata)

  -- What `needsConversion` reads of the file store: the UID of the raw file, and the metadata of
  -- its converted file. `none` where the metadata file is missing.
  abbrev look_if : Text → Bool → Io deps.env.World (Option (Text × Option ConvertedFileMetadata))
  look_if path false = pure none
  look_if path true = do
    uid ← get_file_uid path
    there ← exists deps.env fs (converted_path path)
    converted ← converted_if path there
    pure (some (uid, converted))

  abbrev raw_if : Text → Bool → Io deps.env.World (Option (Text × Option ConvertedFileMetadata))
  raw_if path false = raise (new_error (codes "raw file " ++ path ++ codes " does not exist"))
  raw_if path true = do
    metadata_exists ← exists deps.env fs (metadata_path path)
    look_if path metadata_exists

  unfoldable pub look : Text → Io deps.env.World (Option (Text × Option ConvertedFileMetadata))
  look path = do raw_exists ← exists deps.env fs path; raw_if path raw_exists

  abbrev is_converted : Option ConvertedFileMetadata → ConvertedFileMetadata → Bool
  is_converted none m = false
  is_converted (some c) m = equal c m

  -- The job is of no more use: it is deleted, and the document is converted.
  unfoldable pub convert_anew : Text → Io State Bool
  convert_anew path = do patch (delete_job_by_file_path path); pure true

  -- The switch on the status of a job with the wanted configuration.
  unfoldable pub by_job_status : Text → Job → Io State Bool
  by_job_status path job =
      if job.status == Docling.failure || job.status == Docling.skipped
      then convert_anew path
      else if job.status == Docling.pending
          || job.status == Docling.started
          || job.status == Docling.partial_success
          || job.status == Docling.success
      then pure false
      else raise (new_error (codes "invalid task status received for task id: " ++ job.task_id))

  abbrev by_job : Text → ConvertedFileMetadata → Option Job → Io State Bool
  by_job path m none = pure true
  by_job path m (some job) =
      if equal (in_job job) m then by_job_status path job else convert_anew path

  abbrev by_state : Text → Option (Text × Option ConvertedFileMetadata) → Io State Bool
  by_state path none s = (ok false, s)
  by_state path (some (uid, converted)) s =
      if is_converted converted (wanted path uid s.cr)
      then (ok false, s)
      else if is_file_permanently_failing path s.cr
      then (ok false, s)
      else by_job path (wanted path uid s.cr) (get_job_by_file_path path s.cr) s

  unfoldable pub needs_conversion : Text → Io State Bool
  needs_conversion path = do seen ← lift (look path); by_state path seen

  abbrev new_job : Text → Text → AsyncDoclingResponse → Text → DocumentProcessor → Job
  new_job path uid response now cr = record {
    file_path = path;
    file_identifier = uid;
    document_converter = document_converter_docling;
    docling_config = cr.config.docling_config;
    task_id = response.task_id;
    status = response.task_status;
    created_on = now;
    attempts = next_attempt (get_job_by_file_path path cr);
  }

  -- A full semaphore is no error: the document is left for the next time.
  abbrev add_job : Text → Text → Result AsyncDoclingResponse → Io State (Unit {0})
  add_job path uid (err e) =
      if contains_text e.message Docling.semaphore_acquire_error then pure tt else raise e
  add_job path uid (ok response) = do
    now ← lift deps.kube.now
    λ s. patch (add_or_update_job (new_job path uid response now s.cr)) s

  abbrev process_if : WireConfig deps.floats → Text → Bool → Io State (Unit {0})
  process_if config path false = pure tt
  process_if config path true = do
    uid ← lift (get_file_uid path)
    url ← lift (get_file_url deps.env fs path)
    response ← lift (attempt (convert_file deps.service deps.docling url config))
    add_job path uid response

  unfoldable pub process_document : WireConfig deps.floats → Text → Io State (Unit {0})
  process_document config path = do needed ← needs_conversion path; process_if config path needed

  abbrev content_of : Option DoclingResponse → Text
  content_of none = []
  content_of (some r) = r.md_content

  abbrev encode_job : Job → Option DoclingResponse → Io State Text
  encode_job job response s = (
    deps.converted_json.marshal (record {
      metadata = record {
        raw_file_path = job.file_path;
        file_identifier = job.file_identifier;
        document_converter = document_converter_docling;
        docling_config = s.cr.config.docling_config;
      };
      markdown = content_of response;
    }),
    s,
  )

  abbrev job_done : Text → DocumentProcessor → DocumentProcessor
  job_done path d =
      let rest = delete_job_by_file_path path d in
      record rest {
        status = record rest.status { files_processed = rest.status.files_processed + 1 };
      }

  -- The converted file is stored, and the job is done.
  unfoldable pub finish_job : Job → Option DoclingResponse → Io State (Unit {0})
  finish_job job response = do
    bytes ← encode_job job response
    lift (store deps.env fs (converted_path job.file_path) bytes)
    patch (job_done job.file_path)

  -- A failed job is given up after too many attempts, and else left as it is.
  unfoldable pub fail_job : Job → Io State (Unit {0})
  fail_job job =
      if leb max_docling_conversion_attempts job.attempts
      then patch (λ d.
        delete_job_by_file_path job.file_path (add_permanently_failing_file job.file_path d))
      else pure tt

  unfoldable pub by_task_status : Job → Text → Option DoclingResponse → Io State (Unit {0})
  by_task_status job status response =
      if status == Docling.success || status == Docling.partial_success
      then finish_job job response
      else if status == Docling.failure || status == Docling.skipped
      then fail_job job
      else if status == Docling.pending || status == Docling.started
      then pure tt
      else raise (
          new_error (
            codes "invalid task status received for task id: "
            ++ job.task_id
            ++ codes ", status: "
            ++ status
            ++ codes ", file: "
            ++ job.file_path))

  unfoldable pub reconcile_job : Job → Io State (Unit {0})
  reconcile_job job = do
    got ← lift (get_converted_file deps.service deps.docling job.task_id)
    by_task_status job got.0 got.1
