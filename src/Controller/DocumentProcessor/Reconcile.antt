-- ===== src/Controller/DocumentProcessor/Reconcile.antt =====
-- `Reconcile` and `handleError` of internal/controller/documentprocessor_controller.go.
use unstructured_data_contro.FileStore.{FileStore, new, list_files_in_path}
use unstructured_data_contro.Api.DoclingConfig.{DoclingConfig, PictureDescriptionApi, set_defaults}
use unstructured_data_contro.Api.DocumentProcessor.{
  Job, DocumentProcessor, DocumentProcessorStatus, set_waiting, update_status,
}
use unstructured_data_contro.Unstructured.Layout.{stage_path, filter_raw_file_paths}
use unstructured_data_contro.Controller.{
  Session, lift, status_patch, parent_pipeline_name_from_owner_reference,
  is_aws_client_not_initialized_error,
}
use unstructured_data_contro.Controller.Wire.{WireConfig, wire_config}
use unstructured_data_contro.Controller.DocumentProcessor.{Deps, process_document, reconcile_job}
use unstructured_data_contro.Prelude.{
  ℕ, Text, codes, Bool, true, false, Option, none, some, List, [], ◌∷◌, ◌++◌, ◌==◌, ◌||◌, nat_eq,
  list_eq, option_eq, trim_space, if◌then◌else◌, Result, ok, err, Error, new_error, Io, pure, raise,
  attempt, ◌>>=◌, ◌>>◌, continue, is_panic,
}

-- The globals that the ControllerConfig reconciler sets, and the settings of the process.
pub record Settings (Handle : Type 0) : Type 0 where
  pub vlm_api_url : Text
  pub vlm_api_key : Text
  pub data_storage_directory : Text
  -- FileStoreS3Client with dataStorageBucket
  pub file_store_client : Option Handle
  -- DefaultPictureDescPrompt
  pub prompt : Text

-- The seconds of RequeueAfter; `none` is ctrl.Result{}.
abbrev pub Requeue : Type 0
Requeue = Option ℕ

abbrev config_with : DoclingConfig → DocumentProcessor → DocumentProcessor
config_with c d = record d { config = record d.config { docling_config = c } }

abbrev with_url : Text → PictureDescriptionApi → PictureDescriptionApi
with_url url api = if api.url == [] then record api { url = trim_space url } else api

-- The VLM URL of the settings is used where the resource has none.
unfoldable pub inject_url : Text → DocumentProcessor → DocumentProcessor
inject_url url d = if url == [] then d else elim d.config.docling_config.picture_description_api [
  | none ↦ d
  | some api ↦
      config_with
        (record d.config.docling_config { picture_description_api = some (with_url url api) }) d
]

abbrev has_no_url : Option PictureDescriptionApi → Bool
has_no_url none = true
has_no_url (some api) = api.url == []

-- Picture descriptions are asked for, and no URL says where to get them.
unfoldable pub lacks_url : DoclingConfig → Bool
lacks_url c = elim c.do_picture_description [
  | some true ↦ has_no_url c.picture_description_api
  | _ ↦ false
]

-- DeepCopy, SetDefaults and the injection of the URL, of the object that was read.
unfoldable pub prepared : Text → Text → DocumentProcessor → DocumentProcessor
prepared prompt url d = inject_url url (record d { config = set_defaults prompt d.config })

abbrev pub vlm_error : Error
vlm_error = new_error (
    codes
      "VLM API URL is required for picture description but is not set in the DocumentProcessor CR or the VLM API URL secret")

module _ (deps : Deps) (settings : Settings deps.env.Handle) where
  abbrev State : Type 0
  State = Session deps.env.World DocumentProcessor DocumentProcessorStatus

  abbrev patch : (DocumentProcessor → DocumentProcessor) → Io State (Unit {0})
  patch = status_patch deps.kube (λ (d : DocumentProcessor). d.status)

  -- handleError: the status says what failed, and the error is returned unless the patch fails.
  unfoldable pub handle_error : Error → Io State Requeue
  handle_error e = do patch (update_status [] (some e)); raise e

  abbrev pub or_handle : {A : Type 0} → Result A → (A → Io State Requeue) → Io State Requeue
  or_handle (ok a) next = next a
  or_handle (err e) next = handle_error e

  -- filestore.New: a client that is not set up yet is waited for.
  abbrev pub with_store :
      (FileStore deps.env → Io State Requeue) → Result (FileStore deps.env) → Io State Requeue
  with_store next (ok fs) = next fs
  with_store next (err e) =
      if is_aws_client_not_initialized_error e then pure (some 10) else handle_error e

  abbrev pub failed : Result (Unit {0}) → Bool
  failed (ok _) = false
  failed (err e) = true

  module _ (fs : FileStore deps.env) (input_path output_path : Text) where
    -- Every job of the status is looked after; whether one failed is kept.
    unfoldable pub reconcile_jobs : List Job → Bool → State → Bool × State
    reconcile_jobs [] any s = (any, s)
    reconcile_jobs (job ∷ jobs) any s =
        let (r, s') = reconcile_job deps fs input_path output_path job s in
        reconcile_jobs jobs (any || failed r) s'

    -- A panic ends the loop.
    abbrev pub unless_panic : Result (Unit {0}) → Io State Bool → Io State Bool
    unless_panic (ok _) next s = next s
    unless_panic (err e) next s = if is_panic e then (err e, s) else next s

    unfoldable pub process_documents : WireConfig deps.floats → List Text → Bool → Io State Bool
    process_documents config [] any s = (ok any, s)
    process_documents config (path ∷ paths) any s =
        let (r, s') = process_document deps fs input_path output_path config path s in
        unless_panic r (process_documents config paths (any || failed r)) s'

    abbrev pub reported : Result (Unit {0}) → Io State Requeue
    reported (ok _) = pure none
    reported (err e) = handle_error e

    -- Jobs that are left are looked at again later.
    abbrev pub settled : List Job → Io State Requeue
    settled (job ∷ jobs) s = (ok (some 15), s)
    settled [] s =
        let message = codes "successfully reconciled document processor: " ++ s.cr.name in
        let (r, s') = patch (update_status message none) s in reported r s'

    -- The end of Reconcile: errors first, then jobs that are left, then success.
    unfoldable pub conclude : Bool → Bool → Io State Requeue
    conclude jobs_failed documents_failed s =
        if jobs_failed || documents_failed
        then handle_error (new_error (codes "failed to process jobs or documents")) s
        else settled s.cr.status.jobs s

    abbrev pub with_files : WireConfig deps.floats → Bool → Result (List Text) → Io State Requeue
    with_files config jobs_failed (err e) s = handle_error e s
    with_files config jobs_failed (ok files) s =
        let (documents_failed, s') =
          process_documents config (filter_raw_file_paths files) false s in
        continue documents_failed (conclude jobs_failed) s'

    unfoldable pub run_stage : WireConfig deps.floats → Io State Requeue
    run_stage config s =
        let (jobs_failed, s₁) = reconcile_jobs s.cr.status.jobs false s in
        let (listed, s₂) = lift (attempt (list_files_in_path deps.env fs input_path)) s₁ in
        continue listed (with_files config jobs_failed) s₂

  -- DependsOn[0], which panics if there is no dependency.
  abbrev pub first_dependency : List Text → Result Text
  first_dependency [] = err (new_error (codes "index out of range"))
  first_dependency (dep ∷ deps') = ok dep

  -- A missing dependency is a panic, and not handled.
  abbrev pub with_upstream :
      WireConfig deps.floats → FileStore deps.env → Text → Result Text → Io State Requeue
  with_upstream config fs pipeline (err e) s = (err e, s)
  with_upstream config fs pipeline (ok upstream) s =
      run_stage fs (stage_path pipeline upstream) (stage_path pipeline s.cr.stage_name) config s

  unfoldable pub run : WireConfig deps.floats → FileStore deps.env → Io State Requeue
  run config fs s =
      or_handle
        (parent_pipeline_name_from_owner_reference s.cr.namespace s.cr.name s.cr.owner_references)
        (λ pipeline. with_upstream config fs pipeline (first_dependency s.cr.depends_on)) s

  abbrev pub with_wire : Option (WireConfig deps.floats) → Io State Requeue
  with_wire none = raise (new_error (codes "nil pointer dereference"))
  with_wire (some config) = do
    store ← lift (attempt (new deps.env settings.file_store_client settings.data_storage_directory))
    with_store (run config) store

  abbrev pub wait_and_run : Io State Requeue
  wait_and_run = do
    patch set_waiting
    λ s. with_wire (wire_config deps.floats settings.vlm_api_key s.cr.config.docling_config) s

  -- The object has been read and prepared.
  unfoldable pub reconcile_object : Io State Requeue
  reconcile_object s =
      if lacks_url s.cr.config.docling_config then handle_error vlm_error s else wait_and_run s

  -- r.Get: the status of the object is what the server holds.
  abbrev pub read_object : Io State DocumentProcessor
  read_object s = lift (deps.kube.get s.server) s

  -- The object in memory, from the one that was read.
  abbrev pub loaded : DocumentProcessor → State → State
  loaded got s = record s {
    cr = prepared settings.prompt settings.vlm_api_url (record got { status = s.server });
  }

  abbrev pub when_healthy : Bool → Io State Requeue
  when_healthy false = pure (some 10)
  when_healthy true = do got ← read_object; λ s. reconcile_object (loaded got s)

  unfoldable pub reconcile : Io State Requeue
  reconcile = do healthy ← lift deps.kube.is_config_healthy; when_healthy healthy
