-- ===== src/Controller/SourceCrawler/Reconcile.antt =====
-- `Reconcile` of internal/controller/sourcecrawler_controller.go, with buildGDriveSource and
-- handleSQSWakeUp.
use unstructured_data_contro.FileStore.{FileStore}
use unstructured_data_contro.Api.SourceCrawler.{
  SourceCrawler, SourceCrawlerStatus, GDriveFolderStatus, GoogleDriveConfig,
}
use unstructured_data_contro.Unstructured.Layout.{RawFileMetadata, stage_path}
use unstructured_data_contro.Unstructured.S3Source.{S3BucketSource, sync_files_to_filestore}
use unstructured_data_contro.Controller.{Session}
use unstructured_data_contro.Controller.Secrets.{
  AwsConfig, aws_config_from_secret, gdrive_credentials_from_secret,
}
use unstructured_data_contro.Controller.StageFrame
use unstructured_data_contro.Controller.StageFrame.{
  Next, finished, requeue, requeue_after, Storage, handle_error, or_handle, patch, succeed,
}
use unstructured_data_contro.Controller.SourceCrawler.{
  GDriveSource, Deps, resource, labelled, extract_gdrive_folder_id, or_default, build_gdrive_status,
}
use unstructured_data_contro.Prelude.{
  pos, Text, codes, Bool, true, false, Option, none, some, List, [], ◌∷◌, ◌++◌, ◌==◌, nat_eq,
  list_eq, length, if◌then◌else◌, Result, ok, err, new_error, wrap, Io, pure, raise, attempt, ◌>>=◌,
  ◌>>◌,
}

module _ (deps : Deps) where
  open deps use {drive, queue}
  open deps.env use {World}

  abbrev pub Drives : Type 0
  Drives = GDriveSource drive.Client

  -- unstructured.DataSource
  pub data Source : Type 0 where
    s3_source : S3BucketSource deps.env → Source
    gdrive_source : Drives → Source

  abbrev from : {A : Type 0} → Result A → Io World A
  from r w = (r, w)

  abbrev required : Bool → Text → Result (Unit {0})
  required true message = ok tt
  required false message = err (new_error message)

  abbrev or_missing : {A : Type 0} → Text → Option A → Result A
  or_missing message none = err (new_error message)
  or_missing message (some a) = ok a

  unfoldable pub folder_ids : List Text → Result (List Text)
  folder_ids [] = ok []
  folder_ids (url ∷ urls) =
      let rest = folder_ids urls in
      elim (labelled (codes "invalid Google Drive folder URL " ++ drive.quote url ++ codes ": ")
        (extract_gdrive_folder_id drive.url_path url)) [
          | err e ↦ err e
          | ok id ↦ elim rest [ err e ↦ err e | ok ids ↦ ok (id ∷ ids) ]
        ]

  unfoldable pub build_gdrive_source :
      SourceCrawler → Option GoogleDriveConfig → Text → Io World Drives
  build_gdrive_source cr config output_dir = do
    gdrive ← from (or_missing (codes "gdriveConfig is required when source type is gdrive") config)
    controls ← from (
        or_missing (codes "googleDriveConfig is not set in ControllerConfig")
          drive.controller_config)
    got ← attempt (gdrive_credentials_from_secret deps.get_secret cr.secret_ref cr.namespace)
    credentials ← from (labelled (codes "failed to get gdrive credentials: ") got)
    google ← from (
        labelled (codes "failed to create google client: ")
          (drive.new_client_from_json credentials))
    from (required drive.has_ldap_client (codes "LDAP client not initialized in ControllerConfig"))
    from
        (required drive.has_cache_client (codes "cache client not initialized in ControllerConfig"))
    from (
        required drive.has_global_google_client
          (codes "global Google client for group resolution not initialized in ControllerConfig"))
    client ← from (labelled (codes "failed to create gdrive client: ") (drive.new_client google))
    ids ← from (folder_ids gdrive.folder_urls)
    pure (record {
      gdrive_client = client;
      folder_ids = ids;
      skip_folder_names = gdrive.skip_folders;
      max_retries = or_default (pos 3) controls.max_retries;
      concurrent_folders = or_default (pos 5) controls.concurrent_folders;
      concurrent_downloads = or_default (pos 10) controls.concurrent_downloads;
      output_dir = output_dir;
    })

  unfoldable pub build_s3_source : SourceCrawler → Text → Io World (S3BucketSource deps.env)
  build_s3_source cr output_dir = do
    got ←
        attempt
          (aws_config_from_secret deps.get_secret cr.secret_ref cr.namespace (codes "SOURCE_S3_"))
    aws ← from (labelled (codes "failed to get source credentials: ") got)
    client ← from (
        labelled (codes "failed to create source S3 client: ")
          (deps.new_s3_client aws cr.config.s3_config.bucket))
    pure (record { s3 = client; prefix = cr.config.s3_config.prefix; output_dir = output_dir })

  -- The switch on the type of the source.
  unfoldable pub build_source : SourceCrawler → Text → Io World Source
  build_source cr output_dir =
      if cr.config.type == codes "s3"
      then (do source ← build_s3_source cr output_dir; pure (s3_source source))
      else if cr.config.type == codes "googleDrive"
      then (do
        source ← build_gdrive_source cr cr.config.google_drive_config output_dir
        pure (gdrive_source source))
      else raise (new_error (codes "unsupported source type: " ++ cr.config.type))

  abbrev urls_of : Option GoogleDriveConfig → List Text
  urls_of none = []
  urls_of (some config) = config.folder_urls

  -- SyncFilesToFilestore of the source, with the status of the folders of Google Drive.
  abbrev pub sync_source :
      FileStore deps.env
      → SourceCrawler
      → Source
      → World
      → (Result (List RawFileMetadata) × List GDriveFolderStatus) × World
  sync_source fs cr (s3_source source) w =
      let (r, w') = sync_files_to_filestore deps.env deps.raw_json fs source w in ((r, []), w')
  sync_source fs cr (gdrive_source source) w =
      let ((r, failed), w') = drive.sync source fs w in
      (
        (r, build_gdrive_status failed (urls_of cr.config.google_drive_config) source.folder_ids),
        w',
      )

  -- handleSQSWakeUp: the long poll of DrainSQSQueue is the wait, whatever it returns.
  abbrev pub drained : Result Bool → Next
  drained r = requeue

  abbrev pub drain_if : (queue_url bucket prefix : Text) → Result (Unit {0}) → World → Next × World
  drain_if queue_url bucket prefix (err e) w = (requeue_after 10, w)
  drain_if queue_url bucket prefix (ok _) w =
      let (r, w') = queue.drain_sqs_queue queue_url bucket prefix w in (drained r, w')

  unfoldable pub handle_sqs_wake_up : (queue_url bucket prefix : Text) → World → Next × World
  handle_sqs_wake_up queue_url bucket prefix w =
      let (r, w') = queue.get_sqs_client w in drain_if queue_url bucket prefix r w'

  module _ (storage : Storage deps.env.Handle) where
    abbrev pub State : Type 0
    State = Session World SourceCrawler SourceCrawlerStatus

    abbrev pub or_fail : {A : Type 0} → Result A → (A → Io State Next) → Io State Next
    or_fail = or_handle deps.env resource deps.kube storage

    abbrev pub with_gdrive_status : List GDriveFolderStatus → SourceCrawler → SourceCrawler
    with_gdrive_status folders c = record c { status = record c.status { gdrive_status = folders } }

    abbrev pub wake_up : Io State Next
    wake_up s =
        let config = s.cr.config.s3_config in
        let (next, w) =
          handle_sqs_wake_up config.sqs_queue_url config.bucket config.prefix s.world in
        (ok next, record s { world = w })

    abbrev pub with_sqs_client : AwsConfig → Io State Next
    with_sqs_client aws s =
        let (made, w) = queue.new_sqs_client_from_config aws s.world in
        or_fail (labelled (codes "failed to create SQS client: ") made) (λ _. wake_up)
          (record s { world = w })

    abbrev pub by_queue : Io State Next
    by_queue s =
        let (aws, w) =
          aws_config_from_secret deps.get_secret s.cr.secret_ref s.cr.namespace (codes "SOURCE_S3_")
            s.world in
        or_fail (labelled (codes "failed to get source credentials for SQS: ") aws) with_sqs_client
          (record s { world = w })

    -- When the source is to be looked at again: by the queue, or every two minutes.
    unfoldable pub requeue_strategy : Io State Next
    requeue_strategy s =
        if s.cr.config.type == codes "s3"
        then (if s.cr.config.s3_config.sqs_queue_url == []
            then (ok (requeue_after 120), s)
            else by_queue s)
        else (ok (requeue_after 120), s)

    abbrev pub conclude : Result (List RawFileMetadata) → List GDriveFolderStatus → Io State Next
    conclude (err e) folders = do
      attempt (patch deps.env resource deps.kube storage (with_gdrive_status folders))
      handle_error deps.env resource deps.kube storage
          (wrap (codes "failed to store files to filestore: ") e)
    conclude (ok files) folders = do
      λ s.
          succeed deps.env resource deps.kube storage
            (codes "successfully reconciled source crawler: " ++ s.cr.name) (length files)
            (with_gdrive_status folders) finished s
      requeue_strategy

    abbrev pub run_source : FileStore deps.env → Source → Io State Next
    run_source fs source s =
        let ((files, folders), w) = sync_source fs s.cr source s.world in
        conclude files folders (record s { world = w })

    unfoldable pub run : Text → FileStore deps.env → Io State Next
    run pipeline fs s =
        let (source, w) = build_source s.cr (stage_path pipeline s.cr.stage_name) s.world in
        or_fail source (run_source fs) (record s { world = w })

    -- Reconcile of a SourceCrawler.
    unfoldable pub reconcile : Io State Next
    reconcile = StageFrame.reconcile deps.env resource deps.kube storage run
