-- ===== src/Controller/DestinationSyncer.antt =====
-- internal/controller/destinationsyncer_controller.go: the files of the stages before are uploaded
-- to a bucket.
use unstructured_data_contro.Env.{Env}
use unstructured_data_contro.FileStore.{FileStore, list_files_in_path}
use unstructured_data_contro.Api.DestinationSyncer.{
  DestinationSyncer, DestinationSyncerStatus, set_waiting, update_status, add_files_processed,
}
use unstructured_data_contro.Unstructured.Layout.{stage_path}
use unstructured_data_contro.Unstructured.S3Destination.{
  S3Destination, Sums, sync_files_to_destination,
}
use unstructured_data_contro.Controller.{Session, Kube}
use unstructured_data_contro.Controller.Secrets.{Secret, AwsConfig, aws_config_from_secret}
use unstructured_data_contro.Controller.StageFrame
use unstructured_data_contro.Controller.StageFrame.{
  Next, finished, StageResource, Storage, handle_error, or_handle, succeed,
}
use unstructured_data_contro.Prelude.{
  ℕ, ◌+◌, Text, codes, List, [], ◌∷◌, ◌++◌, ◌==◌, nat_eq, list_eq, length, if◌then◌else◌, Result,
  ok, err, new_error, wrap, Io,
}

pub record Deps : Type 1 where
  pub env : Env
  pub sums : Sums
  pub kube : Kube env.World DestinationSyncer DestinationSyncerStatus
  -- r.Get of a secret
  pub get_secret : Text → Text → Io env.World Secret
  -- awsclienthandler.NewS3Client, with the bucket that it is used for
  pub new_s3_client : AwsConfig → Text → Result env.Handle

abbrev pub resource : StageResource DestinationSyncer DestinationSyncerStatus
resource = record {
  name = λ c. c.name;
  namespace = λ c. c.namespace;
  owner_references = λ c. c.owner_references;
  status = λ c. c.status;
  with_status = λ s c. record c { status = s };
  prepare = λ c. c;
  set_waiting = set_waiting;
  update_status = update_status;
  add_files_processed = add_files_processed;
  store_error = λ e. e;
}

abbrev labelled : {A : Type 0} → Text → Result A → Result A
labelled label (ok a) = ok a
labelled label (err e) = err (wrap label e)

module _ (deps : Deps) (storage : Storage deps.env.Handle) where
  abbrev pub State : Type 0
  State = Session deps.env.World DestinationSyncer DestinationSyncerStatus

  abbrev or_fail : {A : Type 0} → Result A → (A → Io State Next) → Io State Next
  or_fail = or_handle deps.env resource deps.kube storage

  module _ (pipeline : Text) (fs : FileStore deps.env) (client : deps.env.Handle) where
    abbrev destination : DestinationSyncer → Text → S3Destination deps.env
    destination cr stage = record {
      s3 = client;
      bucket = cr.config.s3_destination_config.bucket;
      prefix = cr.config.s3_destination_config.prefix;
      stage_name = stage;
    }

    -- The loop over the dependencies: every listed file counts, also one that is not uploaded.
    unfoldable pub sync_stages : List Text → ℕ → Io State Next
    sync_stages [] total s =
        succeed deps.env resource deps.kube storage
          (codes "successfully reconciled destination sync: " ++ s.cr.name) total (λ c. c) finished
          s
    sync_stages (stage ∷ stages) total s =
        let (listed, w) = list_files_in_path deps.env fs (stage_path pipeline stage) s.world in
        or_fail listed
          (λ paths t.
            let (synced, v) =
              sync_files_to_destination deps.env deps.sums fs (destination t.cr stage) paths
                t.world in
            or_fail synced (λ _. sync_stages stages (total + length paths))
              (record t { world = v }))
          (record s { world = w })

  abbrev pub with_client : Text → FileStore deps.env → deps.env.Handle → Io State Next
  with_client pipeline fs client s = sync_stages pipeline fs client s.cr.depends_on 0 s

  abbrev pub with_config : Text → FileStore deps.env → AwsConfig → Io State Next
  with_config pipeline fs aws s =
      or_fail
        (labelled (codes "failed to create destination S3 client: ")
          (deps.new_s3_client aws s.cr.config.s3_destination_config.bucket))
        (with_client pipeline fs) s

  abbrev pub run_s3 : Text → FileStore deps.env → Io State Next
  run_s3 pipeline fs s =
      let (aws, w) =
        aws_config_from_secret deps.get_secret s.cr.secret_ref s.cr.namespace
          (codes "DESTINATION_S3_") s.world in
      or_fail (labelled (codes "failed to get destination S3 credentials: ") aws)
        (with_config pipeline fs) (record s { world = w })

  unfoldable pub run : Text → FileStore deps.env → Io State Next
  run pipeline fs s =
      if s.cr.config.type == codes "s3"
      then run_s3 pipeline fs s
      else handle_error deps.env resource deps.kube storage
          (new_error (codes "unsupported destination type: " ++ s.cr.config.type)) s

  -- Reconcile of a DestinationSyncer.
  unfoldable pub reconcile : Io State Next
  reconcile = StageFrame.reconcile deps.env resource deps.kube storage run
