-- ===== src/Controller/SourceCrawler.antt =====
-- internal/controller/sourcecrawler_controller.go: the files of a source are copied into the file
-- store. The S3 source is that of Unstructured/S3Source; the run of a Google Drive source, its
-- clients, url.Parse and the SQS queue are parameters.
pub mod Reconcile
pub mod Again
mod Tests
use unstructured_data_contro.GoPath.{split}
use unstructured_data_contro.Env.{Env}
use unstructured_data_contro.FileStore.{FileStore}
use unstructured_data_contro.Api.SourceCrawler.{
  SourceCrawler, SourceCrawlerStatus, GDriveFolderStatus, GoogleDriveConfig, set_waiting,
  update_status, add_files_processed,
}
use unstructured_data_contro.Unstructured.Codec.{Codec}
use unstructured_data_contro.Unstructured.Layout.{RawFileMetadata, stage_path}
use unstructured_data_contro.Unstructured.S3Source.{S3BucketSource, sync_files_to_filestore}
use unstructured_data_contro.Controller.{Session, Kube, lift, status_patch}
use unstructured_data_contro.Controller.Secrets.{
  Secret, AwsConfig, aws_config_from_secret, gdrive_credentials_from_secret,
}
use unstructured_data_contro.Controller.StageFrame
use unstructured_data_contro.Controller.StageFrame.{
  Next, finished, requeue, requeue_after, StageResource, Storage, handle_error, or_handle, patch,
  succeed,
}
use unstructured_data_contro.Prelude.{
  ℕ, Text, codes, Bool, true, false, Option, none, some, List, [], ◌∷◌, ◌++◌, ◌==◌, nat_eq, list_eq,
  map, reverse, length, contains_text, if◌then◌else◌, Result, ok, err, Error, new_error, wrap, Io,
  pure, raise, attempt, ◌>>=◌, ◌>>◌, ℤ, is_zero,
}

pub record FailedRootFolder : Type 0 where
  pub folder_id : Text
  pub error : Text

pub record GDriveControllerConfig : Type 0 where
  pub max_retries : ℤ
  pub concurrent_folders : ℤ
  pub concurrent_downloads : ℤ

pub record GDriveSource (Client : Type 0) : Type 0 where
  pub gdrive_client : Client
  pub folder_ids : List Text
  pub skip_folder_names : List Text
  pub max_retries : ℤ
  pub concurrent_folders : ℤ
  pub concurrent_downloads : ℤ
  pub output_dir : Text

-- Google Drive: the settings and clients of the process, the constructors of clients, the path of
-- a URL, and a run of GDriveSource with the folders that failed.
pub record Drive (env : Env) : Type 1 where
  pub GoogleClient : Type 0
  pub Client : Type 0
  pub controller_config : Option GDriveControllerConfig
  pub has_ldap_client : Bool
  pub has_cache_client : Bool
  pub has_global_google_client : Bool
  pub new_client_from_json : Text → Result GoogleClient
  pub new_client : GoogleClient → Result Client
  pub url_path : Text → Result Text
  pub quote : Text → Text
  pub sync :
      GDriveSource Client
      → FileStore env
      → env.World
      → (Result (List RawFileMetadata) × List FailedRootFolder) × env.World

-- The SQS client of the process: GetSQSClient, NewSQSClientFromConfig, DrainSQSQueue.
pub record Queue (W : Type 0) : Type 0 where
  pub get_sqs_client : Io W (Unit {0})
  pub new_sqs_client_from_config : AwsConfig → Io W (Unit {0})
  pub drain_sqs_queue : (queue_url bucket prefix : Text) → Io W Bool

pub record Deps : Type 1 where
  pub env : Env
  pub drive : Drive env
  pub queue : Queue env.World
  pub kube : Kube env.World SourceCrawler SourceCrawlerStatus
  pub raw_json : Codec RawFileMetadata
  -- r.Get of a secret
  pub get_secret : Text → Text → Io env.World Secret
  -- awsclienthandler.NewS3Client, with the bucket that it is used for
  pub new_s3_client : AwsConfig → Text → Result env.Handle

abbrev pub resource : StageResource SourceCrawler SourceCrawlerStatus
resource = record {
  name = λ c. c.name;
  namespace = λ c. c.namespace;
  owner_references = λ c. c.owner_references;
  status = λ c. c.status;
  with_status = λ s c. record c { status = s };
  prepare = λ c. c;
  set_waiting = set_waiting;
  update_status = update_status;
  add_files_processed = add_files_processed;
  store_error = wrap (codes "failed to create filestore: ");
}

abbrev pub labelled : {A : Type 0} → Text → Result A → Result A
labelled label (ok a) = ok a
labelled label (err e) = err (wrap label e)

-- strings.TrimRight(path, "/") on the bytes in reverse
abbrev pub drop_slashes : Text → Text
drop_slashes [] = []
drop_slashes (c ∷ s) = if c == 47 then drop_slashes s else c ∷ s

abbrev pub trim_right_slashes : Text → Text
trim_right_slashes s = reverse (drop_slashes (reverse s))

-- The part behind the first part "folders" that has one behind it.
unfoldable pub after_folders : List Text → Option Text
after_folders [] = none
after_folders (part ∷ []) = none
after_folders (part ∷ next ∷ parts) =
    let rest = after_folders (next ∷ parts) in if part == codes "folders" then some next else rest

abbrev pub folder_in : Text → Result Text
folder_in path = elim (after_folders (split (trim_right_slashes path))) [
  | some id ↦ ok id
  | none ↦ err (new_error (codes "could not extract folder ID from URL path: " ++ path))
]

unfoldable pub extract_gdrive_folder_id : (Text → Result Text) → Text → Result Text
extract_gdrive_folder_id url_path raw =
    if contains_text raw (codes "/")
    then elim (url_path raw) [
      | err e ↦ err (wrap (codes "failed to parse URL: ") e)
      | ok path ↦ folder_in path
    ]
    else ok raw

-- if x == 0 { x = d }
abbrev pub or_default : ℤ → ℤ → ℤ
or_default d x = if is_zero x then d else x

-- failedMap, in which a later folder replaces an earlier one
unfoldable pub failed_of : List FailedRootFolder → Text → Option Text
failed_of [] id = none
failed_of (f ∷ folders) id =
    let rest = failed_of folders id in
    elim rest [ some e ↦ some e | none ↦ if f.folder_id == id then some f.error else none ]

abbrev error_text : Option Text → Text
error_text none = []
error_text (some e) = e

-- One entry for each folder of the configuration; there are as many IDs.
unfoldable pub build_gdrive_status :
    List FailedRootFolder → List Text → List Text → List GDriveFolderStatus
build_gdrive_status failed [] ids = []
build_gdrive_status failed (url ∷ urls) [] = []
build_gdrive_status failed (url ∷ urls) (id ∷ ids) =
    record { url = url; error = error_text (failed_of failed id) }
    ∷ build_gdrive_status failed urls ids
