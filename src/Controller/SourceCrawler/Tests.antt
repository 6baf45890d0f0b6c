-- ===== src/Controller/SourceCrawler/Tests.antt =====
-- The source crawler in a world in memory: an empty bucket, and addresses of folders.
use unstructured_data_contro.GoPath.{join, split}
use unstructured_data_contro.Env.Memory.{Memory, memory}
use unstructured_data_contro.FileStore.{
  new, get_file_store_s3_client, list_files_in_path, list_objects_in_prefix, append_pages,
  sort_by_size,
}
use unstructured_data_contro.Api.SourceCrawler.{
  SourceCrawler, SourceCrawlerStatus, set_waiting, update_status,
}
use unstructured_data_contro.Unstructured.Codec.Lengths.{length_codec}
use unstructured_data_contro.Unstructured.Layout.{stage_path}
use unstructured_data_contro.Unstructured.S3Source.{
  sync_files_to_filestore, sync_objects, sweep, output_prefix,
}
use unstructured_data_contro.Controller.{
  Session, status_patch, parent_pipeline_name_from_owner_reference,
}
use unstructured_data_contro.Controller.Secrets.{aws_config_from_secret}
use unstructured_data_contro.Controller.StageFrame
use unstructured_data_contro.Controller.StageFrame.{
  Storage, finished, requeue_after, handle_error, succeed, wait_and_run,
}
use unstructured_data_contro.Controller.SourceCrawler.{
  Deps, extract_gdrive_folder_id, after_folders, build_gdrive_status, failed_of,
}
use unstructured_data_contro.Controller.SourceCrawler.Reconcile.{
  build_source, build_s3_source, requeue_strategy, run, reconcile,
}
use unstructured_data_contro.Controller.SourceCrawler.Again.{reconcile-ne-finished}
use unstructured_data_contro.Prelude.{
  Text, codes, true, false, none, some, [], ◌∷◌, ◌==◌, nat_eq, list_eq, Result, ok, err, new_error,
  pure, raise, ◌≡◌, ◌≢◌, refl, contains_text, if◌then◌else◌,
}

-- The path of an address behind the host, of these addresses.
abbrev url_path : Text → Result Text
url_path raw =
    if raw == codes "https://drive.google.com/drive/u/0/folders/1AB/"
    then ok (codes "/drive/u/0/folders/1AB/")
    else err (new_error (codes "invalid URL"))

folder_of_url :
    extract_gdrive_folder_id url_path (codes "https://drive.google.com/drive/u/0/folders/1AB/")
    ≡ ok (codes "1AB")
unfolding extract_gdrive_folder_id after_folders split contains_text nat_eq list_eq
folder_of_url = refl

folder_of_id : extract_gdrive_folder_id url_path (codes "1AB") ≡ ok (codes "1AB")
unfolding extract_gdrive_folder_id contains_text nat_eq list_eq
folder_of_id = refl

failed_folder :
    build_gdrive_status
      (record { folder_id = codes "2"; error = codes "denied" } ∷ [])
      (codes "u1" ∷ codes "u2" ∷ [])
      (codes "1" ∷ codes "2" ∷ [])
    ≡ record { url = codes "u1"; error = [] }
      ∷ record { url = codes "u2"; error = codes "denied" }
      ∷ []
unfolding build_gdrive_status failed_of nat_eq list_eq
failed_folder = refl

abbrev no_status : SourceCrawlerStatus
no_status = record {
  last_applied_generation = 0;
  conditions = [];
  files_processed = 0;
  gdrive_status = [];
}

abbrev crawler : SourceCrawler
crawler = record {
  name = codes "p-crawl";
  namespace = codes "n";
  owner_references = record { name = codes "p"; is_controller = true } ∷ [];
  generation = 1;
  stage_name = codes "crawl";
  depends_on = [];
  secret_ref = [];
  config = record {
    type = codes "s3";
    s3_config = record { bucket = codes "b"; prefix = codes "docs/"; sqs_queue_url = [] };
    google_drive_config = none;
  };
  status = no_status;
}

abbrev deps : Deps
deps = record {
  env = memory;
  drive = record {
    GoogleClient = Unit;
    Client = Unit;
    controller_config = none;
    has_ldap_client = false;
    has_cache_client = false;
    has_global_google_client = false;
    new_client_from_json = λ t. err (new_error (codes "no client"));
    new_client = λ c. err (new_error (codes "no client"));
    url_path = url_path;
    quote = λ t. t;
    sync = λ source fs w. ((ok [], []), w);
  };
  queue = record {
    get_sqs_client = pure tt;
    new_sqs_client_from_config = λ c. pure tt;
    drain_sqs_queue = λ q b p. pure true;
  };
  kube = record {
    is_config_healthy = pure true;
    get = λ s. pure (record crawler { status = s });
    patch_status = pure tt;
    patch_reached = λ w. false;
    merge_patch = λ base target server. target;
    now = pure (codes "2025-01-01T00:00:00Z");
  };
  raw_json = length_codec;
  get_secret = λ name namespace. raise (new_error (codes "not found"));
  new_s3_client = λ c b. ok tt;
}

abbrev storage : Storage (Unit {0})
storage = record { data_storage_directory = codes "/t"; file_store_client = some tt }

abbrev start : Session Memory SourceCrawler SourceCrawlerStatus
start = record {
  cr = crawler;
  server = no_status;
  world = record { files = λ p. none; objects = λ k. none; keys = []; reachable = true };
}

crawls : (reconcile deps storage start).0 ≡ ok (requeue_after 120)
unfolding reconcile run StageFrame.reconcile wait_and_run new get_file_store_s3_client handle_error
    succeed status_patch parent_pipeline_name_from_owner_reference set_waiting update_status
    stage_path build_source build_s3_source requeue_strategy aws_config_from_secret
    sync_files_to_filestore sync_objects sweep output_prefix list_files_in_path
    list_objects_in_prefix append_pages sort_by_size join nat_eq list_eq
crawls = refl

reconcile-ne-finished_example : requeue_after 120 ≢ finished
reconcile-ne-finished_example = reconcile-ne-finished deps storage start (requeue_after 120) crawls
