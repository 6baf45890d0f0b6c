-- ===== src/Api/SourceCrawler.antt =====
-- `SourceCrawler` of api/v1alpha1/sourcecrawler_types.go.
use unstructured_data_contro.Api.Condition.{
  Condition, put_condition, waiting, outcome_condition, applied_generation,
}
use unstructured_data_contro.Api.DocumentProcessor.{OwnerReference}
use unstructured_data_contro.Prelude.{ℕ, ◌+◌, Text, codes, Option, List, nat_eq, list_eq, Error}

pub record S3Config : Type 0 where
  pub bucket : Text
  pub prefix : Text
  pub sqs_queue_url : Text

pub record GoogleDriveConfig : Type 0 where
  pub folder_urls : List Text
  pub skip_folders : List Text

pub record SourceCrawlerConfig : Type 0 where
  pub type : Text
  pub s3_config : S3Config
  pub google_drive_config : Option GoogleDriveConfig

pub record GDriveFolderStatus : Type 0 where
  pub url : Text
  pub error : Text

pub record SourceCrawlerStatus : Type 0 where
  pub last_applied_generation : ℕ
  pub conditions : List Condition
  pub files_processed : ℕ
  pub gdrive_status : List GDriveFolderStatus

pub record SourceCrawler : Type 0 where
  pub name : Text
  pub namespace : Text
  pub owner_references : List OwnerReference
  pub generation : ℕ
  pub stage_name : Text
  pub depends_on : List Text
  pub secret_ref : Text
  pub config : SourceCrawlerConfig
  pub status : SourceCrawlerStatus

abbrev pub source_crawler_condition : Text
source_crawler_condition = codes "SourceCrawlerReady"

unfoldable pub set_waiting : SourceCrawler → SourceCrawler
set_waiting c = record c {
  status = record c.status {
    conditions =
        put_condition
          (waiting source_crawler_condition (codes "SourceCrawler is getting reconciled"))
          c.status.conditions;
  };
}

unfoldable pub update_status : Text → Option Error → SourceCrawler → SourceCrawler
update_status message e c = record c {
  status = record c.status {
    last_applied_generation = applied_generation c.generation c.status.last_applied_generation e;
    conditions =
        put_condition (outcome_condition source_crawler_condition message e) c.status.conditions;
  };
}

-- Status.FilesProcessed += n
abbrev pub add_files_processed : ℕ → SourceCrawler → SourceCrawler
add_files_processed n c = record c {
  status = record c.status { files_processed = c.status.files_processed + n };
}
