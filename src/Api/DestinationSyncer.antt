-- ===== src/Api/DestinationSyncer.antt =====
-- `DestinationSyncer` of api/v1alpha1/destinationsyncer_types.go.
use unstructured_data_contro.Api.Condition.{
  Condition, put_condition, waiting, outcome_condition, applied_generation,
}
use unstructured_data_contro.Api.DocumentProcessor.{OwnerReference}
use unstructured_data_contro.Prelude.{ℕ, ◌+◌, Text, codes, Option, List, nat_eq, list_eq, Error}

pub record S3DestinationConfig : Type 0 where
  pub bucket : Text
  pub prefix : Text

pub record DestinationSyncerConfig : Type 0 where
  pub type : Text
  pub s3_destination_config : S3DestinationConfig

pub record DestinationSyncerStatus : Type 0 where
  pub last_applied_generation : ℕ
  pub conditions : List Condition
  pub files_processed : ℕ

pub record DestinationSyncer : Type 0 where
  pub name : Text
  pub namespace : Text
  pub owner_references : List OwnerReference
  pub generation : ℕ
  pub stage_name : Text
  pub depends_on : List Text
  pub secret_ref : Text
  pub config : DestinationSyncerConfig
  pub status : DestinationSyncerStatus

abbrev pub destination_syncer_condition : Text
destination_syncer_condition = codes "DestinationSyncerReady"

unfoldable pub set_waiting : DestinationSyncer → DestinationSyncer
set_waiting c = record c {
  status = record c.status {
    conditions =
        put_condition
          (waiting destination_syncer_condition (codes "DestinationSyncer is getting reconciled"))
          c.status.conditions;
  };
}

unfoldable pub update_status : Text → Option Error → DestinationSyncer → DestinationSyncer
update_status message e c = record c {
  status = record c.status {
    last_applied_generation = applied_generation c.generation c.status.last_applied_generation e;
    conditions =
        put_condition (outcome_condition destination_syncer_condition message e)
          c.status.conditions;
  };
}

-- Status.FilesProcessed += n
abbrev pub add_files_processed : ℕ → DestinationSyncer → DestinationSyncer
add_files_processed n c = record c {
  status = record c.status { files_processed = c.status.files_processed + n };
}
