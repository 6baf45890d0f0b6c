-- ===== src/Api/DocumentProcessor.antt =====
-- `DocumentProcessor` of api/v1alpha1/documentprocessor_types.go: the list of conversion jobs and the
-- list of files that are given up.
pub mod Jobs
use unstructured_data_contro.Api.Condition.{
  Condition, put_condition, waiting, outcome_condition, applied_generation,
}
use unstructured_data_contro.Api.DoclingConfig.{DoclingConfig, DocumentProcessorConfig}
use unstructured_data_contro.Prelude.{
  ℕ, Text, codes, Option, none, some, Bool, true, false, List, [], ◌∷◌, ◌++◌, ◌==◌, nat_eq, list_eq,
  if◌then◌else◌, contains, Error,
}

pub record Job : Type 0 where
  pub file_path : Text
  pub file_identifier : Text
  pub document_converter : Text
  pub docling_config : DoclingConfig
  pub task_id : Text
  pub status : Text
  pub created_on : Text
  pub attempts : ℕ

pub record DocumentProcessorStatus : Type 0 where
  pub last_applied_generation : ℕ
  pub conditions : List Condition
  pub jobs : List Job
  pub permanently_failing_files : List Text
  pub files_processed : ℕ

pub record OwnerReference : Type 0 where
  pub name : Text
  -- ref.Controller != nil && *ref.Controller
  pub is_controller : Bool

pub record DocumentProcessor : Type 0 where
  pub name : Text
  pub namespace : Text
  pub owner_references : List OwnerReference
  pub generation : ℕ
  pub stage_name : Text
  pub depends_on : List Text
  pub config : DocumentProcessorConfig
  pub status : DocumentProcessorStatus

abbrev pub document_processor_condition : Text
document_processor_condition = codes "DocumentProcessorReady"

unfoldable pub put_job : Job → List Job → List Job
put_job new [] = new ∷ []
put_job new (job ∷ jobs) =
    if job.file_path == new.file_path then new ∷ jobs else job ∷ put_job new jobs

unfoldable pub find_job : Text → List Job → Option Job
find_job path [] = none
find_job path (job ∷ jobs) = if job.file_path == path then some job else find_job path jobs

unfoldable pub drop_jobs : Text → List Job → List Job
drop_jobs path [] = []
drop_jobs path (job ∷ jobs) =
    let rest = drop_jobs path jobs in if job.file_path == path then rest else job ∷ rest

unfoldable pub add_or_update_job : Job → DocumentProcessor → DocumentProcessor
add_or_update_job job d = record d { status = record d.status { jobs = put_job job d.status.jobs } }

unfoldable pub get_job_by_file_path : Text → DocumentProcessor → Option Job
get_job_by_file_path path d = find_job path d.status.jobs

unfoldable pub delete_job_by_file_path : Text → DocumentProcessor → DocumentProcessor
delete_job_by_file_path path d = record d {
  status = record d.status { jobs = drop_jobs path d.status.jobs };
}

unfoldable pub is_file_permanently_failing : Text → DocumentProcessor → Bool
is_file_permanently_failing path d = contains d.status.permanently_failing_files path

unfoldable pub add_permanently_failing_file : Text → DocumentProcessor → DocumentProcessor
add_permanently_failing_file path d =
    if contains d.status.permanently_failing_files path then d else record d {
      status = record d.status {
        permanently_failing_files = d.status.permanently_failing_files ++ path ∷ [];
      };
    }

unfoldable pub set_waiting : DocumentProcessor → DocumentProcessor
set_waiting d = record d {
  status = record d.status {
    conditions =
        put_condition
          (waiting document_processor_condition (codes "DocumentProcessor is getting reconciled"))
          d.status.conditions;
  };
}

unfoldable pub update_status : Text → Option Error → DocumentProcessor → DocumentProcessor
update_status message e d = record d {
  status = record d.status {
    last_applied_generation = applied_generation d.generation d.status.last_applied_generation e;
    conditions =
        put_condition (outcome_condition document_processor_condition message e)
          d.status.conditions;
  };
}
