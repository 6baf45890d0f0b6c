-- ===== src/Controller/DocumentProcessor/Attempts/Steps.antt =====
-- The attempt counts under `needsConversion` of internal/controller/documentprocessor_controller.go.
use unstructured_data_contro.FileStore.{FileStore}
use unstructured_data_contro.Api.DocumentProcessor.{
  Job, DocumentProcessor, DocumentProcessorStatus, get_job_by_file_path, delete_job_by_file_path,
  add_or_update_job,
}
use unstructured_data_contro.Api.DocumentProcessor.Jobs.{find_job-drop_jobs}
use unstructured_data_contro.Controller.{Session, lift, status_patch}
use unstructured_data_contro.Controller.DocumentProcessor.{
  Deps, wanted, look, convert_anew, by_job_status, by_job, by_state, needs_conversion,
}
use unstructured_data_contro.Controller.DocumentProcessor.Attempts.{
  Untried, MergeLaws, Good, put_job-AllFirst, drop_jobs-AllFirst, patch-Good, lift-Good,
}
use unstructured_data_contro.Unstructured.ConvertedFile.{ConvertedFileMetadata}
use unstructured_data_contro.Prelude.{
  Text, true, Option, none, some, nat_eq, list_eq, Result, ok, err, Keeps, Keeps-bind, ◌≡◌, arith,
  refl, pure,
}

pub delete_job-Untried :
    (path : Text) (d : DocumentProcessor)
    → Untried d.status
    → Untried (delete_job_by_file_path path d).status
unfolding delete_job_by_file_path
delete_job-Untried path d u = record {
  first = drop_jobs-AllFirst path d.status.jobs u.first;
  none_failing = u.none_failing;
}

pub add_job-Untried :
    (job : Job) (d : DocumentProcessor)
    → job.attempts ≡ 1
    → Untried d.status
    → Untried (add_or_update_job job d).status
unfolding add_or_update_job
add_job-Untried job d h u = record {
  first = put_job-AllFirst job d.status.jobs h u.first;
  none_failing = u.none_failing;
}

module _ (deps : Deps) (fs : FileStore deps.env) (input_path output_path : Text) where
  abbrev State : Type 0
  State = Session deps.env.World DocumentProcessor DocumentProcessorStatus

  -- A document that is to be converted has no job left.
  convert_anew_fresh :
      (path : Text) (s : State)
      → (convert_anew deps fs input_path output_path path s).0 ≡ ok true
      → get_job_by_file_path path (convert_anew deps fs input_path output_path path s).1.cr ≡ none
  unfolding convert_anew status_patch get_job_by_file_path delete_job_by_file_path
  convert_anew_fresh path s h = ground (arith, find_job-drop_jobs path path s.cr.status.jobs)

  by_job_status_fresh :
      (path : Text) (job : Job) (s : State)
      → (by_job_status deps fs input_path output_path path job s).0 ≡ ok true
      → get_job_by_file_path path (by_job_status deps fs input_path output_path path job s).1.cr
        ≡ none
  unfolding by_job_status
  by_job_status_fresh path job s h = ground (arith, convert_anew_fresh path s)

  by_job_fresh :
      (path : Text) (m : ConvertedFileMetadata) (job : Option Job) (s : State)
      → get_job_by_file_path path s.cr ≡ job
      → (by_job deps fs input_path output_path path m job s).0 ≡ ok true
      → get_job_by_file_path path (by_job deps fs input_path output_path path m job s).1.cr ≡ none
  by_job_fresh path m none s e h = e
  by_job_fresh path m (some job) s e h =
      ground (arith, convert_anew_fresh path s, by_job_status_fresh path job s)

  by_state_fresh :
      (path : Text) (seen : Option (Text × Option ConvertedFileMetadata)) (s : State)
      → (by_state deps fs input_path output_path path seen s).0 ≡ ok true
      → get_job_by_file_path path (by_state deps fs input_path output_path path seen s).1.cr ≡ none
  by_state_fresh path none s h = cc
  by_state_fresh path (some (uid, converted)) s h =
      ground
        (arith, by_job_fresh path (wanted path uid s.cr) (get_job_by_file_path path s.cr) s refl)

  -- If needsConversion answers that a document must be converted, the object in memory has no job
  -- for it left.
  pub needs_conversion_fresh :
      (path : Text) (s : State)
      → (needs_conversion deps fs input_path output_path path s).0 ≡ ok true
      → get_job_by_file_path path (needs_conversion deps fs input_path output_path path s).1.cr
        ≡ none
  unfolding needs_conversion
  needs_conversion_fresh path s h =
      by_result (look deps fs input_path output_path path s.world).0 refl
    where
      looked : State
      looked = (lift (look deps fs input_path output_path path) s).1

      by_result :
          (r : Result (Option (Text × Option ConvertedFileMetadata)))
          → (look deps fs input_path output_path path s.world).0 ≡ r
          → get_job_by_file_path path (needs_conversion deps fs input_path output_path path s).1.cr
            ≡ none
      by_result (ok seen) e = ground (arith, e, by_state_fresh path seen looked)
      by_result (err x) e = absurd (ground (arith, e))

module _ (deps : Deps) (merges : MergeLaws deps.kube) (fs : FileStore deps.env)
    (input_path output_path : Text) where
  abbrev Holds : Session deps.env.World DocumentProcessor DocumentProcessorStatus → Type 0
  Holds = Good deps.kube merges

  convert_anew-Good : (path : Text) → Keeps Holds (convert_anew deps fs input_path output_path path)
  unfolding convert_anew
  convert_anew-Good path =
      Keeps-bind Holds
        (status_patch deps.kube (λ (d : DocumentProcessor). d.status)
          (delete_job_by_file_path path))
        (λ _. pure true)
        (patch-Good deps.kube merges (delete_job_by_file_path path) (delete_job-Untried path))
        (λ _ s g. g)

  by_job_status-Good :
      (path : Text) (job : Job)
      → Keeps Holds (by_job_status deps fs input_path output_path path job)
  unfolding by_job_status
  by_job_status-Good path job s g = ground (arith, convert_anew-Good path s g)

  by_job-Good :
      (path : Text) (m : ConvertedFileMetadata) (job : Option Job)
      → Keeps Holds (by_job deps fs input_path output_path path m job)
  by_job-Good path m none s g = g
  by_job-Good path m (some job) s g =
      ground (arith, by_job_status-Good path job s g, convert_anew-Good path s g)

  by_state-Good :
      (path : Text) (seen : Option (Text × Option ConvertedFileMetadata))
      → Keeps Holds (by_state deps fs input_path output_path path seen)
  by_state-Good path none s g = g
  by_state-Good path (some (uid, converted)) s g =
      ground (arith, by_job-Good path (wanted path uid s.cr) (get_job_by_file_path path s.cr) s g)

  pub needs_conversion-Good :
      (path : Text) → Keeps Holds (needs_conversion deps fs input_path output_path path)
  unfolding needs_conversion
  needs_conversion-Good path =
      Keeps-bind Holds (lift (look deps fs input_path output_path path))
        (by_state deps fs input_path output_path path)
        (lift-Good deps.kube merges (look deps fs input_path output_path path)) (by_state-Good path)
