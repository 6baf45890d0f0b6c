-- ===== src/Api/DocumentProcessor/Jobs.antt =====
-- The job list of api/v1alpha1/documentprocessor_types.go as a map from file paths to jobs.
use unstructured_data_contro.Api.DocumentProcessor.{
  Job, DocumentProcessor, put_job, find_job, drop_jobs, add_or_update_job, get_job_by_file_path,
  delete_job_by_file_path, is_file_permanently_failing, add_permanently_failing_file,
}
use unstructured_data_contro.Prelude.{
  Text, none, some, List, [], ◌∷◌, ◌++◌, ◌==◌, nat_eq, list_eq, contains, ◌≡◌, ◌||◌, if◌then◌else◌,
  arith, refl,
}

find_job-put_job :
    (path : Text) (job : Job) (jobs : List Job)
    → find_job path (put_job job jobs)
      ≡ (if job.file_path == path then some job else find_job path jobs)
unfolding find_job put_job
find_job-put_job path job [] = ground arith
find_job-put_job path job (j ∷ jobs) = ground (arith, find_job-put_job path job jobs)

pub find_job-drop_jobs :
    (path p : Text) (jobs : List Job)
    → find_job path (drop_jobs p jobs) ≡ (if p == path then none else find_job path jobs)
unfolding find_job drop_jobs
find_job-drop_jobs path p [] = ground arith
find_job-drop_jobs path p (j ∷ jobs) = ground (arith, find_job-drop_jobs path p jobs)

-- After AddOrUpdateJob, GetJobByFilePath finds the new job under its path, and under every other
-- path what it found before.
pub get_job-add_or_update_job :
    (path : Text) (job : Job) (d : DocumentProcessor)
    → get_job_by_file_path path (add_or_update_job job d)
      ≡ (if job.file_path == path then some job else get_job_by_file_path path d)
unfolding get_job_by_file_path add_or_update_job
get_job-add_or_update_job path job d = find_job-put_job path job d.status.jobs

-- After DeleteJobByFilePath, GetJobByFilePath finds nothing under that path, and under every other
-- path what it found before.
pub get_job-delete_job :
    (path p : Text) (d : DocumentProcessor)
    → get_job_by_file_path path (delete_job_by_file_path p d)
      ≡ (if p == path then none else get_job_by_file_path path d)
unfolding get_job_by_file_path delete_job_by_file_path
get_job-delete_job path p d = find_job-drop_jobs path p d.status.jobs

-- At most one job for each path.
abbrev pub UniquePaths : List Job → Type 0
UniquePaths [] = Unit
UniquePaths (job ∷ jobs) = (find_job job.file_path jobs ≡ none) × UniquePaths jobs

put_job-UniquePaths :
    (job : Job) (jobs : List Job) → UniquePaths jobs → UniquePaths (put_job job jobs)
unfolding put_job find_job
put_job-UniquePaths job [] u = (refl, tt)
put_job-UniquePaths job (j ∷ jobs) u =
    ground (arith, put_job-UniquePaths job jobs u.1, find_job-put_job j.file_path job jobs)

drop_jobs-UniquePaths :
    (p : Text) (jobs : List Job) → UniquePaths jobs → UniquePaths (drop_jobs p jobs)
unfolding drop_jobs
drop_jobs-UniquePaths p [] u = tt
drop_jobs-UniquePaths p (j ∷ jobs) u =
    ground (arith, drop_jobs-UniquePaths p jobs u.1, find_job-drop_jobs j.file_path p jobs)

-- If there is at most one job for each file, then also after AddOrUpdateJob and after
-- DeleteJobByFilePath.
pub jobs-UniquePaths :
    (p : Text) (job : Job) (d : DocumentProcessor)
    → UniquePaths d.status.jobs
    → UniquePaths (add_or_update_job job d).status.jobs
      × UniquePaths (delete_job_by_file_path p d).status.jobs
unfolding add_or_update_job delete_job_by_file_path
jobs-UniquePaths p job d u =
    (put_job-UniquePaths job d.status.jobs u, drop_jobs-UniquePaths p d.status.jobs u)

contains-append : (l : List Text) (p q : Text) → contains (l ++ p ∷ []) q ≡ (contains l q || q == p)
contains-append [] p q = ground arith
contains-append (x ∷ l) p q = ground (arith, contains-append l p q)

-- AddPermanentlyFailingFile adds the file and no other to the files that are given up.
pub is_failing-add_failing :
    (p q : Text) (d : DocumentProcessor)
    → is_file_permanently_failing q (add_permanently_failing_file p d)
      ≡ (is_file_permanently_failing q d || q == p)
unfolding is_file_permanently_failing add_permanently_failing_file
is_failing-add_failing p q d =
    ground (arith, contains-append d.status.permanently_failing_files p q)
