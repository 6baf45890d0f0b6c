-- ===== src/Controller/DocumentProcessor/Attempts/Runs.antt =====
-- The attempt counts under `processDocument` and `reconcileJob` of
-- internal/controller/documentprocessor_controller.go.
use unstructured_data_contro.FileStore.{FileStore, get_file_url, store}
use unstructured_data_contro.Docling.{
  AsyncDoclingResponse, DoclingResponse, convert_file, get_converted_file,
}
use unstructured_data_contro.Api.DocumentProcessor.{
  Job, DocumentProcessor, DocumentProcessorStatus, get_job_by_file_path, add_or_update_job,
}
use unstructured_data_contro.Controller.{Session, lift, status_patch}
use unstructured_data_contro.Controller.Wire.{WireConfig}
use unstructured_data_contro.Controller.DocumentProcessor.{
  Deps, get_file_uid, needs_conversion, new_job, add_job, process_if, process_document,
  converted_path, encode_job, job_done, finish_job, fail_job, by_task_status, reconcile_job,
}
use unstructured_data_contro.Controller.DocumentProcessor.Attempts.{
  Untried, MergeLaws, Good, patch_at-Good, patch-Good, lift-Good,
}
use unstructured_data_contro.Controller.DocumentProcessor.Attempts.Steps.{
  delete_job-Untried, add_job-Untried, needs_conversion_fresh, needs_conversion-Good,
}
use unstructured_data_contro.Prelude.{
  Text, Bool, true, false, Option, none, Result, ok, err, Io, Keeps, Keeps-bind, Keeps-bind_with,
  bind_leads, ◌≡◌, arith, attempt, nat_eq, list_eq, ◌>>=◌, ◌>>◌,
}

module _ (deps : Deps) (merges : MergeLaws deps.kube) (fs : FileStore deps.env)
    (input_path output_path : Text) where
  abbrev State : Type 0
  State = Session deps.env.World DocumentProcessor DocumentProcessorStatus

  abbrev Holds : State → Type 0
  Holds = Good deps.kube merges

  abbrev patch : (DocumentProcessor → DocumentProcessor) → Io State (Unit {0})
  patch = status_patch deps.kube (λ (d : DocumentProcessor). d.status)

  -- Good, with no job for `path` in memory.
  abbrev Fresh : Text → State → Type 0
  Fresh path s = Holds s × (get_job_by_file_path path s.cr ≡ none)

  lift-Fresh : {A : Type 0} (path : Text) (m : Io deps.env.World A) → Keeps (Fresh path) (lift m)
  lift-Fresh path m s h = (lift-Good deps.kube merges m s h.0, h.1)

  add_new_job-Good :
      (path uid : Text) (response : AsyncDoclingResponse) (now : Text) (s : State)
      → Fresh path s
      → Holds
          (patch
            (add_or_update_job (new_job deps fs input_path output_path path uid response now s.cr))
            s).1
  add_new_job-Good path uid response now s h =
      patch_at-Good deps.kube merges _ s (add_job-Untried _ s.cr (rw h.1)) h.0

  add_job-Good :
      (path uid : Text) (r : Result AsyncDoclingResponse) (s : State)
      → Fresh path s
      → Holds (add_job deps fs input_path output_path path uid r s).1
  add_job-Good path uid (err e) s h = ground (arith, h.0)
  add_job-Good path uid (ok response) s h =
      bind_leads (Fresh path) Holds (λ s h. h.0) (lift deps.kube.now)
        (λ now s.
          patch
            (add_or_update_job (new_job deps fs input_path output_path path uid response now s.cr))
            s)
        (lift-Fresh path deps.kube.now) (λ now s h. add_new_job-Good path uid response now s h) s h

  process_if-Good :
      (config : WireConfig deps.floats) (path : Text) (s : State)
      → Fresh path s
      → Holds (process_if deps fs input_path output_path config path true s).1
  process_if-Good config path =
      bind_leads (Fresh path) Holds (λ s h. h.0) (lift uid_of) (λ uid. submit_with uid)
        (lift-Fresh path uid_of)
        (λ uid.
          bind_leads (Fresh path) Holds (λ s h. h.0) (lift url_of) (λ url. send_with uid url)
            (lift-Fresh path url_of)
            (λ url.
              bind_leads (Fresh path) Holds (λ s h. h.0) (lift (attempt (sent url)))
                (λ response. add_job deps fs input_path output_path path uid response)
                (lift-Fresh path (attempt (sent url)))
                (λ response. add_job-Good path uid response)))
    where
      uid_of : Io deps.env.World Text
      uid_of = get_file_uid deps fs input_path output_path path

      url_of : Io deps.env.World Text
      url_of = get_file_url deps.env fs path

      sent : Text → Io deps.env.World AsyncDoclingResponse
      sent url = convert_file deps.service deps.docling url config

      send_with : Text → Text → Io State (Unit {0})
      send_with uid url =
          lift (attempt (sent url)) >>= add_job deps fs input_path output_path path uid

      submit_with : Text → Io State (Unit {0})
      submit_with uid = lift url_of >>= send_with uid

  pub process_document-Good :
      (config : WireConfig deps.floats) (path : Text)
      → Keeps Holds (process_document deps fs input_path output_path config path)
  unfolding process_document
  process_document-Good config path =
      Keeps-bind_with Holds (needs_conversion deps fs input_path output_path path)
        (process_if deps fs input_path output_path config path)
        (needs_conversion-Good deps merges fs input_path output_path path) by_answer
    where
      by_answer :
          (s : State) (needed : Bool)
          → (needs_conversion deps fs input_path output_path path s).0 ≡ ok needed
          → Holds (needs_conversion deps fs input_path output_path path s).1
          → Holds
              (process_if deps fs input_path output_path config path needed
                (needs_conversion deps fs input_path output_path path s).1).1
      by_answer s false e g = g
      by_answer s true e g =
          process_if-Good config path _
            (g, needs_conversion_fresh deps fs input_path output_path path s e)

  -- A finished job leaves the list; a failed one stays, since it is a first attempt.
  finish_job-Good :
      (job : Job) (response : Option DoclingResponse)
      → Keeps Holds (finish_job deps fs input_path output_path job response)
  unfolding finish_job
  finish_job-Good job response =
      Keeps-bind Holds (encode_job deps fs input_path output_path job response)
        (λ bytes. lift (stored bytes) >> patch done) (λ s g. g)
        (λ bytes.
          Keeps-bind Holds (lift (stored bytes)) (λ _. patch done)
            (lift-Good deps.kube merges (stored bytes))
            (λ _. patch-Good deps.kube merges done done-Untried))
    where
      stored : Text → Io deps.env.World (Unit {0})
      stored bytes =
          store deps.env fs (converted_path deps fs input_path output_path job.file_path) bytes

      done : DocumentProcessor → DocumentProcessor
      done = job_done deps fs input_path output_path job.file_path

      done-Untried : (d : DocumentProcessor) → Untried d.status → Untried (done d).status
      done-Untried d u =
          let left = delete_job-Untried job.file_path d u in
          record { first = left.first; none_failing = left.none_failing }

  fail_job-Good :
      (job : Job) → job.attempts ≡ 1 → Keeps Holds (fail_job deps fs input_path output_path job)
  unfolding fail_job
  fail_job-Good job h s g = ground arith

  by_task_status-Good :
      (job : Job) (status : Text) (response : Option DoclingResponse)
      → job.attempts ≡ 1
      → Keeps Holds (by_task_status deps fs input_path output_path job status response)
  unfolding by_task_status
  by_task_status-Good job status response h s g =
      ground (arith, finish_job-Good job response s g, fail_job-Good job h s g)

  pub reconcile_job-Good :
      (job : Job)
      → job.attempts ≡ 1
      → Keeps Holds (reconcile_job deps fs input_path output_path job)
  unfolding reconcile_job
  reconcile_job-Good job h =
      Keeps-bind Holds (lift (get_converted_file deps.service deps.docling job.task_id))
        (λ got. by_task_status deps fs input_path output_path job got.0 got.1)
        (lift-Good deps.kube merges (get_converted_file deps.service deps.docling job.task_id))
        (λ got. by_task_status-Good job got.0 got.1 h)
