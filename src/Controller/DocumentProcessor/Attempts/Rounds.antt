-- ===== src/Controller/DocumentProcessor/Attempts/Rounds.antt =====
-- The attempt counts over whole reconciles, of `Reconcile` in
-- internal/controller/documentprocessor_controller.go.
use unstructured_data_contro.FileStore.{FileStore, new, list_files_in_path}
use unstructured_data_contro.Api.DocumentProcessor.{
  Job, DocumentProcessor, DocumentProcessorStatus, set_waiting, update_status,
}
use unstructured_data_contro.Unstructured.Layout.{filter_raw_file_paths, stage_path}
use unstructured_data_contro.Controller.{
  Session, lift, status_patch, parent_pipeline_name_from_owner_reference,
}
use unstructured_data_contro.Controller.Wire.{WireConfig, wire_config}
use unstructured_data_contro.Controller.DocumentProcessor.{Deps}
use unstructured_data_contro.Controller.DocumentProcessor.Reconcile.{
  Settings, prepared, handle_error, reconcile_jobs, process_documents, conclude, run_stage, run,
  with_store, with_wire, first_dependency, or_handle, reconcile_object, when_healthy, reconcile,
  reported, settled, unless_panic, Requeue, with_files, with_upstream, wait_and_run, loaded,
  vlm_error, inject_url,
}
use unstructured_data_contro.Controller.DocumentProcessor.Attempts.{
  AllFirst, Untried, MergeLaws, Good, patch-Good, lift-Good,
}
use unstructured_data_contro.Controller.DocumentProcessor.Attempts.Runs.{
  process_document-Good, reconcile_job-Good,
}
use unstructured_data_contro.Prelude.{
  ℕ, zero, suc, Text, codes, Bool, true, false, Option, none, some, List, [], ◌∷◌, Result, ok, err,
  Error, new_error, Io, Keeps, Keeps-bind, ◌≡◌, arith, attempt, nat_eq, list_eq, raise, continue,
  subst, sym,
}

set_waiting-Untried : (d : DocumentProcessor) → Untried d.status → Untried (set_waiting d).status
unfolding set_waiting
set_waiting-Untried d u = record { first = u.first; none_failing = u.none_failing }

update_status-Untried :
    (m : Text) (e : Option Error) (d : DocumentProcessor)
    → Untried d.status
    → Untried (update_status m e d).status
unfolding update_status
update_status-Untried m e d u = record { first = u.first; none_failing = u.none_failing }

module _ (deps : Deps) (merges : MergeLaws deps.kube) (settings : Settings deps.env.Handle) where
  abbrev State : Type 0
  State = Session deps.env.World DocumentProcessor DocumentProcessorStatus

  abbrev Holds : State → Type 0
  Holds = Good deps.kube merges

  abbrev patch : (DocumentProcessor → DocumentProcessor) → Io State (Unit {0})
  patch = status_patch deps.kube (λ (d : DocumentProcessor). d.status)

  patch_status-Good : (m : Text) (e : Option Error) → Keeps Holds (patch (update_status m e))
  patch_status-Good m e =
      patch-Good deps.kube merges (update_status m e) (update_status-Untried m e)

  handle_error-Good : (e : Error) → Keeps Holds (handle_error deps settings e)
  unfolding handle_error
  handle_error-Good e =
      Keeps-bind Holds (patch (update_status [] (some e))) (λ _. raise e)
        (patch_status-Good [] (some e)) (λ _ s g. g)

  module _ (fs : FileStore deps.env) (input_path output_path : Text) where
    reconcile_jobs-Good :
        (jobs : List Job) (any : Bool) (s : State)
        → AllFirst jobs
        → Holds s
        → Holds (reconcile_jobs deps settings fs input_path output_path jobs any s).1
    unfolding reconcile_jobs
    reconcile_jobs-Good [] any s a g = g
    reconcile_jobs-Good (job ∷ jobs) any s a g =
        reconcile_jobs-Good jobs _ _ a.1
          (reconcile_job-Good deps merges fs input_path output_path job a.0 s g)

    unless_panic-Good :
        (r : Result (Unit {0})) (next : Io State Bool) (s : State)
        → Keeps Holds next
        → Holds s
        → Holds (unless_panic deps settings fs input_path output_path r next s).1
    unless_panic-Good (ok _) next s keeps g = keeps s g
    unless_panic-Good (err e) next s keeps g = ground (arith, keeps s g, g)

    process_documents-Good :
        (config : WireConfig deps.floats) (paths : List Text) (any : Bool) (s : State)
        → Holds s
        → Holds (process_documents deps settings fs input_path output_path config paths any s).1
    unfolding process_documents
    process_documents-Good config [] any s g = g
    process_documents-Good config (path ∷ paths) any s g =
        unless_panic-Good _ _ _ (process_documents-Good config paths _)
          (process_document-Good deps merges fs input_path output_path config path s g)

    reported-Good :
        (r : Result (Unit {0})) → Keeps Holds (reported deps settings fs input_path output_path r)
    reported-Good (ok _) s g = g
    reported-Good (err e) s g = handle_error-Good e s g

    settled-Good :
        (jobs : List Job) → Keeps Holds (settled deps settings fs input_path output_path jobs)
    settled-Good (job ∷ jobs) s g = g
    settled-Good [] s g = reported-Good _ _ (patch_status-Good _ none s g)

    conclude-Good :
        (jobs_failed documents_failed : Bool)
        → Keeps Holds
            (conclude deps settings fs input_path output_path jobs_failed documents_failed)
    unfolding conclude
    conclude-Good jobs_failed documents_failed s g = ground (
      arith,
      handle_error-Good (new_error (codes "failed to process jobs or documents")) s g,
      settled-Good s.cr.status.jobs s g,
    )

    continue-Good :
        (r : Result Bool) (next : Bool → Io State Requeue) (s : State)
        → ((b : Bool) → Keeps Holds (next b))
        → Holds s
        → Holds (continue r next s).1
    continue-Good (ok b) next s keeps g = keeps b s g
    continue-Good (err e) next s keeps g = g

    with_files-Good :
        (config : WireConfig deps.floats) (jobs_failed : Bool) (r : Result (List Text))
        → Keeps Holds (with_files deps settings fs input_path output_path config jobs_failed r)
    with_files-Good config jobs_failed (err e) s g = handle_error-Good e s g
    with_files-Good config jobs_failed (ok files) s g =
        continue-Good _ _ _ (conclude-Good jobs_failed)
          (process_documents-Good config (filter_raw_file_paths files) false s g)

    run_stage-Good :
        (config : WireConfig deps.floats)
        → Keeps Holds (run_stage deps settings fs input_path output_path config)
    unfolding run_stage
    run_stage-Good config s g = with_files-Good config _ _ _ (
        lift-Good deps.kube merges (attempt (list_files_in_path deps.env fs input_path)) _
          (reconcile_jobs-Good s.cr.status.jobs false s g.memory.first g))

  with_upstream-Good :
      (config : WireConfig deps.floats) (fs : FileStore deps.env) (pipeline : Text)
      (r : Result Text)
      → Keeps Holds (with_upstream deps settings config fs pipeline r)
  with_upstream-Good config fs pipeline (err e) s g = g
  with_upstream-Good config fs pipeline (ok upstream) s g =
      run_stage-Good fs (stage_path pipeline upstream) (stage_path pipeline s.cr.stage_name) config
        s g

  run-Good :
      (config : WireConfig deps.floats) (fs : FileStore deps.env)
      → Keeps Holds (run deps settings config fs)
  unfolding run
  run-Good config fs s g =
      by_owner
        (parent_pipeline_name_from_owner_reference s.cr.namespace s.cr.name s.cr.owner_references)
    where
      by_owner :
          (r : Result Text)
          → Holds
              (or_handle deps settings r
                (λ pipeline.
                  with_upstream deps settings config fs pipeline
                    (first_dependency deps settings s.cr.depends_on))
                s).1
      by_owner (ok pipeline) =
          with_upstream-Good config fs pipeline (first_dependency deps settings s.cr.depends_on) s g
      by_owner (err e) = handle_error-Good e s g

  with_store-Good :
      (config : WireConfig deps.floats) (r : Result (FileStore deps.env))
      → Keeps Holds (with_store deps settings (run deps settings config) r)
  with_store-Good config (ok fs) s g = run-Good config fs s g
  with_store-Good config (err e) s g = ground (arith, handle_error-Good e s g)

  with_wire-Good :
      (config : Option (WireConfig deps.floats)) → Keeps Holds (with_wire deps settings config)
  with_wire-Good none s g = g
  with_wire-Good (some config) s g =
      Keeps-bind Holds (lift (attempt opened)) (with_store deps settings (run deps settings config))
        (lift-Good deps.kube merges (attempt opened)) (with_store-Good config) s g
    where
      opened : Io deps.env.World (FileStore deps.env)
      opened = new deps.env settings.file_store_client settings.data_storage_directory

  wait_and_run-Good : Keeps Holds (wait_and_run deps settings)
  wait_and_run-Good =
      Keeps-bind Holds (patch set_waiting)
        (λ _ s.
          with_wire deps settings
            (wire_config deps.floats settings.vlm_api_key s.cr.config.docling_config) s)
        (patch-Good deps.kube merges set_waiting set_waiting-Untried)
        (λ _ s g. with_wire-Good _ s g)

  reconcile_object-Good : Keeps Holds (reconcile_object deps settings)
  unfolding reconcile_object
  reconcile_object-Good s g = ground (arith, handle_error-Good vlm_error s g, wait_and_run-Good s g)

  status-prepared :
      (prompt url : Text) (d : DocumentProcessor) → (prepared prompt url d).status ≡ d.status
  unfolding prepared inject_url
  status-prepared prompt url d = ground arith

  -- The object in memory is read anew, so only what the server holds matters.
  read_object-Good :
      (s : State)
      → Untried s.server
      → (r : Result DocumentProcessor) → (w : deps.env.World)
      → Untried
          (continue r
            (λ got t. reconcile_object deps settings (loaded deps settings got t))
            (record s { world = w })).1.server
  read_object-Good s u (err e) w = u
  read_object-Good s u (ok got) w =
      (reconcile_object-Good _
        (record { memory = subst Untried (sym (status-prepared _ _ _)) u; server = u })).server

  reconcile-Untried : (s : State) → Untried s.server → Untried (reconcile deps settings s).1.server
  unfolding reconcile
  reconcile-Untried s u = by_health (deps.kube.is_config_healthy s.world).0
    where
      asked : State
      asked = record s { world = (deps.kube.is_config_healthy s.world).1 }

      by_health :
          (r : Result Bool) → Untried (continue r (when_healthy deps settings) asked).1.server
      by_health (err e) = u
      by_health (ok false) = u
      by_health (ok true) = read_object-Good asked u (deps.kube.get asked.server asked.world).0 _

  -- `n` reconciles, one after the other; each starts from what the server holds.
  abbrev pub rounds : ℕ → State → State
  rounds zero s = s
  rounds (suc n) s = (reconcile deps settings (rounds n s)).1

  -- If the server holds only first attempts and no file that is given up, as it does of a resource
  -- that is just created, then it holds only first attempts and no file that is given up after any
  -- number of reconciles, whatever the services answer.
  pub rounds-Untried : (n : ℕ) (s : State) → Untried s.server → Untried (rounds n s).server
  rounds-Untried zero s u = u
  rounds-Untried (suc n) s u = reconcile-Untried (rounds n s) (rounds-Untried n s u)
