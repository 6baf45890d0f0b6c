-- ===== src/Controller/StageFrame.antt =====
-- What the `Reconcile` of the stages for chunks, embeddings, destinations and sources have in
-- common, around the work of each: internal/controller/*_controller.go.
pub mod Outcomes
pub mod Again
use unstructured_data_contro.Env.{Env}
use unstructured_data_contro.FileStore.{FileStore, new}
use unstructured_data_contro.Api.DocumentProcessor.{OwnerReference}
use unstructured_data_contro.Controller.{
  Session, Kube, lift, status_patch, parent_pipeline_name_from_owner_reference,
  is_aws_client_not_initialized_error,
}
use unstructured_data_contro.Prelude.{
  ℕ, Text, Bool, true, false, Option, none, some, List, [], if◌then◌else◌, Result, ok, err, Error,
  Io, pure, raise, attempt, ◌>>=◌, ◌>>◌,
}

-- ctrl.Result: nothing more to do, RequeueAfter in seconds, or Requeue.
pub data Next : Type 0 where
  finished requeue : Next
  requeue_after : ℕ → Next

-- A resource of a stage, with its methods.
pub record StageResource (C S : Type 0) : Type 0 where
  pub name : C → Text
  pub namespace : C → Text
  pub owner_references : C → List OwnerReference
  pub status : C → S
  -- the object as it is read: with the status of the server
  pub with_status : S → C → C
  -- DeepCopy and SetDefaults
  pub prepare : C → C
  pub set_waiting : C → C
  pub update_status : Text → Option Error → C → C
  pub add_files_processed : ℕ → C → C
  -- the error of filestore.New as it is handled
  pub store_error : Error → Error

-- The globals of the process that the stages read.
pub record Storage (Handle : Type 0) : Type 0 where
  pub data_storage_directory : Text
  pub file_store_client : Option Handle

module _ (env : Env) {C S : Type 0} (res : StageResource C S) (kube : Kube env.World C S)
    (storage : Storage env.Handle) where
  abbrev pub State : Type 0
  State = Session env.World C S

  abbrev pub patch : (C → C) → Io State (Unit {0})
  patch = status_patch kube res.status

  -- handleError: the status says what failed, and the error is returned unless the patch fails.
  unfoldable pub handle_error : Error → Io State Next
  handle_error e = do patch (res.update_status [] (some e)); raise e

  abbrev pub or_handle : {A : Type 0} → Result A → (A → Io State Next) → Io State Next
  or_handle (ok a) next = next a
  or_handle (err e) next = handle_error e

  -- The last patch, and what is returned after it.
  abbrev pub patched_or_handle : Next → Result (Unit {0}) → Io State Next
  patched_or_handle next (ok _) = pure next
  patched_or_handle next (err e) = handle_error e

  -- A run that succeeded, with the number of files to add: `record_more` is what else it records.
  unfoldable pub succeed : Text → ℕ → (C → C) → Next → Io State Next
  succeed message n record_more next = do
    r ←
        attempt
          (patch (λ c. res.update_status message none (record_more (res.add_files_processed n c))))
    patched_or_handle next r

  module _ (body : Text → FileStore env → Io State Next) where
    abbrev pub with_pipeline : FileStore env → Io State Next
    with_pipeline fs s =
        or_handle
          (parent_pipeline_name_from_owner_reference (res.namespace s.cr) (res.name s.cr)
            (res.owner_references s.cr))
          (λ pipeline. body pipeline fs) s

    -- A client that is not set up yet is waited for.
    abbrev pub with_store : Result (FileStore env) → Io State Next
    with_store (ok fs) = with_pipeline fs
    with_store (err e) =
        if is_aws_client_not_initialized_error e
        then pure (requeue_after 10)
        else handle_error (res.store_error e)

    unfoldable pub wait_and_run : Io State Next
    wait_and_run = do
      patch res.set_waiting
      store ← lift (attempt (new env storage.file_store_client storage.data_storage_directory))
      with_store store

    -- The object in memory, from the one that was read.
    abbrev pub loaded : C → State → State
    loaded got s = record s { cr = res.prepare (res.with_status s.server got) }

    abbrev pub read_object : Io State C
    read_object s = lift (kube.get s.server) s

    abbrev pub when_healthy : Bool → Io State Next
    when_healthy false = pure (requeue_after 10)
    when_healthy true = do got ← read_object; λ s. wait_and_run (loaded got s)

    unfoldable pub reconcile : Io State Next
    reconcile = do healthy ← lift kube.is_config_healthy; when_healthy healthy
