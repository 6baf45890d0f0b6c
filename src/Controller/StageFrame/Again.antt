-- ===== src/Controller/StageFrame/Again.antt =====
-- Reconciles that ask to be run again, in the frame of internal/controller/*_controller.go.
use unstructured_data_contro.Env.{Env}
use unstructured_data_contro.FileStore.{FileStore, new}
use unstructured_data_contro.Controller.{
  Session, Kube, parent_pipeline_name_from_owner_reference, is_aws_client_not_initialized_error,
}
use unstructured_data_contro.Controller.StageFrame.{
  Next, finished, StageResource, Storage, patch, handle_error, or_handle, with_store, wait_and_run,
  loaded, reconcile,
}
use unstructured_data_contro.Prelude.{
  Text, Bool, true, false, some, [], Result, ok, err, Error, Io, ◌≡◌, ◌≢◌, refl, arith, nat_eq,
}

module _ (env : Env) {C S : Type 0} (res : StageResource C S) (kube : Kube env.World C S)
    (storage : Storage env.Handle) where
  abbrev State : Type 0
  State = Session env.World C S

  -- A step that, if it returns no error, asks to be run again.
  abbrev pub RunsAgain : Io State Next → Type 0
  RunsAgain m = (s : State) (n : Next) → (m s).0 ≡ ok n → n ≢ finished

  pub handle_error-RunsAgain : (e : Error) → RunsAgain (handle_error env res kube storage e)
  unfolding handle_error
  handle_error-RunsAgain e s n h =
      by_patch (patch env res kube storage (res.update_status [] (some e)) s).0 refl
    where
      by_patch :
          (r : Result (Unit {0}))
          → (patch env res kube storage (res.update_status [] (some e)) s).0 ≡ r
          → n ≢ finished
      by_patch (err x) k = absurd (ground (arith, k, h))
      by_patch (ok _) k = absurd (ground (arith, k, h))

  pub or_handle-RunsAgain :
      {A : Type 0} (r : Result A) (next : A → Io State Next)
      → ((a : A) → RunsAgain (next a))
      → RunsAgain (or_handle env res kube storage r next)
  or_handle-RunsAgain (ok a) next again = again a
  or_handle-RunsAgain (err e) next again = handle_error-RunsAgain e

  module _ (body : Text → FileStore env → Io State Next)
      (again : (pipeline : Text) (fs : FileStore env) → RunsAgain (body pipeline fs)) where
    with_store-RunsAgain :
        (r : Result (FileStore env)) → RunsAgain (with_store env res kube storage body r)
    with_store-RunsAgain (ok fs) s n h =
        or_handle-RunsAgain
          (parent_pipeline_name_from_owner_reference (res.namespace s.cr) (res.name s.cr)
            (res.owner_references s.cr))
          (λ pipeline. body pipeline fs) (λ pipeline. again pipeline fs) s n h
    with_store-RunsAgain (err e) s n h = by_kind (is_aws_client_not_initialized_error e) refl
      where
        by_kind : (b : Bool) → is_aws_client_not_initialized_error e ≡ b → n ≢ finished
        by_kind true k = ground (arith, k, h)
        by_kind false k = handle_error-RunsAgain (res.store_error e) s n (ground (arith, k, h))

    wait_and_run-RunsAgain : RunsAgain (wait_and_run env res kube storage body)
    unfolding wait_and_run
    wait_and_run-RunsAgain s n h = by_patch (patch env res kube storage res.set_waiting s).0 refl
      where
        waiting : State
        waiting = (patch env res kube storage res.set_waiting s).1

        opened : Result (FileStore env) × env.World
        opened = new env storage.file_store_client storage.data_storage_directory waiting.world

        by_patch :
            (r : Result (Unit {0}))
            → (patch env res kube storage res.set_waiting s).0 ≡ r
            → n ≢ finished
        by_patch (err x) k = absurd (ground (arith, k, h))
        by_patch (ok _) k =
            with_store-RunsAgain opened.0 (record waiting { world = opened.1 }) n
              (ground (arith, k, h))

    pub reconcile-RunsAgain : RunsAgain (reconcile env res kube storage body)
    unfolding reconcile
    reconcile-RunsAgain s n h = by_health (kube.is_config_healthy s.world).0 refl
      where
        asked : State
        asked = record s { world = (kube.is_config_healthy s.world).1 }

        got : Result C × env.World
        got = kube.get s.server asked.world

        by_get :
            (r : Result C) → got.0 ≡ r → (kube.is_config_healthy s.world).0 ≡ ok true → n ≢ finished
        by_get (err x) g k = absurd (ground (arith, g, k, h))
        by_get (ok c) g k =
            wait_and_run-RunsAgain
              (loaded env res kube storage body c (record asked { world = got.1 })) n
              (ground (arith, g, k, h))

        by_health : (r : Result Bool) → (kube.is_config_healthy s.world).0 ≡ r → n ≢ finished
        by_health (err x) k = absurd (ground (arith, k, h))
        by_health (ok false) k = ground (arith, k, h)
        by_health (ok true) k = by_get got.0 refl k
