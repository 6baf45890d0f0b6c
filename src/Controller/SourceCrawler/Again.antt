-- ===== src/Controller/SourceCrawler/Again.antt =====
-- When `Reconcile` of internal/controller/sourcecrawler_controller.go is run again.
use unstructured_data_contro.FileStore.{FileStore}
use unstructured_data_contro.Api.SourceCrawler.{
  SourceCrawler, SourceCrawlerStatus, GDriveFolderStatus,
}
use unstructured_data_contro.Unstructured.Layout.{RawFileMetadata, stage_path}
use unstructured_data_contro.Controller.{Session}
use unstructured_data_contro.Controller.Secrets.{aws_config_from_secret}
use unstructured_data_contro.Controller.StageFrame.{Next, finished, Storage, patch, succeed}
use unstructured_data_contro.Controller.StageFrame.Again.{
  RunsAgain, handle_error-RunsAgain, or_handle-RunsAgain, reconcile-RunsAgain,
}
use unstructured_data_contro.Controller.SourceCrawler.{Deps, resource, labelled}
use unstructured_data_contro.Controller.SourceCrawler.Reconcile.{
  build_source, sync_source, handle_sqs_wake_up, wake_up, with_sqs_client, by_queue,
  requeue_strategy, with_gdrive_status, conclude, run_source, run, reconcile,
}
use unstructured_data_contro.Prelude.{
  Text, codes, Bool, true, false, List, [], ◌++◌, ◌==◌, nat_eq, list_eq, length, Result, ok, err,
  wrap, Io, ◌≡◌, ◌≢◌, refl, arith,
}

module _ (deps : Deps) (storage : Storage deps.env.Handle) where
  abbrev State : Type 0
  State = Session deps.env.World SourceCrawler SourceCrawlerStatus

  abbrev Again : Io State Next → Type 0
  Again = RunsAgain deps.env resource deps.kube storage

  wake_up-Again : Again (wake_up deps storage)
  unfolding handle_sqs_wake_up
  wake_up-Again s n h = by_client (deps.queue.get_sqs_client s.world).0 refl
    where
      by_client : (r : Result (Unit {0})) → (deps.queue.get_sqs_client s.world).0 ≡ r → n ≢ finished
      by_client (err x) k = ground (arith, k, h)
      by_client (ok _) k = ground (arith, k, h)

  requeue_strategy-Again : Again (requeue_strategy deps storage)
  unfolding requeue_strategy
  requeue_strategy-Again s n h = by_type (s.cr.config.type == codes "s3") refl
    where
      queued : Again (by_queue deps storage)
      queued t m =
          or_handle-RunsAgain deps.env resource deps.kube storage
            (labelled (codes "failed to get source credentials for SQS: ")
              (aws_config_from_secret deps.get_secret t.cr.secret_ref t.cr.namespace
                (codes "SOURCE_S3_") t.world).0)
            (with_sqs_client deps storage)
            (λ aws u.
              or_handle-RunsAgain deps.env resource deps.kube storage
                (labelled (codes "failed to create SQS client: ")
                  (deps.queue.new_sqs_client_from_config aws u.world).0)
                (λ _. wake_up deps storage) (λ _. wake_up-Again)
                (record u { world = (deps.queue.new_sqs_client_from_config aws u.world).1 }))
            (record t {
              world =
                  (aws_config_from_secret deps.get_secret t.cr.secret_ref t.cr.namespace
                    (codes "SOURCE_S3_") t.world).1;
            })
            m

      by_url :
          (b : Bool)
          → (s.cr.config.s3_config.sqs_queue_url == []) ≡ b
          → (s.cr.config.type == codes "s3") ≡ true
          → n ≢ finished
      by_url true e k = ground (arith, e, k, h)
      by_url false e k = queued s n (ground (arith, e, k, h))

      by_type : (b : Bool) → (s.cr.config.type == codes "s3") ≡ b → n ≢ finished
      by_type false k = ground (arith, k, h)
      by_type true k = by_url (s.cr.config.s3_config.sqs_queue_url == []) refl k

  conclude-Again :
      (r : Result (List RawFileMetadata)) (folders : List GDriveFolderStatus)
      → Again (conclude deps storage r folders)
  conclude-Again (err e) folders s n h =
      handle_error-RunsAgain deps.env resource deps.kube storage
        (wrap (codes "failed to store files to filestore: ") e)
        (patch deps.env resource deps.kube storage (with_gdrive_status deps storage folders) s).1 n
        h
  conclude-Again (ok files) folders s n h = by_patched patched.0 refl
    where
      patched : Result Next × State
      patched =
          succeed deps.env resource deps.kube storage
            (codes "successfully reconciled source crawler: " ++ s.cr.name) (length files)
            (with_gdrive_status deps storage folders) finished s

      by_patched : (r : Result Next) → patched.0 ≡ r → n ≢ finished
      by_patched (err x) k = absurd (ground (arith, k, h))
      by_patched (ok m) k = requeue_strategy-Again patched.1 n (ground (arith, k, h))

  run-Again : (pipeline : Text) (fs : FileStore deps.env) → Again (run deps storage pipeline fs)
  unfolding run
  run-Again pipeline fs s =
      or_handle-RunsAgain deps.env resource deps.kube storage
        (build_source deps s.cr (stage_path pipeline s.cr.stage_name) s.world).0
        (run_source deps storage fs)
        (λ source t.
          conclude-Again (sync_source deps fs t.cr source t.world).0.0
            (sync_source deps fs t.cr source t.world).0.1
            (record t { world = (sync_source deps fs t.cr source t.world).1 }))
        (record s {
          world = (build_source deps s.cr (stage_path pipeline s.cr.stage_name) s.world).1;
        })

  -- A reconcile of a SourceCrawler that returns no error asks to be run again, at once or after a
  -- time: a source that is crawled without an error is crawled again.
  pub reconcile-ne-finished :
      (s : State) (n : Next) → (reconcile deps storage s).0 ≡ ok n → n ≢ finished
  unfolding reconcile
  reconcile-ne-finished =
      reconcile-RunsAgain deps.env resource deps.kube storage (run deps storage) run-Again
