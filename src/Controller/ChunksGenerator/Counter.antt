-- ===== src/Controller/ChunksGenerator/Counter.antt =====
-- FilesProcessed over a reconcile of internal/controller/chunksgenerator_controller.go.
use unstructured_data_contro.FileStore.{FileStore, list_files_in_path}
use unstructured_data_contro.Api.ChunksGenerator.{
  ChunksGenerator, ChunksGeneratorStatus, set_waiting, update_status,
}
use unstructured_data_contro.Unstructured.Layout.{stage_path}
use unstructured_data_contro.Controller.{Session}
use unstructured_data_contro.Controller.StageFrame.{Storage}
use unstructured_data_contro.Controller.StageFrame.Outcomes.{
  wakes_dependents, CountLaws, MergeLaws, FailsClean, LatePatch, handle_error_clean,
  or_handle_clean, handle_error_keeps, succeed_clean, reconcile_clean,
}
use unstructured_data_contro.Controller.ChunksGenerator.{Deps}
use unstructured_data_contro.Controller.ChunksGenerator.Reconcile.{
  resource, conclude, process_files, Tally, no_tally, run_files, run_in, run, reconcile,
}
use unstructured_data_contro.Prelude.{
  ℕ, Text, false, List, [], ◌∷◌, err, Error, Io, ◌≡◌, refl, arith, nat_eq, ◌⊎◌, inl, ◌≢◌,
}

abbrev pub files : ChunksGeneratorStatus → ℕ
files s = s.files_processed

pub resource-CountLaws : CountLaws resource files
unfolding set_waiting update_status
resource-CountLaws = record { set_waiting = λ c. refl; update_status = λ m e c. refl }

module _ (deps : Deps) (storage : Storage deps.env.Handle)
    (merges : MergeLaws deps.kube files) where
  abbrev State : Type 0
  State = Session deps.env.World ChunksGenerator ChunksGeneratorStatus

  abbrev Clean : {A : Type 0} → Io State A → Type 0
  Clean = FailsClean deps.env resource deps.kube storage files resource-CountLaws merges

  abbrev pub Late : deps.env.World → Type 0
  Late = LatePatch deps.env resource deps.kube storage files resource-CountLaws merges

  conclude-Clean :
      (errors : List Error) (skipped : List Text) (n : ℕ)
      → Clean (conclude deps storage errors skipped n)
  conclude-Clean (x ∷ xs) skipped n s e h =
      handle_error_clean deps.env resource deps.kube storage files resource-CountLaws merges _ s e h
  conclude-Clean [] (path ∷ paths) n s e h = cc
  conclude-Clean [] [] n s e h =
      succeed_clean deps.env resource deps.kube storage files resource-CountLaws merges _ n _ _ s e
        h

  run_in-Clean :
      (fs : FileStore deps.env) (pipeline : Text) (depends_on : List Text)
      → Clean (run_in deps storage fs pipeline depends_on)
  run_in-Clean fs pipeline [] s e h = inl refl
  run_in-Clean fs pipeline (upstream ∷ _) s e h =
      or_handle_clean deps.env resource deps.kube storage files resource-CountLaws merges
        (list_files_in_path deps.env fs (stage_path pipeline upstream) s.world).0
        (run_files deps storage fs (stage_path pipeline upstream)
          (stage_path pipeline s.cr.stage_name))
        (λ paths t. conclude-Clean _ _ _ _) _ e h

  -- A reconcile of a ChunksGenerator that returns an error leaves FilesProcessed on the server as
  -- it was, also if it has chunked and stored files, so that the update wakes no stage behind it,
  -- unless its last two requests are patches of the status, the first of which is answered with an
  -- error and has been applied all the same.
  pub reconcile_failed-wakes_dependents :
      (s : State) (e : Error)
      → (reconcile deps storage s).0 ≡ err e
      → (wakes_dependents s.server.files_processed
            (reconcile deps storage s).1.server.files_processed
          ≡ false)
        ⊎ Late (reconcile deps storage s).1.world
  unfolding reconcile run wakes_dependents
  reconcile_failed-wakes_dependents s e h = ground (
    arith,
    reconcile_clean deps.env resource deps.kube storage files resource-CountLaws merges
        (run deps storage) (λ pipeline fs t. run_in-Clean fs pipeline t.cr.depends_on t) s e h,
  )

  module _ (fs : FileStore deps.env) (input_path output_path : Text) where
    abbrev pub tally : List Text → State → Tally
    tally paths s =
        (process_files deps storage fs s.cr.config input_path output_path paths no_tally s.world).0

    abbrev worked : List Text → State → deps.env.World
    worked paths s =
        (process_files deps storage fs s.cr.config input_path output_path paths no_tally s.world).1

    conclude_keeps :
        (errors : List Error) (skipped : List Text) (n : ℕ) (s : State)
        → errors ≢ []
        → files (conclude deps storage errors skipped n s).1.server ≡ files s.server
    conclude_keeps [] skipped n s h = absurd (h refl)
    conclude_keeps (x ∷ xs) skipped n s h =
        handle_error_keeps deps.env resource deps.kube storage files resource-CountLaws merges _ s

    -- If chunking one of the files of a run fails, other than for a full semaphore, the run leaves
    -- FilesProcessed on the server as it was, whatever becomes of the patches of the status and
    -- however many files it has chunked and stored, so that the update wakes no stage behind it.
    pub run_files_failed-wakes_dependents :
        (paths : List Text) (s : State)
        → (tally paths s).errors ≢ []
        → wakes_dependents s.server.files_processed
            (run_files deps storage fs input_path output_path paths s).1.server.files_processed
          ≡ false
    unfolding wakes_dependents
    run_files_failed-wakes_dependents paths s h = ground (
      arith,
      conclude_keeps (tally paths s).errors (tally paths s).skipped (tally paths s).files_processed
          (record s { world = worked paths s }) h,
    )
