-- ===== src/Controller/VectorEmbeddings/Reconcile.antt =====
-- `Reconcile` of internal/controller/vectorembeddingsgenerator_controller.go.
use unstructured_data_contro.FileStore.{FileStore, list_files_in_path}
use unstructured_data_contro.Api.VectorEmbeddingsGenerator.{
  VectorEmbeddingsGenerator, VectorEmbeddingsGeneratorStatus, VectorEmbeddingsGeneratorConfig,
  set_defaults, set_waiting, update_status, add_files_processed,
}
use unstructured_data_contro.Unstructured.Layout.{stage_path}
use unstructured_data_contro.Controller.{Session}
use unstructured_data_contro.Controller.StageFrame
use unstructured_data_contro.Controller.StageFrame.{
  Next, finished, StageResource, Storage, handle_error, or_handle, succeed,
}
use unstructured_data_contro.Controller.VectorEmbeddings.{Deps, process_chunked_file}
use unstructured_data_contro.Prelude.{
  ℕ, suc, Text, codes, Bool, true, false, List, [], ◌∷◌, ◌++◌, nat_eq, list_eq, Result, ok, err,
  new_error, Io,
}

abbrev pub resource : StageResource VectorEmbeddingsGenerator VectorEmbeddingsGeneratorStatus
resource = record {
  name = λ c. c.name;
  namespace = λ c. c.namespace;
  owner_references = λ c. c.owner_references;
  status = λ c. c.status;
  with_status = λ s c. record c { status = s };
  prepare = λ c. record c { config = set_defaults c.config };
  set_waiting = set_waiting;
  update_status = update_status;
  add_files_processed = add_files_processed;
  store_error = λ e. e;
}

-- The loop over the files: whether one failed, and how many were processed.
abbrev pub tallied : Result Bool → Bool × ℕ → Bool × ℕ
tallied (ok true) (any, n) = (any, suc n)
tallied (ok false) t = t
tallied (err e) (any, n) = (true, n)

module _ (deps : Deps) (storage : Storage deps.env.Handle) where
  abbrev pub State : Type 0
  State = Session deps.env.World VectorEmbeddingsGenerator VectorEmbeddingsGeneratorStatus

  unfoldable pub process_files :
      FileStore deps.env
      → VectorEmbeddingsGeneratorConfig
      → (input_path output_path : Text) → List Text
      → Bool × ℕ
      → deps.env.World
      → (Bool × ℕ) × deps.env.World
  process_files fs config input_path output_path [] t w = (t, w)
  process_files fs config input_path output_path (path ∷ paths) t w =
      let (r, w') = process_chunked_file deps fs config input_path output_path path w in
      process_files fs config input_path output_path paths (tallied r t) w'

  abbrev pub conclude : Bool → ℕ → Io State Next
  conclude true n s =
      handle_error deps.env resource deps.kube storage
        (new_error (codes "failed to process some chunked files")) s
  conclude false n s =
      succeed deps.env resource deps.kube storage
        (codes "successfully reconciled vector embeddings generator: " ++ s.cr.name) n (λ c. c)
        finished s

  abbrev pub run_files :
      FileStore deps.env → (input_path output_path : Text) → List Text → Io State Next
  run_files fs input_path output_path paths s =
      let (t, w) = process_files fs s.cr.config input_path output_path paths (false, 0) s.world in
      conclude t.0 t.1 (record s { world = w })

  -- DependsOn[0], which panics if there is no dependency; a panic is not handled.
  abbrev pub run_in : FileStore deps.env → Text → List Text → Io State Next
  run_in fs pipeline [] s = (err (new_error (codes "index out of range")), s)
  run_in fs pipeline (upstream ∷ _) s =
      let input_path = stage_path pipeline upstream in
      let (listed, w) = list_files_in_path deps.env fs input_path s.world in
      or_handle deps.env resource deps.kube storage listed
        (run_files fs input_path (stage_path pipeline s.cr.stage_name)) (record s { world = w })

  unfoldable pub run : Text → FileStore deps.env → Io State Next
  run pipeline fs s = run_in fs pipeline s.cr.depends_on s

  -- Reconcile of a VectorEmbeddingsGenerator.
  unfoldable pub reconcile : Io State Next
  reconcile = StageFrame.reconcile deps.env resource deps.kube storage run
