-- ===== src/Controller/ChunksGenerator/Reconcile.antt =====
-- `Reconcile` of internal/controller/chunksgenerator_controller.go.
use unstructured_data_contro.FileStore.{FileStore, list_files_in_path}
use unstructured_data_contro.Api.ChunksGenerator.{
  ChunksGenerator, ChunksGeneratorStatus, ChunksGeneratorConfig, set_defaults, set_waiting,
  update_status, add_files_processed,
}
use unstructured_data_contro.Unstructured.Layout.{stage_path}
use unstructured_data_contro.Controller.{Session}
use unstructured_data_contro.Controller.StageFrame
use unstructured_data_contro.Controller.StageFrame.{
  Next, finished, requeue_after, StageResource, Storage, handle_error, or_handle, succeed,
}
use unstructured_data_contro.Langchain.{semaphore_acquire_error}
use unstructured_data_contro.Controller.ChunksGenerator.{Deps, process_converted_file}
use unstructured_data_contro.Prelude.{
  ℕ, suc, Text, codes, Bool, true, false, List, [], ◌∷◌, ◌++◌, nat_eq, list_eq, contains_text,
  if◌then◌else◌, Result, ok, err, Error, new_error, Io,
}

-- What the loop over the files has gathered.
pub record Tally : Type 0 where
  pub errors : List Error
  pub skipped : List Text
  pub files_processed : ℕ

abbrev pub no_tally : Tally
no_tally = record { errors = []; skipped = []; files_processed = 0 }

-- A full semaphore is no error: the file is left for the next time.
abbrev pub tallied : Text → Result Bool → Tally → Tally
tallied path (ok true) t = record t { files_processed = suc t.files_processed }
tallied path (ok false) t = t
tallied path (err e) t =
    if contains_text e.message semaphore_acquire_error
    then record t { skipped = t.skipped ++ path ∷ [] }
    else record t { errors = t.errors ++ e ∷ [] }

-- `%v` of a slice of errors
abbrev spaced : List Error → Text
spaced [] = []
spaced (e ∷ []) = e.message
spaced (e ∷ f ∷ es) = e.message ++ codes " " ++ spaced (f ∷ es)

abbrev pub resource : StageResource ChunksGenerator ChunksGeneratorStatus
resource = record {
  name = λ c. c.name;
  namespace = λ c. c.namespace;
  owner_references = λ c. c.owner_references;
  status = λ c. c.status;
  with_status = λ s c. record c { status = s };
  prepare = λ c. record c { config = set_defaults c.config };
  set_waiting = set_waiting;
  update_status = update_status;
  add_files_processed = add_files_processed;
  store_error = λ e. e;
}

module _ (deps : Deps) (storage : Storage deps.env.Handle) where
  abbrev pub State : Type 0
  State = Session deps.env.World ChunksGenerator ChunksGeneratorStatus

  unfoldable pub process_files :
      FileStore deps.env
      → ChunksGeneratorConfig
      → (input_path output_path : Text) → List Text
      → Tally
      → deps.env.World
      → Tally × deps.env.World
  process_files fs config input_path output_path [] t w = (t, w)
  process_files fs config input_path output_path (path ∷ paths) t w =
      let (r, w') = process_converted_file deps fs config input_path output_path path w in
      process_files fs config input_path output_path paths (tallied path r t) w'

  -- Errors first, then files that are left, then success.
  abbrev pub conclude : List Error → List Text → ℕ → Io State Next
  conclude (e ∷ es) skipped n s =
      handle_error deps.env resource deps.kube storage
        (new_error (codes "failed to chunk some files: [" ++ spaced (e ∷ es) ++ codes "]")) s
  conclude [] (path ∷ paths) n s = (ok (requeue_after 15), s)
  conclude [] [] n s =
      succeed deps.env resource deps.kube storage
        (codes "successfully reconciled chunks generator: " ++ s.cr.name) n (λ c. c) finished s

  abbrev pub run_files :
      FileStore deps.env → (input_path output_path : Text) → List Text → Io State Next
  run_files fs input_path output_path paths s =
      let (t, w) = process_files fs s.cr.config input_path output_path paths no_tally s.world in
      conclude t.errors t.skipped t.files_processed (record s { world = w })

  -- DependsOn[0], which panics if there is no dependency; a panic is not handled.
  abbrev pub run_in : FileStore deps.env → Text → List Text → Io State Next
  run_in fs pipeline [] s = (err (new_error (codes "index out of range")), s)
  run_in fs pipeline (upstream ∷ _) s =
      let input_path = stage_path pipeline upstream in
      let (listed, w) = list_files_in_path deps.env fs input_path s.world in
      or_handle deps.env resource deps.kube storage listed
        (run_files fs input_path (stage_path pipeline s.cr.stage_name)) (record s { world = w })

  unfoldable pub run : Text → FileStore deps.env → Io State Next
  run pipeline fs s = run_in fs pipeline s.cr.depends_on s

  -- Reconcile of a ChunksGenerator.
  unfoldable pub reconcile : Io State Next
  reconcile = StageFrame.reconcile deps.env resource deps.kube storage run
