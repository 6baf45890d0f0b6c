-- ===== src/Controller/Pipeline/Reconcile.antt =====
-- `Reconcile` of internal/controller/unstructureddatapipeline_controller.go.
use unstructured_data_contro.Api.Stages.{PipelineStage, validate_stages}
use unstructured_data_contro.Api.UnstructuredDataPipeline.{
  StageType, StageSpec, StageCreationStatus, UnstructuredDataPipeline,
  UnstructuredDataPipelineStatus, update_status,
}
use unstructured_data_contro.Controller.{Session, Kube, lift, status_patch}
use unstructured_data_contro.Controller.StageFrame.{Next, finished, requeue_after}
use unstructured_data_contro.Controller.Pipeline.{
  Child, ChildSpec, Cluster, child_cr_name, child_of, expected_names, keep_active, list_stages,
  pipeline_label, put_created, put_label, stage_type_eq, tagged, type_name,
}
use unstructured_data_contro.Prelude.{
  Text, codes, Bool, true, false, Option, none, some, List, [], ◌∷◌, ◌++◌, nat_eq, list_eq, map,
  contains, if◌then◌else◌, Result, ok, err, Error, new_error, wrap, Io, pure, raise, attempt, ◌>>=◌,
  ◌>>◌,
}

-- What the code reads and writes: the API server and %q.
pub record Deps (W : Type 0) : Type 0 where
  pub kube : Kube W UnstructuredDataPipeline UnstructuredDataPipelineStatus
  pub cluster : Cluster W
  pub quote : Text → Text

module _ {W : Type 0} (deps : Deps W) where
  open deps use {kube, cluster, quote}

  abbrev pub State : Type 0
  State = Session W UnstructuredDataPipeline UnstructuredDataPipelineStatus

  abbrev labelled : {A : Type 0} → Text → Result A → Io State A
  labelled label (ok a) = pure a
  labelled label (err e) = raise (wrap label e)

  abbrev updated :
      (List StageCreationStatus → List StageCreationStatus)
      → Result (Unit {0})
      → Bool
      → UnstructuredDataPipelineStatus
      → UnstructuredDataPipelineStatus
  updated f (ok _) reached status = record status { stages = f status.stages }
  updated f (err e) true status = record status { stages = f status.stages }
  updated f (err e) false status = status

  -- The object is read and written on the server; the one in memory stays as it is.
  unfoldable pub update_stages :
      (List StageCreationStatus → List StageCreationStatus) → Io State (Unit {0})
  update_stages f s =
      let (r, w) = cluster.update_latest s.world in
      (r, record s { server = updated f r (cluster.update_reached s.world) s.server; world = w })

  unfoldable pub handle_error : Error → Io State Next
  handle_error e = do status_patch kube (λ c. c.status) (update_status [] (some e)); raise e

  abbrev pub or_handle : {A : Type 0} → Result A → (A → Io State Next) → Io State Next
  or_handle (ok a) next = next a
  or_handle (err e) next = handle_error e

  module _ (pipeline : UnstructuredDataPipeline) where
    -- The function that CreateOrUpdate applies to the resource.
    abbrev pub mutated : ChildSpec → Child → Result Child
    mutated spec child = cluster.set_controller_reference pipeline (record child {
      labels = put_label pipeline_label pipeline.name child.labels;
      spec = some spec;
    })

    abbrev pub ensure_of : Text → StageType × ChildSpec → Io State (Unit {0})
    ensure_of stage (t, spec) = do
      made ←
          attempt (lift (cluster.create_or_update t (child_cr_name pipeline stage) (mutated spec)))
      labelled (codes "failed to create/update " ++ type_name t ++ codes " CR: ") made
      update_stages (put_created stage)

    unfoldable pub ensure_child_cr : StageSpec → Io State (Unit {0})
    ensure_child_cr stage = do
      child ← (λ s. (child_of pipeline stage, s))
      ensure_of stage.name child

    unfoldable pub ensure_children : List StageSpec → Io State (Unit {0})
    ensure_children [] = pure tt
    ensure_children (stage ∷ stages) = do ensure_child_cr stage; ensure_children stages

    -- The resources with the label of the pipeline, type by type.
    unfoldable pub current_stages : List StageType → Io State (List (StageType × Text))
    current_stages [] = pure []
    current_stages (t ∷ ts) = do
      names ← lift (cluster.list t pipeline.name)
      rest ← current_stages ts
      pure (tagged t names ++ rest)

    unfoldable pub delete_orphans :
        (StageType → List Text) → List (StageType × Text) → Io State (Unit {0})
    delete_orphans expected [] = pure tt
    delete_orphans expected ((t, name) ∷ children) =
        if contains (expected t) name then delete_orphans expected children else (do
          gone ← attempt (lift (cluster.delete t name))
          labelled (codes "failed to delete orphaned CR " ++ name ++ codes ": ") gone
          delete_orphans expected children)

    unfoldable pub delete_orphaned_stage_crs : List StageSpec → Io State (Unit {0})
    delete_orphaned_stage_crs stages = do
      current ← current_stages list_stages
      delete_orphans (λ t. expected_names pipeline t stages) (cluster.order current)
      update_stages (keep_active (map (λ (s : StageSpec). s.name) stages))

    -- The last patch; an error of the clean-up or of the patch is returned as it is.
    abbrev pub clean_up : List StageSpec → Io State Next
    clean_up stages = do
      delete_orphaned_stage_crs stages
      status_patch kube (λ c. c.status) (update_status (codes "all stage CRs created") none)
      pure finished

    unfoldable pub apply_stages : List StageSpec → Io State Next
    apply_stages stages = do
      ensured ← attempt (ensure_children stages)
      or_handle ensured (λ _. clean_up stages)

    -- An invalid pipeline is reported in its status and is no error of the reconcile.
    abbrev pub when_valid : Option (Result (Unit {0})) → Io State Next
    when_valid (some (ok _)) = apply_stages pipeline.stages
    when_valid (some (err e)) = do
      attempt (handle_error (wrap (codes "invalid pipeline stages: ") e))
      pure finished
    when_valid none = raise (new_error (codes "the loop over the ready stages does not end"))

  -- What ValidateStages reads.
  abbrev pub graph : List StageSpec → List PipelineStage
  graph stages = map (λ (s : StageSpec). record { name = s.name; depends_on = s.depends_on }) stages

  unfoldable pub with_pipeline : UnstructuredDataPipeline → Io State Next
  with_pipeline pipeline s =
      when_valid pipeline (validate_stages quote (graph pipeline.stages))
        (record s { cr = pipeline })

  abbrev pub read_object : Io State UnstructuredDataPipeline
  read_object s = lift (kube.get s.server) s

  abbrev pub when_healthy : Bool → Io State Next
  when_healthy false = pure (requeue_after 10)
  when_healthy true = do got ← read_object; λ s. with_pipeline (record got { status = s.server }) s

  unfoldable pub reconcile : Io State Next
  reconcile = do healthy ← lift kube.is_config_healthy; when_healthy healthy
