-- ===== src/Controller/Pipeline/Invalid.antt =====
-- A pipeline whose stages ValidateStages refuses, in a reconcile of
-- internal/controller/unstructureddatapipeline_controller.go.
use unstructured_data_contro.Api.Stages.{names, validate_stages}
use unstructured_data_contro.Api.Stages.Release.{DistinctNames}
use unstructured_data_contro.Api.Stages.Rounds.{validate_stages-ne-none}
use unstructured_data_contro.Api.Stages.Ranks.{Acyclic, AllDefined}
use unstructured_data_contro.Api.Stages.Acyclic.{validate_stages_iff}
use unstructured_data_contro.Api.UnstructuredDataPipeline.{StageType, UnstructuredDataPipeline}
use unstructured_data_contro.Controller.{status_patch}
use unstructured_data_contro.Controller.StageFrame.{finished}
use unstructured_data_contro.Controller.Pipeline.{Child}
use unstructured_data_contro.Controller.Pipeline.Reconcile.{
  Deps, State, handle_error, graph, with_pipeline,
}
use unstructured_data_contro.Controller.Pipeline.Children.{ClusterLaws}
use unstructured_data_contro.Prelude.{
  Text, codes, Option, none, some, Result, ok, err, Error, ◌≡◌, refl, arith, wrap, nat_eq, list_eq,
}

module _ {W : Type 0} (deps : Deps W) (child : W → StageType → Text → Option Child)
    (laws : ClusterLaws deps child) where
  handle_error_kept :
      (e : Error) (s : State deps) (t : StageType) (n : Text)
      → child (handle_error deps e s).1.world t n ≡ child s.world t n
  unfolding handle_error status_patch
  handle_error_kept e s t n = by_patch (deps.kube.patch_status s.world).0 refl
    where
      by_patch :
          (r : Result (Unit {0}))
          → (deps.kube.patch_status s.world).0 ≡ r
          → child (handle_error deps e s).1.world t n ≡ child s.world t n
      by_patch (err x) k = ground (arith, k, laws.patch_status_kept s.world t n)
      by_patch (ok _) k = ground (arith, k, laws.patch_status_kept s.world t n)

  -- A pipeline whose stages have distinct names, but name a stage that is not there or have a
  -- cycle, ends its reconcile without an error, and no resource of a stage is made, changed or
  -- deleted.
  pub with_pipeline_invalid :
      (pipeline : UnstructuredDataPipeline) (s : State deps)
      → DistinctNames (graph deps pipeline.stages)
      → ¬ (
          AllDefined (names (graph deps pipeline.stages)) (graph deps pipeline.stages)
          × Acyclic (graph deps pipeline.stages))
      → ((with_pipeline deps pipeline s).0 ≡ ok finished)
        × ((t : StageType) (n : Text)
            → child (with_pipeline deps pipeline s).1.world t n ≡ child s.world t n)
  unfolding with_pipeline
  with_pipeline_invalid pipeline s distinct invalid =
      by_verdict (validate_stages deps.quote (graph deps pipeline.stages)) refl
    where
      start : State deps
      start = record s { cr = pipeline }

      by_verdict :
          (o : Option (Result (Unit {0})))
          → validate_stages deps.quote (graph deps pipeline.stages) ≡ o
          → ((with_pipeline deps pipeline s).0 ≡ ok finished)
            × ((t : StageType) (n : Text)
                → child (with_pipeline deps pipeline s).1.world t n ≡ child s.world t n)
      by_verdict none k = absurd (validate_stages-ne-none (graph deps pipeline.stages) deps.quote k)
      by_verdict (some (ok _)) k =
          absurd
            (invalid ((validate_stages_iff (graph deps pipeline.stages) distinct deps.quote).0 k))
      by_verdict (some (err e)) k = (
        ground (arith, k),
        λ t n.
            ground
              (arith, k, handle_error_kept (wrap (codes "invalid pipeline stages: ") e) start t n),
      )
