-- ===== src/Controller/Pipeline/Applied.antt =====
-- The resources that a reconcile of internal/controller/unstructureddatapipeline_controller.go
-- leaves.
use unstructured_data_contro.Api.Stages.Release.{DistinctNames}
use unstructured_data_contro.Api.UnstructuredDataPipeline.{
  StageType, StageConfig, crawl, convert, chunk, embed, sync, unknown, StageSpec,
  UnstructuredDataPipeline,
}
use unstructured_data_contro.Controller.{status_patch}
use unstructured_data_contro.Controller.StageFrame.{Next}
use unstructured_data_contro.Controller.Pipeline.{
  stage_type_eq, ChildSpec, Child, child_cr_name, stage_type, list_stages, child_of, expected_names,
}
use unstructured_data_contro.Controller.Pipeline.Reconcile.{
  Deps, State, update_stages, handle_error, ensure_children, current_stages, delete_orphans,
  delete_orphaned_stage_crs, apply_stages, graph,
}
use unstructured_data_contro.Controller.Pipeline.Children.{
  ClusterLaws, AllMade, NoOrphans, Made-kept, ensure_children-AllMade,
}
use unstructured_data_contro.Prelude.{
  Text, true, false, Bool-cases, inl, inr, Option, none, some, List, [], ◌∷◌, nat_eq, list_eq,
  contains, Result, ok, err, Error, ◌≡◌, ◌⊎◌, refl, arith, sym, ◌∙◌,
}
use unstructured_data_contro.Controller.Pipeline.Listing.{
  current_stages_kept, has-current_stages, contains-list_stages,
}
use unstructured_data_contro.Controller.Pipeline.Orphans.{
  delete_orphans_frame, delete_orphans_done, delete_orphans_or_same,
}

module _ (pipeline : UnstructuredDataPipeline) where
  stage_type-child_of :
      (name : Text) (deps : List Text) (config : StageConfig) (t : StageType) (spec : ChildSpec)
      → child_of pipeline (record { name = name; depends_on = deps; config = config })
        ≡ ok (t, spec)
      → stage_type config ≡ some t
  unfolding child_of
  stage_type-child_of name deps (crawl c) t spec h = ground (arith, h)
  stage_type-child_of name deps (convert c) t spec h = ground (arith, h)
  stage_type-child_of name deps (chunk c) t spec h = ground (arith, h)
  stage_type-child_of name deps (embed c) t spec h = ground (arith, h)
  stage_type-child_of name deps (sync c) t spec h = ground (arith, h)
  stage_type-child_of name deps (unknown x) t spec h = absurd (ground (arith, h))

  pub expected_here :
      (stage : StageSpec) (stages : List StageSpec) (t : StageType) (spec : ChildSpec)
      → child_of pipeline stage ≡ ok (t, spec)
      → contains (expected_names pipeline t (stage ∷ stages)) (child_cr_name pipeline stage.name)
        ≡ true
  unfolding expected_names
  expected_here stage stages t spec h =
      ground (arith, stage_type-child_of stage.name stage.depends_on stage.config t spec h)

  pub expected_later :
      (stage : StageSpec) (stages : List StageSpec) (t : StageType) (n : Text)
      → contains (expected_names pipeline t stages) n ≡ true
      → contains (expected_names pipeline t (stage ∷ stages)) n ≡ true
  unfolding expected_names
  expected_later stage stages t n h = by_type (stage_type stage.config) refl
    where
      by_type :
          (o : Option StageType)
          → stage_type stage.config ≡ o
          → contains (expected_names pipeline t (stage ∷ stages)) n ≡ true
      by_type none k = ground (arith, k, h)
      by_type (some u) k = ground (arith, k, h)

module _ {W : Type 0} (deps : Deps W) (child : W → StageType → Text → Option Child)
    (laws : ClusterLaws deps child) (pipeline : UnstructuredDataPipeline) where
  -- Resources that are expected, and not touched, stay the resources of their stages.
  AllMade-kept :
      (stages : List StageSpec) (v w : W)
      → ((t : StageType) (n : Text)
          → contains (expected_names pipeline t stages) n ≡ true
          → child w t n ≡ child v t n)
      → AllMade deps child laws pipeline v stages
      → AllMade deps child laws pipeline w stages
  AllMade-kept [] v w same m = tt
  AllMade-kept (stage ∷ stages) v w same m = (
    Made-kept deps child laws pipeline stage v w
        (λ t spec e.
          same t (child_cr_name pipeline stage.name) (expected_here pipeline stage stages t spec e))
        m.0,
    AllMade-kept stages v w (λ t n e. same t n (expected_later pipeline stage stages t n e)) m.1,
  )

  -- The clean-up keeps what is expected, and leaves nothing else with the label.
  delete_orphaned_stage_crs_done :
      (stages : List StageSpec) (s : State deps)
      → (delete_orphaned_stage_crs deps pipeline stages s).0 ≡ ok tt
      → ((t : StageType) (n : Text)
          → contains (expected_names pipeline t stages) n ≡ true
          → child (delete_orphaned_stage_crs deps pipeline stages s).1.world t n
            ≡ child s.world t n)
        × NoOrphans deps child laws pipeline
            (delete_orphaned_stage_crs deps pipeline stages s).1.world
            stages
  unfolding delete_orphaned_stage_crs update_stages
  delete_orphaned_stage_crs_done stages s h =
      by_found (current_stages deps pipeline list_stages s).0 refl
    where
      expected : StageType → List Text
      expected t = expected_names pipeline t stages

      listed : State deps
      listed = (current_stages deps pipeline list_stages s).1

      ended : W
      ended = (delete_orphaned_stage_crs deps pipeline stages s).1.world

      Goal : Type 0
      Goal =
          ((t : StageType) (n : Text)
            → contains (expected_names pipeline t stages) n ≡ true
            → child ended t n ≡ child s.world t n)
          × NoOrphans deps child laws pipeline ended stages

      by_deleted :
          (found : List (StageType × Text))
          → (current_stages deps pipeline list_stages s).0 ≡ ok found
          → (r : Result (Unit {0}))
          → (delete_orphans deps pipeline expected (deps.cluster.order found) listed).0 ≡ r
          → Goal
      by_deleted found k (err e) g = absurd (ground (arith, k, g))
      by_deleted found k (ok _) g = (kept, no_orphans)
        where
          children : List (StageType × Text)
          children = deps.cluster.order found

          cleaned : State deps
          cleaned = (delete_orphans deps pipeline expected children listed).1

          last : (t : StageType) (n : Text) → child ended t n ≡ child cleaned.world t n
          last t n = ground (arith, k, g, laws.update_latest_kept cleaned.world t n)

          kept :
              (t : StageType) (n : Text)
              → contains (expected_names pipeline t stages) n ≡ true
              → child ended t n ≡ child s.world t n
          kept t n e =
              last t n
              ∙ delete_orphans_frame deps child laws pipeline expected children listed t n e
              ∙ current_stages_kept deps child laws pipeline list_stages s t n

          no_orphans : NoOrphans deps child laws pipeline ended stages
          no_orphans t n c there label =
              by_expected (Bool-cases (contains (expected t) n))
                (delete_orphans_or_same deps child laws pipeline expected children listed t n g)
            where
              by_expected :
                  (contains (expected t) n ≡ true) ⊎ (contains (expected t) n ≡ false)
                  → (child cleaned.world t n ≡ none)
                    ⊎ (child cleaned.world t n ≡ child listed.world t n)
                  → contains (expected t) n ≡ true
              by_expected (inl e) o = e
              by_expected (inr e) (inl gone) = absurd (ground (arith, gone, there, last t n))
              by_expected (inr e) (inr same) = absurd (
                  ground (
                    arith,
                    there,
                    last t n,
                    delete_orphans_done deps child laws pipeline expected children listed t n g
                        (laws.has-order found t n
                          ∙ has-current_stages deps child laws pipeline list_stages s found t n c k
                              (contains-list_stages deps child laws pipeline t)
                              (sym (current_stages_kept deps child laws pipeline list_stages s t n)
                                ∙ sym same
                                ∙ sym (last t n)
                                ∙ there)
                              label)
                        e,
                  ))

      by_found :
          (r : Result (List (StageType × Text)))
          → (current_stages deps pipeline list_stages s).0 ≡ r
          → Goal
      by_found (err e) k = absurd (ground (arith, k))
      by_found (ok found) k =
          by_deleted found k
            (delete_orphans deps pipeline expected (deps.cluster.order found) listed).0 refl

  -- handleError returns an error.
  handle_error-err : (e : Error) (s : State deps) (n : Next) → (handle_error deps e s).0 ≡ ok n → ⊥
  unfolding handle_error status_patch
  handle_error-err e s n h = by_patch (deps.kube.patch_status s.world).0 refl
    where
      by_patch : (r : Result (Unit {0})) → (deps.kube.patch_status s.world).0 ≡ r → ⊥
      by_patch (err x) k = ground (arith, k, h)
      by_patch (ok _) k = ground (arith, k, h)

  -- If the stages of a pipeline have distinct names, then a reconcile of them that returns no error
  -- has made, for every stage, the resource of its type under the name of the pipeline and of the
  -- stage, with the spec that the stage asks for, as encoding/json keeps it (an empty slice is left
  -- out), and the label of the pipeline; and every resource that still has the label is that of one
  -- of the stages.
  pub apply_stages-AllMade :
      (stages : List StageSpec) (s : State deps) (n : Next)
      → DistinctNames (graph deps stages)
      → (apply_stages deps pipeline stages s).0 ≡ ok n
      → AllMade deps child laws pipeline (apply_stages deps pipeline stages s).1.world stages
        × NoOrphans deps child laws pipeline (apply_stages deps pipeline stages s).1.world stages
  unfolding apply_stages status_patch
  apply_stages-AllMade stages s n d h = by_ensured (ensure_children deps pipeline stages s).0 refl
    where
      ensured : State deps
      ensured = (ensure_children deps pipeline stages s).1

      cleaned : State deps
      cleaned = (delete_orphaned_stage_crs deps pipeline stages ensured).1

      ended : W
      ended = (apply_stages deps pipeline stages s).1.world

      Goal : Type 0
      Goal =
          AllMade deps child laws pipeline ended stages
          × NoOrphans deps child laws pipeline ended stages

      by_cleaned :
          (ensure_children deps pipeline stages s).0 ≡ ok tt
          → (r : Result (Unit {0})) → (delete_orphaned_stage_crs deps pipeline stages ensured).0 ≡ r
          → Goal
      by_cleaned k (err e) g = absurd (ground (arith, k, g))
      by_cleaned k (ok _) g =
          let (kept, no_orphans) = delete_orphaned_stage_crs_done stages ensured g in
          (
            AllMade-kept stages ensured.world ended (λ t m e. last t m ∙ kept t m e)
                (ensure_children-AllMade deps child laws pipeline stages s d k),
            λ t m c there label. no_orphans t m c (sym (last t m) ∙ there) label,
          )
        where
          last : (t : StageType) (m : Text) → child ended t m ≡ child cleaned.world t m
          last t m = by_patch (deps.kube.patch_status cleaned.world).0 refl
            where
              by_patch :
                  (r : Result (Unit {0}))
                  → (deps.kube.patch_status cleaned.world).0 ≡ r
                  → child ended t m ≡ child cleaned.world t m
              by_patch (err x) p = ground (arith, k, g, p, laws.patch_status_kept cleaned.world t m)
              by_patch (ok _) p = ground (arith, k, g, p, laws.patch_status_kept cleaned.world t m)

      by_ensured : (r : Result (Unit {0})) → (ensure_children deps pipeline stages s).0 ≡ r → Goal
      by_ensured (err e) k = absurd (handle_error-err e ensured n (ground (arith, k, h)))
      by_ensured (ok _) k =
          by_cleaned k (delete_orphaned_stage_crs deps pipeline stages ensured).0 refl
