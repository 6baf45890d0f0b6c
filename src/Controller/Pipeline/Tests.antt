-- ===== src/Controller/Pipeline/Tests.antt =====
-- The pipeline reconciler with an API server in memory, whose resources are a list.
use unstructured_data_contro.Api.Stages.{names}
use unstructured_data_contro.Api.Stages.Release.{DistinctNames}
use unstructured_data_contro.Api.Stages.Ranks.{Acyclic, AllDefined}
use unstructured_data_contro.Api.UnstructuredDataPipeline.{
  StageType, chunks_generator, convert, chunk, StageSpec, UnstructuredDataPipeline,
  UnstructuredDataPipelineStatus, update_status,
}
use unstructured_data_contro.Controller.{Session, Kube, status_patch}
use unstructured_data_contro.Controller.StageFrame.{finished}
use unstructured_data_contro.Controller.Pipeline.{
  stage_type_eq, Child, child_as_encoded, Cluster, pipeline_label, child_of, put_created,
  keep_active, expected_names,
}
use unstructured_data_contro.Controller.Pipeline.Reconcile.{
  Deps, graph, update_stages, ensure_child_cr, ensure_children, current_stages, delete_orphans,
  delete_orphaned_stage_crs, apply_stages, with_pipeline,
}
use unstructured_data_contro.Controller.Pipeline.Children.{ClusterLaws, AllMade, NoOrphans}
use unstructured_data_contro.Controller.Pipeline.Applied.{apply_stages-AllMade}
use unstructured_data_contro.Controller.Pipeline.Invalid.{with_pipeline_invalid}
use unstructured_data_contro.Prelude.{
  Text, codes, Bool, true, false, Option, none, some, List, [], ◌∷◌, ◌==◌, ◌&&◌, nat_eq, list_eq,
  contains, if◌then◌else◌, Result, ok, err, Io, pure, ◌≡◌, refl, arith,
}

abbrev Resources : Type 0
Resources = List ((StageType × Text) × Child)

abbrev find : Resources → StageType → Text → Option Child
find [] t n = none
find (((u, m), c) ∷ w) t n = if u == t && m == n then some c else find w t n

abbrev drop : StageType → Text → Resources → Resources
drop t n [] = []
drop t n (((u, m), c) ∷ w) =
    let rest = drop t n w in if u == t && m == n then rest else ((u, m), c) ∷ rest

abbrev has_label : Text → Option Text → Bool
has_label p none = false
has_label p (some q) = q == p

abbrev labelled_names : StageType → Text → Resources → List Text
labelled_names t p [] = []
labelled_names t p (((u, m), c) ∷ w) =
    let rest = labelled_names t p w in
    if u == t && has_label p (c.labels pipeline_label) then m ∷ rest else rest

abbrev new_child : Child
new_child = record { labels = λ k. none; controller = none; spec = none }

abbrev found_or_new : Option Child → Child
found_or_new none = new_child
found_or_new (some c) = c

abbrev put_child : StageType → Text → Result Child → Io Resources (Unit {0})
put_child t n (ok c) w = (ok tt, ((t, n), child_as_encoded c) ∷ w)
put_child t n (err e) w = (err e, w)

abbrev cluster : Cluster Resources
cluster = record {
  create_or_update = λ t n f w. put_child t n (f (found_or_new (find w t n))) w;
  set_controller_reference = λ p c. ok (record c { controller = some p.name });
  list = λ t p w. (ok (labelled_names t p w), w);
  delete = λ t n w. (ok tt, drop t n w);
  update_latest = pure tt;
  update_reached = λ w. false;
  order = λ l. l;
}

abbrev no_status : UnstructuredDataPipelineStatus
no_status = record { last_applied_generation = 0; conditions = []; stages = [] }

abbrev to_convert : StageSpec
to_convert = record { name = codes "a"; depends_on = []; config = convert none }

abbrev to_chunk : StageSpec
to_chunk = record { name = codes "b"; depends_on = codes "a" ∷ []; config = chunk none }

abbrev pipeline : UnstructuredDataPipeline
pipeline = record {
  name = codes "p";
  namespace = codes "n";
  generation = 1;
  secret_ref = codes "s";
  stages = to_convert ∷ to_chunk ∷ [];
  status = no_status;
}

abbrev kube : Kube Resources UnstructuredDataPipeline UnstructuredDataPipelineStatus
kube = record {
  is_config_healthy = pure true;
  get = λ s. pure (record pipeline { status = s });
  patch_status = pure tt;
  patch_reached = λ w. false;
  merge_patch = λ base target server. record target { stages = server.stages };
  now = pure (codes "2025-01-01T00:00:00Z");
}

abbrev deps : Deps Resources
deps = record { kube = kube; cluster = cluster; quote = λ t. t }

find-drop : (t : StageType) (n : Text) (w : Resources) → find (drop t n w) t n ≡ none
find-drop t n [] = refl
find-drop t n (((u, m), c) ∷ w) = ground (arith, find-drop t n w)

find-drop_other :
    (t : StageType) (n : Text) (w : Resources) (u : StageType) (m : Text)
    → (t == u && n == m) ≡ false
    → find (drop t n w) u m ≡ find w u m
find-drop_other t n [] u m h = refl
find-drop_other t n (((v, k), c) ∷ w) u m h = ground (arith, find-drop_other t n w u m h)

put_child_done :
    (t : StageType) (n : Text) (r : Result Child) (w : Resources)
    → (put_child t n r w).0 ≡ ok tt
    → (after : Child) × ((r ≡ ok after)
        × (find (put_child t n r w).1 t n ≡ some (child_as_encoded after)))
put_child_done t n (ok c) w h = (c, (refl, ground arith))
put_child_done t n (err e) w h = absurd (ground arith)

put_child_frame :
    (t : StageType) (n : Text) (r : Result Child) (w : Resources) (u : StageType) (m : Text)
    → (t == u && n == m) ≡ false
    → find (put_child t n r w).1 u m ≡ find w u m
put_child_frame t n (ok c) w u m h = ground (arith, h)
put_child_frame t n (err e) w u m h = refl

contains-labelled_names :
    (t : StageType) (p : Text) (w : Resources) (n : Text) (c : Child)
    → find w t n ≡ some c
    → c.labels pipeline_label ≡ some p
    → contains (labelled_names t p w) n ≡ true
contains-labelled_names t p [] n c h l = absurd (ground arith)
contains-labelled_names t p (((u, m), d) ∷ w) n c h l =
    by_key (contains-labelled_names t p w n c) (u == t && m == n) refl
  where
    by_key :
        (find w t n ≡ some c
          → c.labels pipeline_label ≡ some p
          → contains (labelled_names t p w) n ≡ true)
        → (b : Bool) → (u == t && m == n) ≡ b
        → contains (labelled_names t p (((u, m), d) ∷ w)) n ≡ true
    by_key ih true k = ground (arith, k, h, l)
    by_key ih false k = ground (arith, k, l, ih (ground (arith, k, h)) l)

cluster-ClusterLaws : ClusterLaws deps find
cluster-ClusterLaws = record {
  create_or_update_done = λ t n f w h.
      (let (after, (changed, there)) = put_child_done t n (f (found_or_new (find w t n))) w h in
        (found_or_new (find w t n), after, (changed, there)));
  create_or_update_frame =
      λ t n f w u m h. put_child_frame t n (f (found_or_new (find w t n))) w u m h;
  set_controller_reference_keeps = λ p c d h. ground arith;
  list_kept = λ t p w u m. refl;
  list_done = λ t p w found n c h there label.
      ground (arith, h, contains-labelled_names t p w n c there label);
  delete_done = λ t n w h. find-drop t n w;
  delete_frame = λ t n w u m h. find-drop_other t n w u m h;
  update_latest_kept = λ w u m. refl;
  patch_status_kept = λ w u m. refl;
  has-order = λ l t n. refl;
}

-- A resource of a stage that the pipeline no longer has.
abbrev orphaned : Resources
orphaned =
    (
      (chunks_generator, codes "p-old"),
      record {
        labels = λ k. if k == pipeline_label then some (codes "p") else none;
        controller = some (codes "p");
        spec = none;
      },
    )
    ∷ []

abbrev start : Session Resources UnstructuredDataPipeline UnstructuredDataPipelineStatus
start = record { cr = pipeline; server = no_status; world = orphaned }

pipeline_distinct : DistinctNames (graph deps pipeline.stages)
unfolding nat_eq list_eq
pipeline_distinct = (refl, (refl, tt))

applies : (apply_stages deps pipeline pipeline.stages start).0 ≡ ok finished
unfolding apply_stages ensure_children ensure_child_cr child_of update_stages put_created
    delete_orphaned_stage_crs current_stages delete_orphans expected_names keep_active status_patch
    update_status stage_type_eq nat_eq list_eq
applies = refl

orphan_deleted :
    find (apply_stages deps pipeline pipeline.stages start).1.world chunks_generator (codes "p-old")
    ≡ none
unfolding apply_stages ensure_children ensure_child_cr child_of update_stages put_created
    delete_orphaned_stage_crs current_stages delete_orphans expected_names keep_active status_patch
    update_status stage_type_eq nat_eq list_eq
orphan_deleted = refl

apply_stages-AllMade_example :
    AllMade deps find cluster-ClusterLaws pipeline
      (apply_stages deps pipeline pipeline.stages start).1.world
      pipeline.stages
    × NoOrphans deps find cluster-ClusterLaws pipeline
        (apply_stages deps pipeline pipeline.stages start).1.world
        pipeline.stages
apply_stages-AllMade_example =
    apply_stages-AllMade deps find cluster-ClusterLaws pipeline pipeline.stages start finished
      pipeline_distinct applies

-- The second stage names a stage that is not there.
abbrev dangling : UnstructuredDataPipeline
dangling = record pipeline {
  stages = to_convert ∷ record to_chunk { depends_on = codes "z" ∷ [] } ∷ [];
}

dangling_distinct : DistinctNames (graph deps dangling.stages)
unfolding nat_eq list_eq
dangling_distinct = (refl, (refl, tt))

dangling_invalid : ¬ (
    AllDefined (names (graph deps dangling.stages)) (graph deps dangling.stages)
    × Acyclic (graph deps dangling.stages))
unfolding nat_eq list_eq
dangling_invalid (defined, _) = ground (arith, defined.1.0 (codes "z") refl)

with_pipeline_invalid_example :
    ((with_pipeline deps dangling start).0 ≡ ok finished)
    × ((t : StageType) (n : Text)
        → find (with_pipeline deps dangling start).1.world t n ≡ find orphaned t n)
with_pipeline_invalid_example =
    with_pipeline_invalid deps find cluster-ClusterLaws dangling start dangling_distinct
      dangling_invalid
