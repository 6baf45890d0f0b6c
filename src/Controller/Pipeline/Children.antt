-- ===== src/Controller/Pipeline/Children.antt =====
-- The resources of a pipeline after a reconcile of
-- internal/controller/unstructureddatapipeline_controller.go.
use mathlib.Core.Option
use unstructured_data_contro.Api.Stages.{names}
use unstructured_data_contro.Api.Stages.Release.{DistinctNames}
use unstructured_data_contro.Api.UnstructuredDataPipeline.{
  StageType, StageSpec, StageCreationStatus, UnstructuredDataPipeline,
}
use unstructured_data_contro.Controller.Pipeline.{
  stage_type_eq, ChildSpec, Child, spec_as_encoded, child_as_encoded, pipeline_label, child_cr_name,
  child_of, put_label, expected_names,
}
use unstructured_data_contro.Controller.Pipeline.Reconcile.{
  Deps, State, update_stages, mutated, ensure_of, ensure_child_cr, ensure_children, graph,
}
use unstructured_data_contro.Prelude.{
  Text, codes, Bool, true, false, Option, none, some, List, [], ◌∷◌, ◌++◌, ◌==◌, ◌&&◌, ◌||◌, nat_eq,
  list_eq, contains, cut_prefix-append, Result, ok, err, ◌≡◌, refl, arith, subst, ◌∙◌, ap,
}

append_inj : (p a b : Text) → p ++ a ≡ p ++ b → a ≡ b
append_inj p a b h = ground (arith, cut_prefix-append p a, cut_prefix-append p b)

append_apart : (p a b : Text) → (a == b) ≡ false → ((p ++ a) == (p ++ b)) ≡ false
append_apart p a b h = ground (arith, append_inj p a b)

-- A list of resources has one.
abbrev pub has : List (StageType × Text) → StageType → Text → Bool
has [] t n = false
has ((u, m) ∷ children) t n = (u == t && m == n) || has children t n

-- What the API server does: `child w t n` is the resource of type t with the name n.
pub record ClusterLaws {W : Type 0} (deps : Deps W) (child : W → StageType → Text → Option Child)
    : Type 0 where
  pub create_or_update_done :
      (t : StageType) (n : Text) (f : Child → Result Child) (w : W)
      → (deps.cluster.create_or_update t n f w).0 ≡ ok tt
      → (before : Child) × (after : Child) × ((f before ≡ ok after)
          × (child (deps.cluster.create_or_update t n f w).1 t n ≡ some (child_as_encoded after)))
  pub create_or_update_frame :
      (t : StageType) (n : Text) (f : Child → Result Child) (w : W) (u : StageType) (m : Text)
      → (t == u && n == m) ≡ false
      → child (deps.cluster.create_or_update t n f w).1 u m ≡ child w u m
  pub set_controller_reference_keeps :
      (p : UnstructuredDataPipeline) (c d : Child)
      → deps.cluster.set_controller_reference p c ≡ ok d
      → (d.spec ≡ c.spec) × (d.labels ≡ c.labels)
  pub list_kept :
      (t : StageType) (p : Text) (w : W) (u : StageType) (m : Text)
      → child (deps.cluster.list t p w).1 u m ≡ child w u m
  pub list_done :
      (t : StageType) (p : Text) (w : W) (found : List Text) (n : Text) (c : Child)
      → (deps.cluster.list t p w).0 ≡ ok found
      → child w t n ≡ some c
      → c.labels pipeline_label ≡ some p
      → contains found n ≡ true
  pub delete_done :
      (t : StageType) (n : Text) (w : W)
      → (deps.cluster.delete t n w).0 ≡ ok tt
      → child (deps.cluster.delete t n w).1 t n ≡ none
  pub delete_frame :
      (t : StageType) (n : Text) (w : W) (u : StageType) (m : Text)
      → (t == u && n == m) ≡ false
      → child (deps.cluster.delete t n w).1 u m ≡ child w u m
  pub update_latest_kept :
      (w : W) (u : StageType) (m : Text) → child (deps.cluster.update_latest w).1 u m ≡ child w u m
  pub patch_status_kept :
      (w : W) (u : StageType) (m : Text) → child (deps.kube.patch_status w).1 u m ≡ child w u m
  pub has-order :
      (l : List (StageType × Text)) (t : StageType) (n : Text)
      → has (deps.cluster.order l) t n ≡ has l t n

module _ {W : Type 0} (deps : Deps W) (child : W → StageType → Text → Option Child)
    (laws : ClusterLaws deps child) (pipeline : UnstructuredDataPipeline) where
  -- The resource of a stage is there with the spec of the stage, as encoding/json keeps it, and the
  -- label of the pipeline.
  pub record Made (w : W) (stage : StageSpec) : Type 0 where
    pub type : StageType
    pub spec : ChildSpec
    pub resource : Child
    pub asked : child_of pipeline stage ≡ ok (type, spec)
    pub there : child w type (child_cr_name pipeline stage.name) ≡ some resource
    pub same_spec : resource.spec ≡ some (spec_as_encoded spec)
    pub label : resource.labels pipeline_label ≡ some pipeline.name

  abbrev pub AllMade : W → List StageSpec → Type 0
  AllMade w [] = Unit
  AllMade w (stage ∷ stages) = Made w stage × AllMade w stages

  -- A resource with the label of the pipeline is that of one of the stages.
  abbrev pub NoOrphans : W → List StageSpec → Type 0
  NoOrphans w stages =
      (t : StageType) (n : Text) (c : Child)
      → child w t n ≡ some c
      → c.labels pipeline_label ≡ some pipeline.name
      → contains (expected_names pipeline t stages) n ≡ true

  cr_name_apart :
      (m n : Text)
      → (m == n) ≡ false
      → (child_cr_name pipeline m == child_cr_name pipeline n) ≡ false
  cr_name_apart m n h = append_apart (pipeline.name ++ codes "-") m n h

  update_stages_kept :
      (f : List StageCreationStatus → List StageCreationStatus) (s : State deps) (u : StageType)
      (m : Text)
      → child (update_stages deps f s).1.world u m ≡ child s.world u m
  unfolding update_stages
  update_stages_kept f s u m = laws.update_latest_kept s.world u m

  ensure_of_frame :
      (stage : Text) (t : StageType) (spec : ChildSpec) (s : State deps) (u : StageType) (n : Text)
      → (stage == n) ≡ false
      → child (ensure_of deps pipeline stage (t, spec) s).1.world u (child_cr_name pipeline n)
        ≡ child s.world u (child_cr_name pipeline n)
  unfolding update_stages
  ensure_of_frame stage t spec s u n h =
      by_made
        (deps.cluster.create_or_update t (child_cr_name pipeline stage) (mutated deps pipeline spec)
          s.world).0
        refl
    where
      made : W
      made =
          (deps.cluster.create_or_update t (child_cr_name pipeline stage)
            (mutated deps pipeline spec) s.world).1

      by_made :
          (r : Result (Unit {0}))
          → (deps.cluster.create_or_update t
              (child_cr_name pipeline stage)
              (mutated deps pipeline spec)
              s.world).0
            ≡ r
          → child (ensure_of deps pipeline stage (t, spec) s).1.world u (child_cr_name pipeline n)
            ≡ child s.world u (child_cr_name pipeline n)
      by_made r k = ground (
        arith,
        k,
        laws.update_latest_kept made u (child_cr_name pipeline n),
        cr_name_apart stage n h,
        laws.create_or_update_frame t (child_cr_name pipeline stage) (mutated deps pipeline spec)
            s.world u (child_cr_name pipeline n),
      )

  ensure_child_cr_frame :
      (stage : StageSpec) (s : State deps) (u : StageType) (n : Text)
      → (stage.name == n) ≡ false
      → child (ensure_child_cr deps pipeline stage s).1.world u (child_cr_name pipeline n)
        ≡ child s.world u (child_cr_name pipeline n)
  unfolding ensure_child_cr
  ensure_child_cr_frame stage s u n h = by_child (child_of pipeline stage) refl
    where
      by_child :
          (r : Result (StageType × ChildSpec))
          → child_of pipeline stage ≡ r
          → child (ensure_child_cr deps pipeline stage s).1.world u (child_cr_name pipeline n)
            ≡ child s.world u (child_cr_name pipeline n)
      by_child (err e) k = ground (arith, k)
      by_child (ok (t, spec)) k = ground (arith, k, ensure_of_frame stage.name t spec s u n h)

  -- A stage's resource is left alone by the stages with other names.
  ensure_children_frame :
      (stages : List StageSpec) (s : State deps) (u : StageType) (n : Text)
      → contains (names (graph deps stages)) n ≡ false
      → child (ensure_children deps pipeline stages s).1.world u (child_cr_name pipeline n)
        ≡ child s.world u (child_cr_name pipeline n)
  unfolding ensure_children
  ensure_children_frame [] s u n h = refl
  ensure_children_frame (stage ∷ stages) s u n h =
      by_result (ensure_children_frame stages) (ensure_child_cr deps pipeline stage s).0 refl
    where
      next : State deps
      next = (ensure_child_cr deps pipeline stage s).1

      by_result :
          ((s : State deps) (u : StageType) (n : Text)
            → contains (names (graph deps stages)) n ≡ false
            → child (ensure_children deps pipeline stages s).1.world u (child_cr_name pipeline n)
              ≡ child s.world u (child_cr_name pipeline n))
          → (r : Result (Unit {0})) → (ensure_child_cr deps pipeline stage s).0 ≡ r
          → child
              (ensure_children deps pipeline (stage ∷ stages) s).1.world
              u
              (child_cr_name pipeline n)
            ≡ child s.world u (child_cr_name pipeline n)
      by_result ih (err e) k = ground (arith, k, ensure_child_cr_frame stage s u n (ground arith))
      by_result ih (ok _) k =
          ground
            (arith, k, ih next u n (ground arith), ensure_child_cr_frame stage s u n (ground arith))

  -- The resource of one stage.
  ensure_child_cr-Made :
      (stage : StageSpec) (s : State deps)
      → (ensure_child_cr deps pipeline stage s).0 ≡ ok tt
      → Made (ensure_child_cr deps pipeline stage s).1.world stage
  unfolding ensure_child_cr update_stages
  ensure_child_cr-Made stage s h = by_child (child_of pipeline stage) refl
    where
      ended : W
      ended = (ensure_child_cr deps pipeline stage s).1.world

      name : Text
      name = child_cr_name pipeline stage.name

      by_made :
          (t : StageType) (spec : ChildSpec)
          → child_of pipeline stage ≡ ok (t, spec)
          → (r : Result (Unit {0}))
          → (deps.cluster.create_or_update t name (mutated deps pipeline spec) s.world).0 ≡ r
          → Made ended stage
      by_made t spec k (err e) g = absurd (ground (arith, k, g))
      by_made t spec k (ok _) g =
          let (before, after, (changed, there)) =
            laws.create_or_update_done t name (mutated deps pipeline spec) s.world g in
          let (same_spec, same_labels) =
            laws.set_controller_reference_keeps pipeline
              (record before {
                labels = put_label pipeline_label pipeline.name before.labels;
                spec = some spec;
              })
              after changed in
          record {
            type = t;
            spec = spec;
            resource = child_as_encoded after;
            asked = k;
            there = ground (
              arith,
              k,
              g,
              there,
              laws.update_latest_kept
                  (deps.cluster.create_or_update t name (mutated deps pipeline spec) s.world).1 t
                  name,
            );
            same_spec = ap (Option.map spec_as_encoded) same_spec;
            label = ground (arith, same_labels);
          }

      by_child :
          (r : Result (StageType × ChildSpec)) → child_of pipeline stage ≡ r → Made ended stage
      by_child (err e) k = absurd (ground (arith, k))
      by_child (ok (t, spec)) k =
          by_made t spec k
            (deps.cluster.create_or_update t name (mutated deps pipeline spec) s.world).0 refl

  -- A resource that is not touched stays the resource of its stage.
  pub Made-kept :
      (stage : StageSpec) (v w : W)
      → ((u : StageType) (spec : ChildSpec)
          → child_of pipeline stage ≡ ok (u, spec)
          → child w u (child_cr_name pipeline stage.name)
            ≡ child v u (child_cr_name pipeline stage.name))
      → Made v stage
      → Made w stage
  Made-kept stage v w same m = record {
    type = m.type;
    spec = m.spec;
    resource = m.resource;
    asked = m.asked;
    there = same m.type m.spec m.asked ∙ m.there;
    same_spec = m.same_spec;
    label = m.label;
  }

  -- The loop over the stages.
  pub ensure_children-AllMade :
      (stages : List StageSpec) (s : State deps)
      → DistinctNames (graph deps stages)
      → (ensure_children deps pipeline stages s).0 ≡ ok tt
      → AllMade (ensure_children deps pipeline stages s).1.world stages
  unfolding ensure_children
  ensure_children-AllMade [] s d h = tt
  ensure_children-AllMade (stage ∷ stages) s d h =
      by_result (ensure_children-AllMade stages) (ensure_child_cr deps pipeline stage s).0 refl
    where
      next : State deps
      next = (ensure_child_cr deps pipeline stage s).1

      ended : W
      ended = (ensure_children deps pipeline (stage ∷ stages) s).1.world

      by_result :
          ((s : State deps)
            → DistinctNames (graph deps stages)
            → (ensure_children deps pipeline stages s).0 ≡ ok tt
            → AllMade (ensure_children deps pipeline stages s).1.world stages)
          → (r : Result (Unit {0})) → (ensure_child_cr deps pipeline stage s).0 ≡ r
          → AllMade ended (stage ∷ stages)
      by_result ih (err e) k = absurd (ground (arith, k))
      by_result ih (ok _) k = (
        Made-kept stage next.world ended
            (λ u spec e. ground (arith, k, ensure_children_frame stages next u stage.name d.0))
            (ensure_child_cr-Made stage s k),
        subst (λ (w : W). AllMade w stages) (ground (arith, k)) (ih next d.1 (ground (arith, k))),
      )
