-- ===== src/Controller/Pipeline/Listing.antt =====
-- The list of a pipeline's resources in the clean-up of
-- internal/controller/unstructureddatapipeline_controller.go.
use unstructured_data_contro.Api.UnstructuredDataPipeline.{
  StageType, source_crawler, document_processor, chunks_generator, vector_embeddings_generator,
  destination_syncer, UnstructuredDataPipeline,
}
use unstructured_data_contro.Controller.Pipeline.{
  stage_type_eq, Child, pipeline_label, list_stages, tagged,
}
use unstructured_data_contro.Controller.Pipeline.Reconcile.{Deps, State, current_stages}
use unstructured_data_contro.Controller.Pipeline.Children.{has, ClusterLaws}
use unstructured_data_contro.Prelude.{
  Text, true, false, Bool-cases, inl, inr, Option, some, List, [], ◌∷◌, ◌++◌, ◌==◌, ◌||◌, nat_eq,
  list_eq, contains, Result, ok, err, ◌≡◌, ◌⊎◌, refl, arith, ◌∙◌,
}

pub has-append :
    (l r : List (StageType × Text)) (t : StageType) (n : Text)
    → has (l ++ r) t n ≡ (has l t n || has r t n)
has-append [] r t n = refl
has-append ((u, m) ∷ l) r t n = ground (arith, has-append l r t n)

pub has-tagged :
    (t : StageType) (found : List Text) (n : Text) → has (tagged t found) t n ≡ contains found n
has-tagged t [] n = refl
has-tagged t (m ∷ found) n = ground (arith, has-tagged t found n)

module _ {W : Type 0} (deps : Deps W) (child : W → StageType → Text → Option Child)
    (laws : ClusterLaws deps child) (pipeline : UnstructuredDataPipeline) where
  pub current_stages_kept :
      (ts : List StageType) (s : State deps) (u : StageType) (m : Text)
      → child (current_stages deps pipeline ts s).1.world u m ≡ child s.world u m
  unfolding current_stages
  current_stages_kept [] s u m = refl
  current_stages_kept (t ∷ ts) s u m =
      by_names (current_stages_kept ts) (deps.cluster.list t pipeline.name s.world).0 refl
    where
      listed : State deps
      listed = record s { world = (deps.cluster.list t pipeline.name s.world).1 }

      by_names :
          ((s : State deps) (u : StageType) (m : Text)
            → child (current_stages deps pipeline ts s).1.world u m ≡ child s.world u m)
          → (r : Result (List Text)) → (deps.cluster.list t pipeline.name s.world).0 ≡ r
          → child (current_stages deps pipeline (t ∷ ts) s).1.world u m ≡ child s.world u m
      by_names ih (err e) k = ground (arith, k, laws.list_kept t pipeline.name s.world u m)
      by_names ih (ok found) k = by_rest (current_stages deps pipeline ts listed).0 refl
        where
          by_rest :
              (r : Result (List (StageType × Text)))
              → (current_stages deps pipeline ts listed).0 ≡ r
              → child (current_stages deps pipeline (t ∷ ts) s).1.world u m ≡ child s.world u m
          by_rest r g =
              ground (arith, k, g, ih listed u m, laws.list_kept t pipeline.name s.world u m)

  -- Every resource with the label is listed.
  pub has-current_stages :
      (ts : List StageType) (s : State deps) (found : List (StageType × Text)) (t : StageType)
      (n : Text) (c : Child)
      → (current_stages deps pipeline ts s).0 ≡ ok found
      → contains ts t ≡ true
      → child s.world t n ≡ some c
      → c.labels pipeline_label ≡ some pipeline.name
      → has found t n ≡ true
  unfolding current_stages
  has-current_stages [] s found t n c h i there label = absurd (ground arith)
  has-current_stages (u ∷ ts) s found t n c h i there label =
      by_names (has-current_stages ts) (deps.cluster.list u pipeline.name s.world).0 refl
    where
      listed : State deps
      listed = record s { world = (deps.cluster.list u pipeline.name s.world).1 }

      by_names :
          ((s : State deps) (found : List (StageType × Text)) (t : StageType) (n : Text) (c : Child)
            → (current_stages deps pipeline ts s).0 ≡ ok found
            → contains ts t ≡ true
            → child s.world t n ≡ some c
            → c.labels pipeline_label ≡ some pipeline.name
            → has found t n ≡ true)
          → (r : Result (List Text)) → (deps.cluster.list u pipeline.name s.world).0 ≡ r
          → has found t n ≡ true
      by_names ih (err e) k = absurd (ground (arith, k))
      by_names ih (ok here) k = by_rest (current_stages deps pipeline ts listed).0 refl
        where
          by_rest :
              (r : Result (List (StageType × Text)))
              → (current_stages deps pipeline ts listed).0 ≡ r
              → has found t n ≡ true
          by_rest (err e) g = absurd (ground (arith, k, g))
          by_rest (ok rest) g = by_type (Bool-cases (u == t))
            where
              shape : found ≡ tagged u here ++ rest
              shape = ground (arith, k, g, h)

              by_type : ((u == t) ≡ true) ⊎ ((u == t) ≡ false) → has found t n ≡ true
              by_type (inl e) = ground (
                arith,
                shape,
                e,
                has-append (tagged u here) rest t n,
                has-tagged u here n,
                laws.list_done u pipeline.name s.world here n c k (ground (arith, e, there)) label,
              )
              by_type (inr e) = ground (
                arith,
                shape,
                e,
                has-append (tagged u here) rest t n,
                ih listed rest t n c g (ground (arith, i, e))
                    (laws.list_kept u pipeline.name s.world t n ∙ there) label,
              )

  pub contains-list_stages : (t : StageType) → contains list_stages t ≡ true
  unfolding stage_type_eq
  contains-list_stages source_crawler = ground arith
  contains-list_stages document_processor = ground arith
  contains-list_stages chunks_generator = ground arith
  contains-list_stages vector_embeddings_generator = ground arith
  contains-list_stages destination_syncer = ground arith
