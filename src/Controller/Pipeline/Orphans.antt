-- ===== src/Controller/Pipeline/Orphans.antt =====
-- The loop that deletes orphans in internal/controller/unstructureddatapipeline_controller.go.
use unstructured_data_contro.Api.UnstructuredDataPipeline.{StageType, UnstructuredDataPipeline}
use unstructured_data_contro.Controller.Pipeline.{stage_type_eq, Child}
use unstructured_data_contro.Controller.Pipeline.Reconcile.{Deps, State, delete_orphans}
use unstructured_data_contro.Controller.Pipeline.Children.{has, ClusterLaws}
use unstructured_data_contro.Prelude.{
  Text, Bool, true, false, Bool-cases, inl, inr, Option, none, List, [], ◌∷◌, ◌==◌, ◌&&◌, nat_eq,
  list_eq, contains, Result, ok, err, ◌≡◌, ◌⊎◌, refl, arith, ◌∙◌,
}

module _ {W : Type 0} (deps : Deps W) (child : W → StageType → Text → Option Child)
    (laws : ClusterLaws deps child) (pipeline : UnstructuredDataPipeline) where
  module _ (expected : StageType → List Text) where
    -- One step of the loop: the resource at hand is kept, deleted, or the run ends with an error.
    abbrev step :
        StageType → Text → List (StageType × Text) → State deps → Result (Unit {0}) × State deps
    step t n children s = delete_orphans deps pipeline expected ((t, n) ∷ children) s

    abbrev deleted : StageType → Text → State deps → State deps
    deleted t n s = record s { world = (deps.cluster.delete t n s.world).1 }

    pub delete_orphans_frame :
        (children : List (StageType × Text)) (s : State deps) (t : StageType) (n : Text)
        → contains (expected t) n ≡ true
        → child (delete_orphans deps pipeline expected children s).1.world t n ≡ child s.world t n
    unfolding delete_orphans
    delete_orphans_frame [] s t n h = refl
    delete_orphans_frame ((u, m) ∷ children) s t n h =
        by_expected (delete_orphans_frame children) (contains (expected u) m) refl
      where
        by_expected :
            ((s : State deps) (t : StageType) (n : Text)
              → contains (expected t) n ≡ true
              → child (delete_orphans deps pipeline expected children s).1.world t n
                ≡ child s.world t n)
            → (b : Bool) → contains (expected u) m ≡ b
            → child (step u m children s).1.world t n ≡ child s.world t n
        by_expected ih true k = ground (arith, k, ih s t n h)
        by_expected ih false k = by_gone (deps.cluster.delete u m s.world).0 refl
          where
            frame : child (deleted u m s).world t n ≡ child s.world t n
            frame = laws.delete_frame u m s.world t n (ground (arith, k, h))

            by_gone :
                (r : Result (Unit {0}))
                → (deps.cluster.delete u m s.world).0 ≡ r
                → child (step u m children s).1.world t n ≡ child s.world t n
            by_gone (err e) g = ground (arith, k, g, frame)
            by_gone (ok _) g = ground (arith, k, g, frame, ih (deleted u m s) t n h)

    -- What is gone stays gone.
    delete_orphans-none :
        (children : List (StageType × Text)) (s : State deps) (t : StageType) (n : Text)
        → (delete_orphans deps pipeline expected children s).0 ≡ ok tt
        → child s.world t n ≡ none
        → child (delete_orphans deps pipeline expected children s).1.world t n ≡ none
    unfolding delete_orphans
    delete_orphans-none [] s t n h e = e
    delete_orphans-none ((u, m) ∷ children) s t n h e =
        by_expected (delete_orphans-none children) (contains (expected u) m) refl
      where
        by_expected :
            ((s : State deps) (t : StageType) (n : Text)
              → (delete_orphans deps pipeline expected children s).0 ≡ ok tt
              → child s.world t n ≡ none
              → child (delete_orphans deps pipeline expected children s).1.world t n ≡ none)
            → (b : Bool) → contains (expected u) m ≡ b
            → child (step u m children s).1.world t n ≡ none
        by_expected ih true k = ground (arith, k, ih s t n (ground (arith, k)) e)
        by_expected ih false k = by_gone (deps.cluster.delete u m s.world).0 refl
          where
            by_gone :
                (r : Result (Unit {0}))
                → (deps.cluster.delete u m s.world).0 ≡ r
                → child (step u m children s).1.world t n ≡ none
            by_gone (err x) g = absurd (ground (arith, k, g))
            by_gone (ok _) g =
                ground (arith, k, g, ih (deleted u m s) t n (ground (arith, k, g)) still)
              where
                still : child (deleted u m s).world t n ≡ none
                still = by_key (Bool-cases (u == t && m == n))
                  where
                    by_key :
                        ((u == t && m == n) ≡ true) ⊎ ((u == t && m == n) ≡ false)
                        → child (deleted u m s).world t n ≡ none
                    by_key (inl same) = ground (arith, same, laws.delete_done u m s.world g)
                    by_key (inr apart) = laws.delete_frame u m s.world t n apart ∙ e

    -- What is listed and not expected is gone in the end.
    pub delete_orphans_done :
        (children : List (StageType × Text)) (s : State deps) (t : StageType) (n : Text)
        → (delete_orphans deps pipeline expected children s).0 ≡ ok tt
        → has children t n ≡ true
        → contains (expected t) n ≡ false
        → child (delete_orphans deps pipeline expected children s).1.world t n ≡ none
    unfolding delete_orphans
    delete_orphans_done [] s t n h i o = absurd (ground arith)
    delete_orphans_done ((u, m) ∷ children) s t n h i o =
        by_expected (delete_orphans_done children) (contains (expected u) m) refl
      where
        by_expected :
            ((s : State deps) (t : StageType) (n : Text)
              → (delete_orphans deps pipeline expected children s).0 ≡ ok tt
              → has children t n ≡ true
              → contains (expected t) n ≡ false
              → child (delete_orphans deps pipeline expected children s).1.world t n ≡ none)
            → (b : Bool) → contains (expected u) m ≡ b
            → child (step u m children s).1.world t n ≡ none
        by_expected ih true k =
            ground (arith, k, ih s t n (ground (arith, k)) (ground (arith, k, i, o)) o)
        by_expected ih false k = by_gone (deps.cluster.delete u m s.world).0 refl
          where
            by_gone :
                (r : Result (Unit {0}))
                → (deps.cluster.delete u m s.world).0 ≡ r
                → child (step u m children s).1.world t n ≡ none
            by_gone (err x) g = absurd (ground (arith, k, g))
            by_gone (ok _) g = by_key (Bool-cases (u == t && m == n))
              where
                rest : (delete_orphans deps pipeline expected children (deleted u m s)).0 ≡ ok tt
                rest = ground (arith, k, g)

                by_key :
                    ((u == t && m == n) ≡ true) ⊎ ((u == t && m == n) ≡ false)
                    → child (step u m children s).1.world t n ≡ none
                by_key (inl same) = ground (
                  arith,
                  k,
                  g,
                  delete_orphans-none children (deleted u m s) t n rest
                      (ground (arith, same, laws.delete_done u m s.world g)),
                )
                by_key (inr apart) =
                    ground (arith, k, g, ih (deleted u m s) t n rest (ground (arith, i, apart)) o)

    -- A resource is gone in the end, or as it was.
    pub delete_orphans_or_same :
        (children : List (StageType × Text)) (s : State deps) (t : StageType) (n : Text)
        → (delete_orphans deps pipeline expected children s).0 ≡ ok tt
        → (child (delete_orphans deps pipeline expected children s).1.world t n ≡ none)
          ⊎ (child (delete_orphans deps pipeline expected children s).1.world t n
              ≡ child s.world t n)
    unfolding delete_orphans
    delete_orphans_or_same [] s t n h = inr refl
    delete_orphans_or_same ((u, m) ∷ children) s t n h =
        by_expected (delete_orphans_or_same children) (contains (expected u) m) refl
      where
        Goal : Type 0
        Goal =
            (child (step u m children s).1.world t n ≡ none)
            ⊎ (child (step u m children s).1.world t n ≡ child s.world t n)

        by_expected :
            ((s : State deps) (t : StageType) (n : Text)
              → (delete_orphans deps pipeline expected children s).0 ≡ ok tt
              → (child (delete_orphans deps pipeline expected children s).1.world t n ≡ none)
                ⊎ (child (delete_orphans deps pipeline expected children s).1.world t n
                    ≡ child s.world t n))
            → (b : Bool) → contains (expected u) m ≡ b
            → Goal
        by_expected ih true k = ground (arith, k, ih s t n (ground (arith, k)))
        by_expected ih false k = by_gone (deps.cluster.delete u m s.world).0 refl
          where
            by_gone : (r : Result (Unit {0})) → (deps.cluster.delete u m s.world).0 ≡ r → Goal
            by_gone (err x) g = absurd (ground (arith, k, g))
            by_gone (ok _) g = by_key (Bool-cases (u == t && m == n))
              where
                rest : (delete_orphans deps pipeline expected children (deleted u m s)).0 ≡ ok tt
                rest = ground (arith, k, g)

                by_key : ((u == t && m == n) ≡ true) ⊎ ((u == t && m == n) ≡ false) → Goal
                by_key (inl same) = inl (
                    ground (
                      arith,
                      k,
                      g,
                      delete_orphans-none children (deleted u m s) t n rest
                          (ground (arith, same, laws.delete_done u m s.world g)),
                    ))
                by_key (inr apart) = ground (
                  arith,
                  k,
                  g,
                  laws.delete_frame u m s.world t n apart,
                  ih (deleted u m s) t n rest,
                )
