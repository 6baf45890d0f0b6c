-- ===== src/Api/Stages/Acyclic.antt =====
-- What `ValidateStages` of api/v1alpha1/stages_utils.go means: the stages in an order in which each
-- comes behind its dependencies.
use unstructured_data_contro.Api.Stages.{
  PipelineStage, names, ready_stages, start_pending, run_rounds, verdict, detect_cycles,
  validate_stages, undefined_dep, undefined_deps,
}
use unstructured_data_contro.Api.Stages.Release.{
  count, contains_of_count, count_of_contains, deps_of, DistinctNames, count-names,
}
use unstructured_data_contro.Api.Stages.Invariant.{
  missing_none, missing_of_all, Ordered, Inv, Inv-start, process-Inv,
}
use unstructured_data_contro.Api.Stages.Ranks.{
  length-le_of_count, length-names, Ranked, Acyclic, AllDefined, Ranked-at, AllDefined-at,
  Ranked-of, place, place-le,
}
use unstructured_data_contro.Api.Stages.Rounds.{run_rounds_ends}
use unstructured_data_contro.Prelude.{
  ℕ, zero, suc, ◌+◌, ◌≤◌, ◌<◌, ℤ, Text, true, Bool-cases, none, some, Option-cases, List, [], ◌∷◌,
  length, contains, nat_eq, list_eq, ok, Error, ◌≡◌, ◌⊎◌, ◌↔◌, inl, inr, refl, arith,
}

module _ (stages : List PipelineStage) where
  Ordered-closed :
      (l : List Text) (n d : Text)
      → Ordered stages l
      → contains l n ≡ true
      → contains (deps_of stages n) d ≡ true
      → contains l d ≡ true
  Ordered-closed [] n d o m h = cc
  Ordered-closed (x ∷ l) n d o m h =
      ground (arith, missing_none l (deps_of stages n) d, Ordered-closed l n d o.1.1)

  Ordered-place :
      (l : List Text) (n d : Text)
      → Ordered stages l
      → contains l n ≡ true
      → contains (deps_of stages n) d ≡ true
      → place l d < place l n
  Ordered-place [] n d o m h = cc
  Ordered-place (x ∷ l) n d o m h = ground (
    arith,
    missing_none l (deps_of stages n) d,
    Ordered-closed l n d o.1.1,
    Ordered-place l n d o.1.1,
    place-le l d,
  )

  module _ (distinct : DistinctNames stages) (q : Text → ℤ) (last : List Text)
      (i : Inv stages last q []) where
    done_at : (n : Text) → count n last ≤ count n (names stages)
    done_at n = ground (arith, i.once n, count-names stages n distinct)

    -- If as many stages are done as there are, then all are.
    all_done :
        (n : Text)
        → length last ≡ length stages
        → contains (names stages) n ≡ true
        → contains last n ≡ true
    all_done n e m = elim (Bool-cases (contains last n)) [
      | inl yes_ ↦ yes_
      | inr no_ ↦ absurd (
          omega (
            arith,
            e,
            length-names stages,
            length-le_of_count (n ∷ last) (names stages) (λ k.
                ground
                  (arith, done_at k, count_of_contains n last no_, count-names stages n distinct)),
          ))
    ]

    Acyclic-of_length : length last ≡ length stages → Acyclic stages
    Acyclic-of_length e = (
      place last,
      Ranked-of (place last) stages distinct
          (λ n d m h. Ordered-place last n d i.ordered (all_done n e m) h),
    )

    -- With ranks, no stage is left over.
    Ranked-done :
        (rank : Text → ℕ)
        → Ranked rank stages
        → AllDefined (names stages) stages
        → (bound : ℕ) (n : Text) → rank n < bound
        → contains (names stages) n ≡ true
        → contains last n ≡ true
    Ranked-done rank r defined zero n b m = absurd (omega arith)
    Ranked-done rank r defined (suc bound) n b m = ground (
      arith,
      i.once n,
      count_of_contains n last,
      missing_of_all last (deps_of stages n) (λ d h.
          Ranked-done rank r defined bound d (omega (arith, Ranked-at rank stages n d r h))
            (AllDefined-at (names stages) stages n d defined h)),
    )

    length_of_Ranked :
        (rank : Text → ℕ)
        → Ranked rank stages
        → AllDefined (names stages) stages
        → length last ≡ length stages
    length_of_Ranked rank r defined = omega (
      arith,
      length-names stages,
      length-le_of_count last (names stages) done_at,
      length-le_of_count (names stages) last (λ n. ground (
        arith,
        count-names stages n distinct,
        contains_of_count n last,
        Ranked-done rank r defined (suc (rank n)) n (omega arith),
      )),
    )

undefined_dep_iff :
    (quote : Text → Text) (stage : Text) (defined deps : List Text)
    → (undefined_dep quote stage defined deps ≡ none)
      ↔ ((d : Text) → contains deps d ≡ true → contains defined d ≡ true)
unfolding undefined_dep
undefined_dep_iff quote stage defined [] = (λ h d m. cc, λ h. refl)
undefined_dep_iff quote stage defined (e ∷ deps) =
    let (there, back) = undefined_dep_iff quote stage defined deps in
    (
      λ h d m.
          ground (arith, λ (k : undefined_dep quote stage defined deps ≡ none). there k d, h, m),
      λ h. ground (arith, h e, back (λ d m. h d (ground arith))),
    )

undefined_deps_iff :
    (quote : Text → Text) (defined : List Text) (stages : List PipelineStage)
    → (undefined_deps quote defined stages ≡ none) ↔ AllDefined defined stages
unfolding undefined_deps
undefined_deps_iff quote defined [] = (λ h. tt, λ h. refl)
undefined_deps_iff quote defined (s ∷ stages) =
    let (there, back) = undefined_dep_iff quote s.name defined s.depends_on in
    let (rest, rest_back) = undefined_deps_iff quote defined stages in
    (λ h. ground (arith, there, rest), λ h. ground (arith, back h.0, rest_back h.1))

module _ (stages : List PipelineStage) (distinct : DistinctNames stages) where
  rounds_lem :
      (ended : ℕ × (Text → ℤ))
      → run_rounds stages ≡ some ended
      → (last : List Text) × (Inv stages last ended.1 [] × (ended.0 ≡ length last))
  rounds_lem (k, q) e =
      process-Inv stages distinct (length stages + length stages) (start_pending stages)
        (ready_stages (start_pending stages) stages) [] k q (Inv-start stages distinct) e

  -- detectCycles accepts stages of which each dependency is defined exactly if they have ranks.
  verdict_iff :
      AllDefined (names stages) stages
      → (ended : ℕ × (Text → ℤ)) → run_rounds stages ≡ some ended
      → (verdict stages ended ≡ ok tt) ↔ Acyclic stages
  verdict_iff defined (k, q) e =
      let (last, (i, long)) = rounds_lem (k, q) e in
      (
        λ h. Acyclic-of_length stages distinct q last i (ground arith),
        λ (rank, r). ground (arith, length_of_Ranked stages distinct q last i rank r defined),
      )

  -- If the stages have distinct names, then ValidateStages accepts them exactly if every dependency
  -- is the name of a stage, and the names can be ranked so that each stage ranks above its
  -- dependencies, which is that there is no cycle.
  pub validate_stages_iff :
      (quote : Text → Text)
      → (validate_stages quote stages ≡ some (ok tt))
        ↔ (AllDefined (names stages) stages × Acyclic stages)
  unfolding validate_stages detect_cycles
  validate_stages_iff quote =
      let (there, back) = undefined_deps_iff quote (names stages) stages in
      by_names there back (Option-cases (undefined_deps quote (names stages) stages))
        (Option-cases (run_rounds stages))
    where
      by_names :
          (undefined_deps quote (names stages) stages ≡ none → AllDefined (names stages) stages)
          → (AllDefined (names stages) stages → undefined_deps quote (names stages) stages ≡ none)
          → (undefined_deps quote (names stages) stages ≡ none)
            ⊎ ((e : Error) × (undefined_deps quote (names stages) stages ≡ some e))
          → (run_rounds stages ≡ none)
            ⊎ ((ended : ℕ × (Text → ℤ)) × (run_rounds stages ≡ some ended))
          → (validate_stages quote stages ≡ some (ok tt))
            ↔ (AllDefined (names stages) stages × Acyclic stages)
      by_names there back (inr (x, e)) r = (
        λ h. absurd (ground (arith, e)),
        λ (defined, acyclic). absurd (ground (arith, e, back defined)),
      )
      by_names there back (inl e) (inl r) = absurd (run_rounds_ends stages r)
      by_names there back (inl e) (inr (ended, r)) =
          let (ranks, verdict_ok) = verdict_iff (there e) ended r in
          (
            λ h. (there e, ranks (ground (arith, e, r))),
            λ (defined, acyclic). ground (arith, e, r, verdict_ok acyclic),
          )
