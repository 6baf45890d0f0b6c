-- ===== src/Api/Stages/Tests.antt =====
-- Pipelines at concrete inputs.
use unstructured_data_contro.Api.Stages.{
  PipelineStage, names, add_downstream, pending_deps, downstream_stages, ready_stages, release,
  process, stuck, detect_cycles, undefined_dep, undefined_deps, validate_stages,
}
use unstructured_data_contro.Api.Stages.Release.{DistinctNames}
use unstructured_data_contro.Api.Stages.Rounds.{validate_stages-ne-none}
use unstructured_data_contro.Api.Stages.Acyclic.{validate_stages_iff}
use unstructured_data_contro.Api.Stages.Ranks.{AllDefined, Acyclic}
use unstructured_data_contro.Prelude.{
  Text, codes, none, some, List, [], ◌∷◌, ◌≡◌, ◌≢◌, ◌↔◌, refl, ok, err, new_error, nat_eq, list_eq,
}

abbrev quote : Text → Text
quote t = t

-- Two stages that fan out of one, and one behind both.
abbrev diamond : List PipelineStage
diamond =
    record { name = codes "d"; depends_on = codes "b" ∷ codes "c" ∷ [] }
    ∷ record { name = codes "b"; depends_on = codes "a" ∷ [] }
    ∷ record { name = codes "c"; depends_on = codes "a" ∷ [] }
    ∷ record { name = codes "a"; depends_on = [] }
    ∷ []

abbrev cycle : List PipelineStage
cycle =
    record { name = codes "a"; depends_on = codes "b" ∷ [] }
    ∷ record { name = codes "b"; depends_on = codes "a" ∷ [] }
    ∷ []

diamond_accepted : validate_stages quote diamond ≡ some (ok tt)
unfolding validate_stages undefined_deps undefined_dep detect_cycles process release ready_stages
    pending_deps downstream_stages add_downstream nat_eq list_eq
diamond_accepted = refl

cycle_refused :
    validate_stages quote cycle
    ≡ some (err (new_error (codes "cycle detected involving stages: a, b")))
unfolding validate_stages undefined_deps undefined_dep detect_cycles process release ready_stages
    pending_deps downstream_stages add_downstream stuck nat_eq list_eq
cycle_refused = refl

diamond_distinct : DistinctNames diamond
unfolding nat_eq list_eq
diamond_distinct = (refl, (refl, (refl, (refl, tt))))

validate_stages_iff_example :
    (validate_stages quote diamond ≡ some (ok tt))
    ↔ (AllDefined (names diamond) diamond × Acyclic diamond)
validate_stages_iff_example = validate_stages_iff diamond diamond_distinct quote

validate_stages-ne-none_example : validate_stages quote cycle ≢ none
validate_stages-ne-none_example = validate_stages-ne-none cycle quote
