-- ===== src/Api/Stages.antt =====
-- api/v1alpha1/stages_utils.go: the stages of a pipeline must name each other and have no cycle.
pub mod Release
pub mod Rounds
pub mod Invariant
pub mod Ranks
pub mod Acyclic
mod Tests
use unstructured_data_contro.Prelude.{
  ℕ, zero, suc, ◌+◌, ℤ, pos, pred, is_zero, is_positive, Text, codes, Bool, true, false, Option,
  none, some, List, [], ◌∷◌, ◌++◌, map, length, contains, ◌==◌, nat_eq, list_eq, if◌then◌else◌,
  Result, ok, err, Error, new_error,
}

-- What the validation reads of a stage. The API server keeps the names of a pipeline's stages
-- apart (listMapKey=name); the code below does not rely on it.
pub record PipelineStage : Type 0 where
  pub name : Text
  pub depends_on : List Text

abbrev pub names : List PipelineStage → List Text
names stages = map (λ (s : PipelineStage). s.name) stages

-- A Go map from names, in which a missing key has the zero value.
abbrev pub put {ℓ} : {A : Type ℓ} → Text → A → (Text → A) → Text → A
put k v m q = if q == k then v else m q

-- downstreamStages[dep.Name] = append(downstreamStages[dep.Name], stage.Name), for each dependency
unfoldable pub add_downstream : Text → List Text → (Text → List Text) → Text → List Text
add_downstream name [] m = m
add_downstream name (dep ∷ deps) m = add_downstream name deps (put dep (m dep ++ name ∷ []) m)

-- The two maps, from the stages in order.
unfoldable pub pending_deps : List PipelineStage → (Text → ℤ) → Text → ℤ
pending_deps [] m = m
pending_deps (s ∷ stages) m = pending_deps stages (put s.name (pos (length s.depends_on)) m)

unfoldable pub downstream_stages : List PipelineStage → (Text → List Text) → Text → List Text
downstream_stages [] m = m
downstream_stages (s ∷ stages) m = downstream_stages stages (add_downstream s.name s.depends_on m)

unfoldable pub ready_stages : (Text → ℤ) → List PipelineStage → List Text
ready_stages pending [] = []
ready_stages pending (s ∷ stages) =
    let rest = ready_stages pending stages in
    if is_zero (pending s.name) then s.name ∷ rest else rest

-- One more dependency of each stage of the list is processed.
unfoldable pub release : List Text → (Text → ℤ) → List Text → (Text → ℤ) × List Text
release [] pending ready = (pending, ready)
release (d ∷ ds) pending ready =
    let left = pred (pending d) in
    release ds (put d left pending) (if is_zero left then ready ++ d ∷ [] else ready)

-- The loop over the ready stages: how many were processed, and what is pending in the end. `none`
-- if the fuel runs out.
unfoldable pub process :
    (Text → List Text) → ℕ → (Text → ℤ) → List Text → ℕ → Option (ℕ × (Text → ℤ))
process downstream fuel pending [] processed = some (processed, pending)
process downstream zero pending (s ∷ ready) processed = none
process downstream (suc fuel) pending (s ∷ ready) processed =
    let (pending', ready') = release (downstream s) pending ready in
    process downstream fuel pending' ready' (suc processed)

-- The names that are still pending, each once, in an order of the stages (Go's is not defined).
unfoldable pub stuck : (Text → ℤ) → List PipelineStage → List Text
stuck pending [] = []
stuck pending (s ∷ stages) =
    let rest = stuck pending stages in
    if contains rest s.name
    then rest
    else if is_positive (pending s.name)
    then s.name ∷ rest
    else rest

-- strings.Join(names, ", ")
abbrev join_names : List Text → Text
join_names [] = []
join_names (n ∷ []) = n
join_names (n ∷ m ∷ ns) = n ++ codes ", " ++ join_names (m ∷ ns)

abbrev pub verdict : List PipelineStage → ℕ × (Text → ℤ) → Result (Unit {0})
verdict stages (processed, pending) =
    if processed == length stages
    then ok tt
    else err
        (new_error (codes "cycle detected involving stages: " ++ join_names (stuck pending stages)))

-- Two rounds for each stage are enough; with distinct names it is one.
abbrev pub start_pending : List PipelineStage → Text → ℤ
start_pending stages = pending_deps stages (λ n. pos 0)

abbrev pub start_downstream : List PipelineStage → Text → List Text
start_downstream stages = downstream_stages stages (λ n. [])

abbrev pub run_rounds : List PipelineStage → Option (ℕ × (Text → ℤ))
run_rounds stages =
    process (start_downstream stages) (length stages + length stages) (start_pending stages)
      (ready_stages (start_pending stages) stages) 0

unfoldable pub detect_cycles : List PipelineStage → Option (Result (Unit {0}))
detect_cycles stages = elim (run_rounds stages) [
  | none ↦ none
  | some ended ↦ some (verdict stages ended)
]

-- `quote` is %q.
module _ (quote : Text → Text) where
  -- The first dependency that is not the name of a stage.
  unfoldable pub undefined_dep : Text → List Text → List Text → Option Error
  undefined_dep stage defined [] = none
  undefined_dep stage defined (dep ∷ deps) =
      let rest = undefined_dep stage defined deps in
      if contains defined dep
      then rest
      else some (
          new_error
            (codes "stage " ++ quote stage ++ codes " depends on undefined stage " ++ quote dep))

  unfoldable pub undefined_deps : List Text → List PipelineStage → Option Error
  undefined_deps defined [] = none
  undefined_deps defined (s ∷ stages) =
      let rest = undefined_deps defined stages in
      elim (undefined_dep s.name defined s.depends_on) [ some e ↦ some e | none ↦ rest ]

  unfoldable pub validate_stages : List PipelineStage → Option (Result (Unit {0}))
  validate_stages stages = elim (undefined_deps (names stages) stages) [
    | some e ↦ some (err e)
    | none ↦ detect_cycles stages
  ]
