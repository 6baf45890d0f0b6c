-- ===== src/Api/Stages/Rounds.antt =====
-- The rounds of `detectCycles` of api/v1alpha1/stages_utils.go: how many there are, and what they
-- keep.
use unstructured_data_contro.Api.Stages.{
  PipelineStage, names, put, add_downstream, downstream_stages, release, ready_stages, process,
  start_pending, start_downstream, run_rounds, detect_cycles, validate_stages,
}
use unstructured_data_contro.Prelude.{
  ℕ, zero, suc, ◌+◌, ◌≤◌, ℤ, pos, negsuc, pred, is_zero, is_positive, Text, true, false, none, List,
  [], ◌∷◌, ◌++◌, length, contains, ◌||◌, nat_eq, list_eq, if◌then◌else◌, ◌≡◌, ◌≢◌, ◌⊎◌, inl, refl,
  arith,
}

-- The stages whose counter is above 0.
abbrev positives : List PipelineStage → (Text → ℤ) → ℕ
positives [] p = 0
positives (s ∷ stages) p = (if is_positive (p s.name) then 1 else 0) + positives stages p

positives-le_length :
    (stages : List PipelineStage) (p : Text → ℤ) → positives stages p ≤ length stages
positives-le_length [] p = omega arith
positives-le_length (s ∷ stages) p = ground (arith, positives-le_length stages p)

length-ready_stages :
    (stages : List PipelineStage) (p : Text → ℤ) → length (ready_stages p stages) ≤ length stages
unfolding ready_stages
length-ready_stages [] p = omega arith
length-ready_stages (s ∷ stages) p = ground (arith, length-ready_stages stages p)

positives-put :
    (stages : List PipelineStage) (p : Text → ℤ) (n : Text) (v : ℤ)
    → (is_positive v ≡ true → is_positive (p n) ≡ true)
    → positives stages (put n v p) ≤ positives stages p
positives-put [] p n v h = omega arith
positives-put (s ∷ stages) p n v h = ground (arith, positives-put stages p n v h)

positives-put_lt :
    (stages : List PipelineStage) (p : Text → ℤ) (n : Text) (v : ℤ)
    → contains (names stages) n ≡ true
    → is_positive (p n) ≡ true
    → is_positive v ≡ false
    → suc (positives stages (put n v p)) ≤ positives stages p
positives-put_lt [] p n v m h k = cc
positives-put_lt (s ∷ stages) p n v m h k =
    ground (arith, positives-put_lt stages p n v, positives-put stages p n v (λ e. cc))

-- The work that is left.
abbrev work : List PipelineStage → (Text → ℤ) → List Text → ℕ
work stages p ready = length ready + positives stages p

length-concat : (l : List Text) (d : Text) → length (l ++ d ∷ []) ≡ suc (length l)
length-concat [] d = refl
length-concat (x ∷ l) d = ground (arith, length-concat l d)

work-step :
    (stages : List PipelineStage) (d : Text) (c : ℤ) (p : Text → ℤ) (ready : List Text)
    → p d ≡ c
    → contains (names stages) d ≡ true
    → work stages (put d (pred c) p) (if is_zero (pred c) then ready ++ d ∷ [] else ready)
      ≤ work stages p ready
work-step stages d (pos zero) p ready e m = ground (arith, positives-put stages p d (negsuc 0))
work-step stages d (pos (suc zero)) p ready e m =
    ground (arith, length-concat ready d, positives-put_lt stages p d (pos 0) m)
work-step stages d (pos (suc (suc n))) p ready e m =
    ground (arith, positives-put stages p d (pos (suc n)))
work-step stages d (negsuc n) p ready e m =
    ground (arith, positives-put stages p d (negsuc (suc n)))

work-release :
    (stages : List PipelineStage) (ds : List Text) (p : Text → ℤ) (ready : List Text)
    → ((n : Text) → contains ds n ≡ true → contains (names stages) n ≡ true)
    → work stages (release ds p ready).0 (release ds p ready).1 ≤ work stages p ready
unfolding release
work-release stages [] p ready known = omega arith
work-release stages (d ∷ ds) p ready known = ground (
  arith,
  known d,
  work-step stages d (p d) p ready refl,
  work-release stages ds (put d (pred (p d)) p)
      (if is_zero (pred (p d)) then ready ++ d ∷ [] else ready) (λ n m. known n (ground arith)),
)

contains-append :
    (l m : List Text) (n : Text) → contains (l ++ m) n ≡ (contains l n || contains m n)
contains-append [] m n = refl
contains-append (x ∷ l) m n = ground (arith, contains-append l m n)

contains-add_downstream :
    (name : Text) (deps : List Text) (m : Text → List Text) (x n : Text)
    → contains (add_downstream name deps m x) n ≡ true
    → (contains (m x) n ≡ true) ⊎ (n ≡ name)
unfolding add_downstream
contains-add_downstream name [] m x n h = inl h
contains-add_downstream name (dep ∷ deps) m x n h = ground (
  arith,
  contains-add_downstream name deps (put dep (m dep ++ name ∷ []) m) x n h,
  contains-append (m dep) (name ∷ []) n,
)

contains-downstream :
    (stages : List PipelineStage) (m : Text → List Text) (x n : Text)
    → contains (downstream_stages stages m x) n ≡ true
    → (contains (m x) n ≡ true) ⊎ (contains (names stages) n ≡ true)
unfolding downstream_stages
contains-downstream [] m x n h = inl h
contains-downstream (s ∷ stages) m x n h = ground (
  arith,
  contains-downstream stages (add_downstream s.name s.depends_on m) x n h,
  contains-add_downstream s.name s.depends_on m x n,
)

module _ (stages : List PipelineStage) where
  abbrev downstream : Text → List Text
  downstream = start_downstream stages

  known : (x n : Text) → contains (downstream x) n ≡ true → contains (names stages) n ≡ true
  known x n h = ground (arith, contains-downstream stages (λ n. []) x n h)

  process_ends :
      (fuel : ℕ) (p : Text → ℤ) (ready : List Text) (k : ℕ)
      → work stages p ready ≤ fuel
      → process downstream fuel p ready k ≢ none
  unfolding process
  process_ends fuel p [] k h e = ground arith
  process_ends zero p (x ∷ ready) k h e = omega arith
  process_ends (suc fuel) p (x ∷ ready) k h e =
      process_ends fuel (release (downstream x) p ready).0 (release (downstream x) p ready).1
        (suc k) (omega (arith, work-release stages (downstream x) p ready (known x))) e

  pub run_rounds_ends : run_rounds stages ≢ none
  run_rounds_ends =
      process_ends (length stages + length stages) (start_pending stages)
        (ready_stages (start_pending stages) stages) 0
        (omega (
          arith,
          positives-le_length stages (start_pending stages),
          length-ready_stages stages (start_pending stages),
        ))

  -- Validation always ends, whatever the stages are: the fuel of two rounds for each stage is
  -- never used up.
  pub validate_stages-ne-none : (quote : Text → Text) → validate_stages quote stages ≢ none
  unfolding validate_stages detect_cycles
  validate_stages-ne-none quote h = ground (arith, run_rounds_ends)
