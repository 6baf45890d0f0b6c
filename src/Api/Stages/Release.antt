-- ===== src/Api/Stages/Release.antt =====
-- How often a name stands in a list, and what one round of `detectCycles` of
-- api/v1alpha1/stages_utils.go does to the counters.
use unstructured_data_contro.Api.Stages.{
  PipelineStage, put, add_downstream, pending_deps, downstream_stages, release, ready_stages, names,
}
use unstructured_data_contro.Prelude.{
  ℕ, zero, suc, ◌+◌, ◌-◌, ◌≤◌, ◌<◌, ℤ, pos, pred, is_zero, ltb, Text, true, false, List, [], ◌∷◌,
  ◌++◌, length, contains, ◌==◌, ◌&&◌, nat_eq, list_eq, if◌then◌else◌, ◌≡◌, refl, arith,
}

abbrev pub count : Text → List Text → ℕ
count n [] = 0
count n (x ∷ l) = (if n == x then 1 else 0) + count n l

pub count-append : (n : Text) (l m : List Text) → count n (l ++ m) ≡ count n l + count n m
count-append n [] m = omega arith
count-append n (x ∷ l) m = ground (arith, count-append n l m)

pub contains_of_count : (n : Text) (l : List Text) → contains l n ≡ true → 0 < count n l
contains_of_count n [] h = cc
contains_of_count n (x ∷ l) h = ground (arith, contains_of_count n l)

pub count_of_contains : (n : Text) (l : List Text) → contains l n ≡ false → count n l ≡ 0
count_of_contains n [] h = refl
count_of_contains n (x ∷ l) h = ground (arith, count_of_contains n l)

-- The dependencies of the stage of a name.
abbrev pub deps_of : List PipelineStage → Text → List Text
deps_of [] n = []
deps_of (s ∷ stages) n = if n == s.name then s.depends_on else deps_of stages n

-- The stages have distinct names.
abbrev pub DistinctNames : List PipelineStage → Type 0
DistinctNames [] = Unit
DistinctNames (s ∷ stages) = (contains (names stages) s.name ≡ false) × DistinctNames stages

pub deps_of_absent :
    (stages : List PipelineStage) (n : Text)
    → contains (names stages) n ≡ false
    → deps_of stages n ≡ []
deps_of_absent [] n h = refl
deps_of_absent (s ∷ stages) n h = ground (arith, deps_of_absent stages n)

pub count-names :
    (stages : List PipelineStage) (n : Text)
    → DistinctNames stages
    → count n (names stages) ≡ (if contains (names stages) n then 1 else 0)
count-names [] n u = refl
count-names (s ∷ stages) n u =
    ground (arith, count-names stages n u.1, count_of_contains n (names stages))

-- The counters at the start.
pending_lem :
    (stages : List PipelineStage) (m : Text → ℤ) (n : Text)
    → DistinctNames stages
    → pending_deps stages m n
      ≡ (if contains (names stages) n then pos (length (deps_of stages n)) else m n)
unfolding pending_deps
pending_lem [] m n u = refl
pending_lem (s ∷ stages) m n u =
    ground (arith, pending_lem stages (put s.name (pos (length s.depends_on)) m) n u.1)

pub start_pending_lem :
    (stages : List PipelineStage) (n : Text)
    → DistinctNames stages
    → pending_deps stages (λ n. pos 0) n ≡ pos (length (deps_of stages n))
start_pending_lem stages n u =
    ground (arith, pending_lem stages (λ n. pos 0) n u, deps_of_absent stages n)

count-add_downstream :
    (name : Text) (deps : List Text) (m : Text → List Text) (x n : Text)
    → count n (add_downstream name deps m x)
      ≡ count n (m x) + (if n == name then count x deps else 0)
unfolding add_downstream
count-add_downstream name [] m x n = ground arith
count-add_downstream name (dep ∷ deps) m x n = ground (
  arith,
  count-add_downstream name deps (put dep (m dep ++ name ∷ []) m) x n,
  count-append n (m dep) (name ∷ []),
)

count-downstream_from :
    (stages : List PipelineStage) (m : Text → List Text) (x n : Text)
    → DistinctNames stages
    → count n (downstream_stages stages m x) ≡ count n (m x) + count x (deps_of stages n)
unfolding downstream_stages
count-downstream_from [] m x n u = ground arith
count-downstream_from (s ∷ stages) m x n u = ground (
  arith,
  count-downstream_from stages (add_downstream s.name s.depends_on m) x n u.1,
  count-add_downstream s.name s.depends_on m x n,
  deps_of_absent stages n,
)

pub count-downstream :
    (stages : List PipelineStage) (x n : Text)
    → DistinctNames stages
    → count n (downstream_stages stages (λ n. []) x) ≡ count x (deps_of stages n)
count-downstream stages x n u = omega (arith, count-downstream_from stages (λ n. []) x n u)

-- A round takes from each counter as much as its name stands in the list, ...
pub pending-release :
    (ds : List Text) (pending : Text → ℤ) (ready : List Text) (n : Text) (k : ℕ)
    → pending n ≡ pos k
    → count n ds ≤ k
    → (release ds pending ready).0 n ≡ pos (k - count n ds)
unfolding release
pending-release [] pending ready n k e h = ground arith
pending-release (d ∷ ds) pending ready n zero e h = ground (
  arith,
  pending-release ds (put d (pred (pending d)) pending)
      (if is_zero (pred (pending d)) then ready ++ d ∷ [] else ready) n zero,
)
pending-release (d ∷ ds) pending ready n (suc k) e h = ground (
  arith,
  pending-release ds (put d (pred (pending d)) pending)
      (if is_zero (pred (pending d)) then ready ++ d ∷ [] else ready) n k,
  pending-release ds (put d (pred (pending d)) pending)
      (if is_zero (pred (pending d)) then ready ++ d ∷ [] else ready) n (suc k),
)

-- ... and a name becomes ready if its counter gets to 0.
pub count-release :
    (ds : List Text) (pending : Text → ℤ) (ready : List Text) (n : Text) (k : ℕ)
    → pending n ≡ pos k
    → count n ds ≤ k
    → count n (release ds pending ready).1
      ≡ count n ready + (if ltb 0 (count n ds) && k == count n ds then 1 else 0)
unfolding release
count-release [] pending ready n k e h = ground arith
count-release (d ∷ ds) pending ready n zero e h = ground (
  arith,
  count-append n ready (d ∷ []),
  count-release ds (put d (pred (pending d)) pending)
      (if is_zero (pred (pending d)) then ready ++ d ∷ [] else ready) n zero,
)
count-release (d ∷ ds) pending ready n (suc k) e h = ground (
  arith,
  count-append n ready (d ∷ []),
  count-release ds (put d (pred (pending d)) pending)
      (if is_zero (pred (pending d)) then ready ++ d ∷ [] else ready) n k,
  count-release ds (put d (pred (pending d)) pending)
      (if is_zero (pred (pending d)) then ready ++ d ∷ [] else ready) n (suc k),
)

pub count-ready_stages :
    (stages : List PipelineStage) (pending : Text → ℤ) (n : Text)
    → count n (ready_stages pending stages)
      ≡ (if is_zero (pending n) then count n (names stages) else 0)
unfolding ready_stages
count-ready_stages [] pending n = ground arith
count-ready_stages (s ∷ stages) pending n = ground (arith, count-ready_stages stages pending n)
