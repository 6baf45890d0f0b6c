-- ===== src/Api/Stages/Ranks.antt =====
-- Ranks of the stages of a pipeline, and lists with as many elements as they can have.
use unstructured_data_contro.Api.Stages.{PipelineStage, names}
use unstructured_data_contro.Api.Stages.Release.{count, deps_of, DistinctNames}
use unstructured_data_contro.Prelude.{
  ℕ, suc, ◌+◌, ◌≤◌, ◌<◌, Text, true, Bool-cases, List, [], ◌∷◌, length, contains, ◌==◌, nat_eq,
  list_eq, if◌then◌else◌, ◌≡◌, inl, inr, refl, arith,
}

-- Lists with few elements: what is contained often enough makes a list as long.
without :
    (x : Text) (m : List Text)
    → 0 < count x m
    → (rest : List Text) × (((n : Text) → count n m ≡ (if n == x then 1 else 0) + count n rest)
        × (length m ≡ suc (length rest)))
without x [] h = absurd (omega arith)
without x (y ∷ m) h = elim (Bool-cases (x == y)) [
  | inl e ↦ (m, (λ n. ground arith, refl))
  | inr e ↦
      let (rest, (same, long)) = without x m (ground arith) in
      (y ∷ rest, (λ n. ground (arith, same n), omega (arith, long)))
]

pub length-le_of_count :
    (l m : List Text) → ((n : Text) → count n l ≤ count n m) → length l ≤ length m
length-le_of_count [] m h = omega arith
length-le_of_count (x ∷ l) m h =
    let (rest, (same, long)) = without x m (ground (arith, h x)) in
    omega (arith, long, length-le_of_count l rest (λ n. ground (arith, h n, same n)))

pub length-names : (stages : List PipelineStage) → length (names stages) ≡ length stages
length-names [] = refl
length-names (s ∷ stages) = ground (arith, length-names stages)

-- A rank for each name, that of a dependency below that of the stage: there is no cycle.
abbrev pub Ranked : (Text → ℕ) → List PipelineStage → Type 0
Ranked rank [] = Unit
Ranked rank (s ∷ stages) =
    ((d : Text) → contains s.depends_on d ≡ true → rank d < rank s.name) × Ranked rank stages

abbrev pub Acyclic : List PipelineStage → Type 0
Acyclic stages = (rank : Text → ℕ) × Ranked rank stages

-- Every dependency is a name of `defined`.
abbrev pub AllDefined : List Text → List PipelineStage → Type 0
AllDefined defined [] = Unit
AllDefined defined (s ∷ stages) =
    ((d : Text) → contains s.depends_on d ≡ true → contains defined d ≡ true)
    × AllDefined defined stages

-- The same by name.
pub Ranked-at :
    (rank : Text → ℕ) (stages : List PipelineStage) (n d : Text)
    → Ranked rank stages
    → contains (deps_of stages n) d ≡ true
    → rank d < rank n
Ranked-at rank [] n d r m = cc
Ranked-at rank (s ∷ stages) n d r m = ground (arith, r.0 d, Ranked-at rank stages n d r.1)

pub AllDefined-at :
    (defined : List Text) (stages : List PipelineStage) (n d : Text)
    → AllDefined defined stages
    → contains (deps_of stages n) d ≡ true
    → contains defined d ≡ true
AllDefined-at defined [] n d r m = cc
AllDefined-at defined (s ∷ stages) n d r m =
    ground (arith, r.0 d, AllDefined-at defined stages n d r.1)

pub Ranked-of :
    (rank : Text → ℕ) (stages : List PipelineStage)
    → DistinctNames stages
    → ((n d : Text)
        → contains (names stages) n ≡ true
        → contains (deps_of stages n) d ≡ true
        → rank d < rank n)
    → Ranked rank stages
Ranked-of rank [] u h = tt
Ranked-of rank (s ∷ stages) u h = (
  λ d m. h s.name d (ground arith) (ground arith),
  Ranked-of rank stages u.1 (λ n d m k. h n d (ground arith) (ground arith)),
)

-- The place of a name, counted from the end.
abbrev pub place : List Text → Text → ℕ
place [] n = 0
place (x ∷ l) n = if n == x then suc (length l) else place l n

pub place-le : (l : List Text) (n : Text) → place l n ≤ length l
place-le [] n = omega arith
place-le (x ∷ l) n = ground (arith, place-le l n)
