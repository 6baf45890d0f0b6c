-- ===== src/Api/Stages/Invariant.antt =====
-- The invariant of the rounds of `detectCycles` of api/v1alpha1/stages_utils.go.
use unstructured_data_contro.Api.Stages.{
  PipelineStage, names, release, ready_stages, process, start_pending, start_downstream,
}
use unstructured_data_contro.Api.Stages.Release.{
  count, contains_of_count, deps_of, DistinctNames, deps_of_absent, count-names, start_pending_lem,
  count-downstream, pending-release, count-release, count-ready_stages,
}
use unstructured_data_contro.Prelude.{
  ℕ, zero, suc, ◌+◌, ℤ, pos, Text, true, false, some, List, [], ◌∷◌, length, contains, ◌==◌, ◌&&◌,
  nat_eq, list_eq, if◌then◌else◌, ◌≡◌, refl, arith, sym, subst,
}

-- The dependencies that are not done, each as often as it is listed.
abbrev pub missing : List Text → List Text → ℕ
missing done [] = 0
missing done (d ∷ deps) = (if contains done d then 0 else 1) + missing done deps

missing-nil : (deps : List Text) → missing [] deps ≡ length deps
missing-nil [] = refl
missing-nil (d ∷ deps) = ground (arith, missing-nil deps)

missing-cons :
    (x : Text) (done deps : List Text)
    → contains done x ≡ false
    → missing (x ∷ done) deps + count x deps ≡ missing done deps
missing-cons x done [] h = omega arith
missing-cons x done (d ∷ deps) h = ground (arith, missing-cons x done deps h)

pub missing_none :
    (done deps : List Text) (d : Text)
    → missing done deps ≡ 0
    → contains deps d ≡ true
    → contains done d ≡ true
missing_none done [] d h m = cc
missing_none done (e ∷ deps) d h m = ground (arith, missing_none done deps d)

pub missing_of_all :
    (done deps : List Text)
    → ((d : Text) → contains deps d ≡ true → contains done d ≡ true)
    → missing done deps ≡ 0
missing_of_all done [] h = refl
missing_of_all done (e ∷ deps) h =
    ground (arith, h e, missing_of_all done deps (λ d m. h d (ground arith)))

module _ (stages : List PipelineStage) where
  abbrev pub waits : List Text → Text → ℕ
  waits done n = missing done (deps_of stages n)

  -- The stages that are done, newest first: each once, behind all of its dependencies.
  abbrev pub Ordered : List Text → Type 0
  Ordered [] = Unit
  Ordered (x ∷ done) = (contains done x ≡ false) × ((waits done x ≡ 0) × Ordered done)

  pub record Inv (done : List Text) (p : Text → ℤ) (ready : List Text) : Type 0 where
    pub left : (n : Text) → p n ≡ pos (waits done n)
    pub once :
        (n : Text)
        → count n done + count n ready
          ≡ (if contains (names stages) n && waits done n == 0 then 1 else 0)
    pub ordered : Ordered done

  module _ (distinct : DistinctNames stages) where
    abbrev downstream : Text → List Text
    downstream = start_downstream stages

    pub Inv-start : Inv [] (start_pending stages) (ready_stages (start_pending stages) stages)
    Inv-start = record {
      left =
          λ n. ground (arith, start_pending_lem stages n distinct, missing-nil (deps_of stages n));
      once = λ n. ground (
        arith,
        start_pending_lem stages n distinct,
        missing-nil (deps_of stages n),
        count-ready_stages stages (start_pending stages) n,
        count-names stages n distinct,
      );
      ordered = tt;
    }

    -- The stage at the head of the queue is new, and all of its dependencies are done.
    head_lem :
        (x : Text) (done ready : List Text) (p : Text → ℤ)
        → Inv done p (x ∷ ready)
        → (contains done x ≡ false) × (waits done x ≡ 0)
    head_lem x done ready p i = ground (arith, i.once x, contains_of_count x done)

    Inv-release :
        (x : Text) (done ready : List Text) (p : Text → ℤ)
        → Inv done p (x ∷ ready)
        → Inv (x ∷ done) (release (downstream x) p ready).0 (release (downstream x) p ready).1
    Inv-release x done ready p i =
        let (new, clear) = head_lem x done ready p i in
        record {
          left = λ n. ground (
            arith,
            i.left n,
            missing-cons x done (deps_of stages n) new,
            count-downstream stages x n distinct,
            pending-release (downstream x) p ready n (waits done n) (i.left n),
          );
          once = λ n. ground (
            arith,
            i.once n,
            missing-cons x done (deps_of stages n) new,
            count-downstream stages x n distinct,
            deps_of_absent stages n,
            count-release (downstream x) p ready n (waits done n) (i.left n),
          );
          ordered = (new, (clear, i.ordered));
        }

    ended :
        (p : Text → ℤ) (done : List Text) (k : ℕ) (q : Text → ℤ)
        → Inv done p []
        → (length done ≡ k) × (p ≡ q)
        → (last : List Text) × (Inv last q [] × (k ≡ length last))
    ended p done k q i e = (done, (subst (λ (f : Text → ℤ). Inv done f []) e.1 i, sym e.0))

    -- At the end of the rounds.
    pub process-Inv :
        (fuel : ℕ) (p : Text → ℤ) (ready done : List Text) (k : ℕ) (q : Text → ℤ)
        → Inv done p ready
        → process downstream fuel p ready (length done) ≡ some (k, q)
        → (last : List Text) × (Inv last q [] × (k ≡ length last))
    unfolding process
    process-Inv zero p [] done k q i h = ended p done k q i (cc, cc)
    process-Inv (suc fuel) p [] done k q i h = ended p done k q i (cc, cc)
    process-Inv zero p (x ∷ ready) done k q i h = cc
    process-Inv (suc fuel) p (x ∷ ready) done k q i h =
        process-Inv fuel (release (downstream x) p ready).0 (release (downstream x) p ready).1
          (x ∷ done) k q (Inv-release x done ready p i) h
