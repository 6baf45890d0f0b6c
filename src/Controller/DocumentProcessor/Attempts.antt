-- ===== src/Controller/DocumentProcessor/Attempts.antt =====
-- The attempt counts of the jobs and the files that are given up, in
-- internal/controller/documentprocessor_controller.go: what a status patch does to them.
pub mod Steps
pub mod Runs
pub mod Rounds
use unstructured_data_contro.Api.DocumentProcessor.{
  Job, DocumentProcessor, DocumentProcessorStatus, put_job, drop_jobs,
}
use unstructured_data_contro.Controller.{Session, Kube, patched, status_patch, lift}
use unstructured_data_contro.Prelude.{
  Bool, true, false, ℕ, Text, Option, none, some, List, [], ◌∷◌, ◌==◌, nat_eq, list_eq, Result, ok,
  err, Io, Keeps, ◌≡◌, ◌⊎◌, inl, inr, arith, refl, if◌then◌else◌, sym, subst,
}

-- Every job is a first attempt.
abbrev pub AllFirst : List Job → Type 0
AllFirst [] = Unit
AllFirst (job ∷ jobs) = (job.attempts ≡ 1) × AllFirst jobs

-- No job counts a second attempt, and no file is given up.
pub record Untried (st : DocumentProcessorStatus) : Type 0 where
  pub first : AllFirst st.jobs
  pub none_failing : st.permanently_failing_files ≡ []

-- What the reconciler relies on: a merge patch replaces a list as a whole, or leaves it alone.
pub record MergeLaws {W : Type 0} (kube : Kube W DocumentProcessor DocumentProcessorStatus)
    : Type 0 where
  pub jobs :
      (base target server : DocumentProcessorStatus)
      → ((kube.merge_patch base target server).jobs ≡ target.jobs)
        ⊎ ((kube.merge_patch base target server).jobs ≡ server.jobs)
  pub failing :
      (base target server : DocumentProcessorStatus)
      → ((kube.merge_patch base target server).permanently_failing_files
          ≡ target.permanently_failing_files)
        ⊎ ((kube.merge_patch base target server).permanently_failing_files
            ≡ server.permanently_failing_files)

pub put_job-AllFirst :
    (job : Job) (jobs : List Job) → job.attempts ≡ 1 → AllFirst jobs → AllFirst (put_job job jobs)
unfolding put_job
put_job-AllFirst job [] h a = (h, tt)
put_job-AllFirst job (j ∷ jobs) h a = ground (arith, put_job-AllFirst job jobs h a.1)

pub drop_jobs-AllFirst : (p : Text) (jobs : List Job) → AllFirst jobs → AllFirst (drop_jobs p jobs)
unfolding drop_jobs
drop_jobs-AllFirst p [] a = tt
drop_jobs-AllFirst p (j ∷ jobs) a = ground (arith, drop_jobs-AllFirst p jobs a.1)

module _ {W : Type 0} (kube : Kube W DocumentProcessor DocumentProcessorStatus)
    (merges : MergeLaws kube) where
  abbrev State : Type 0
  State = Session W DocumentProcessor DocumentProcessorStatus

  -- In memory and on the server.
  pub record Good (s : State) : Type 0 where
    pub memory : Untried s.cr.status
    pub server : Untried s.server

  merge-Untried :
      (base target server : DocumentProcessorStatus)
      → Untried target
      → Untried server
      → Untried (kube.merge_patch base target server)
  merge-Untried base target server t v = record {
    first = elim (merges.jobs base target server) [
      | inl e ↦ subst AllFirst (sym e) t.first
      | inr e ↦ subst AllFirst (sym e) v.first
    ];
    none_failing =
        ground (arith, merges.failing base target server, t.none_failing, v.none_failing);
  }

  pub patch_at-Good :
      (mutate : DocumentProcessor → DocumentProcessor) (s : State)
      → (Untried s.cr.status → Untried (mutate s.cr).status)
      → Good s
      → Good (status_patch kube (λ (d : DocumentProcessor). d.status) mutate s).1
  unfolding status_patch
  patch_at-Good mutate s keep g = record {
    memory = keep g.memory;
    server = by_outcome (kube.patch_status s.world).0 (kube.patch_reached s.world);
  }
    where
      sent : Untried (kube.merge_patch s.cr.status (mutate s.cr).status s.server)
      sent = merge-Untried s.cr.status (mutate s.cr).status s.server (keep g.memory) g.server

      by_outcome :
          (r : Result (Unit {0})) (reached : Bool)
          → Untried (patched kube.merge_patch s.cr.status (mutate s.cr).status s r reached)
      by_outcome (ok _) reached = sent
      by_outcome (err e) true = sent
      by_outcome (err e) false = g.server

  pub patch-Good :
      (mutate : DocumentProcessor → DocumentProcessor)
      → ((d : DocumentProcessor) → Untried d.status → Untried (mutate d).status)
      → Keeps Good (status_patch kube (λ (d : DocumentProcessor). d.status) mutate)
  patch-Good mutate keep s g = patch_at-Good mutate s (keep s.cr) g

  pub lift-Good : {A : Type 0} (m : Io W A) → Keeps Good (lift m)
  lift-Good m s g = record { memory = g.memory; server = g.server }
