-- ===== src/Controller.antt =====
-- internal/controller: what the reconcilers of the stages share (controllerutils/status.go,
-- controllerutils/secret_helpers.go, config_utils.go and the `findDependents` of each).
pub mod Wire
pub mod StageFrame
pub mod ChunksGenerator
pub mod VectorEmbeddings
pub mod Pipeline
pub mod Secrets
pub mod DestinationSyncer
pub mod SourceCrawler
pub mod DocumentProcessor
mod Tests
use unstructured_data_contro.Api.DocumentProcessor.{OwnerReference}
use unstructured_data_contro.Prelude.{
  ℕ, Text, codes, Bool, true, false, Option, none, some, List, [], ◌∷◌, ◌++◌, ◌==◌, ◌||◌, nat_eq,
  list_eq, contains, contains_text, if◌then◌else◌, Result, ok, err, Error, new_error, Io, pure,
  raise, attempt, ◌>>=◌, ◌>>◌,
}

-- A reconcile of a resource `C` with status `S`: the object in memory, which the code mutates in
-- place, the status that the API server holds, and the rest of the world.
pub record Session (W C S : Type 0) : Type 0 where
  pub cr : C
  pub server : S
  pub world : W

-- The API server. `patch_status` is the outcome of a patch request, and `patch_reached` whether a
-- request that is answered with an error (a timeout, say) has been applied all the same. A merge
-- patch carries what differs between a base and a target, and `merge_patch base target server` is
-- what the server holds once it has been applied.
pub record Kube (W C S : Type 0) : Type 0 where
  -- whether the ControllerConfig resource is there and healthy: IsConfigCRHealthy
  pub is_config_healthy : Io W Bool
  -- r.Get: the object, whose status is what the server holds
  pub get : S → Io W C
  pub patch_status : Io W (Unit {0})
  pub patch_reached : W → Bool
  pub merge_patch : S → S → S → S
  -- time.Now().Format(time.RFC3339)
  pub now : Io W Text

module _ {W C S : Type 0} where
  abbrev pub lift : {A : Type 0} → Io W A → Io (Session W C S) A
  lift m s = let (r, w) = m s.world in (r, record s { world = w })

  abbrev pub patched : (S → S → S → S) → S → S → Session W C S → Result (Unit {0}) → Bool → S
  patched merge base target s (ok _) reached = merge base target s.server
  patched merge base target s (err e) true = merge base target s.server
  patched merge base target s (err e) false = s.server

  -- The mutation of the object in memory stays, also if the patch fails.
  unfoldable pub status_patch : Kube W C S → (C → S) → (C → C) → Io (Session W C S) (Unit {0})
  status_patch kube status_of mutate s =
      let target = mutate s.cr in
      let (r, w) = kube.patch_status s.world in
      (
        r,
        record {
          cr = target;
          server =
              patched kube.merge_patch (status_of s.cr) (status_of target) s r
                (kube.patch_reached s.world);
          world = w;
        },
      )

-- The name of the pipeline, from the owner reference that is the controller.
unfoldable pub parent_pipeline_name_from_owner_reference :
    Text → Text → List OwnerReference → Result Text
parent_pipeline_name_from_owner_reference namespace name [] =
    err (
      new_error (codes "no controller owner reference found on " ++ namespace ++ codes "/" ++ name))
parent_pipeline_name_from_owner_reference namespace name (ref ∷ refs) =
    if ref.is_controller
    then ok ref.name
    else parent_pipeline_name_from_owner_reference namespace name refs

unfoldable pub is_aws_client_not_initialized_error : Error → Bool
is_aws_client_not_initialized_error e =
    contains_text e.message (codes "S3 client not initialized yet")
    || contains_text e.message (codes "SQS client not initialized yet")
    || contains_text e.message (codes "presign client not initialized yet")

-- What `findDependents` reads of a stage resource.
pub record Stage : Type 0 where
  pub name : Text
  pub namespace : Text
  pub owner_references : List OwnerReference
  pub depends_on : List Text

abbrev depends_on_changed : Text → Text → List Text → Bool
depends_on_changed pipeline changed [] = false
depends_on_changed pipeline changed (dep ∷ deps) =
    (pipeline ++ codes "-" ++ dep) == changed || depends_on_changed pipeline changed deps

abbrev is_dependent : Text → Stage → Bool
is_dependent changed item =
    elim (parent_pipeline_name_from_owner_reference item.namespace item.name
      item.owner_references) [
        | err e ↦ false
        | ok pipeline ↦ depends_on_changed pipeline changed item.depends_on
      ]

-- The stages to reconcile when the resource `changed` changes; none if listing them fails.
unfoldable pub find_dependents : Text → Result (List Stage) → List (Text × Text)
find_dependents changed (err e) = []
find_dependents changed (ok []) = []
find_dependents changed (ok (item ∷ items)) =
    let rest = find_dependents changed (ok items) in
    if is_dependent changed item then (item.name, item.namespace) ∷ rest else rest
