-- ===== src/Controller/StageFrame/Outcomes.antt =====
-- The counter FilesProcessed over a reconcile of a stage: internal/controller/*_controller.go with
-- controllerutils/status.go and controllerutils/predicates.go.
use unstructured_data_contro.Env.{Env}
use unstructured_data_contro.FileStore.{FileStore, new}
use unstructured_data_contro.Controller.{
  Session, Kube, patched, status_patch, parent_pipeline_name_from_owner_reference,
}
use unstructured_data_contro.Controller.StageFrame.{
  Next, StageResource, Storage, patch, handle_error, or_handle, succeed, with_store, wait_and_run,
  loaded, reconcile,
}
use unstructured_data_contro.Prelude.{
  ℕ, Text, Bool, true, false, Option, none, some, [], Result, ok, err, Error, Io, ◌≡◌, refl, arith,
  ◌==◌, nat_eq, not, ◌⊎◌, inl, inr,
}

-- FilesProcessedChangedPredicate.Update: the stages behind are woken if the counter changes.
unfoldable pub wakes_dependents : ℕ → ℕ → Bool
wakes_dependents old_count new_count = not (old_count == new_count)

-- The methods of the resource that leave the counter alone.
pub record CountLaws {C S : Type 0} (res : StageResource C S) (files : S → ℕ) : Type 0 where
  pub set_waiting : (c : C) → files (res.status (res.set_waiting c)) ≡ files (res.status c)
  pub update_status :
      (m : Text) (e : Option Error) (c : C)
      → files (res.status (res.update_status m e c)) ≡ files (res.status c)

-- What a merge patch does: a field in which base and target agree is not sent.
pub record MergeLaws {W C S : Type 0} (kube : Kube W C S) (files : S → ℕ) : Type 0 where
  pub unsent :
      (base target server : S)
      → files target ≡ files base
      → files (kube.merge_patch base target server) ≡ files server

module _ (env : Env) {C S : Type 0} (res : StageResource C S) (kube : Kube env.World C S)
    (storage : Storage env.Handle) (files : S → ℕ) (counts : CountLaws res files)
    (merges : MergeLaws kube files) where
  abbrev State : Type 0
  State = Session env.World C S

  -- The last two requests before the world `ended` are patches of the status: the first of them is
  -- answered with an error, and has been applied all the same.
  pub record LatePatch (ended : env.World) : Type 0 where
    pub world : env.World
    pub error : Error
    pub failed : (kube.patch_status world).0 ≡ err error
    pub reached : kube.patch_reached world ≡ true
    pub last : (kube.patch_status (kube.patch_status world).1).1 ≡ ended

  -- A step that leaves the counter on the server alone if it fails, but for a late patch.
  abbrev pub FailsClean : {A : Type 0} → Io State A → Type 0
  FailsClean m =
      (s : State) (e : Error)
      → (m s).0 ≡ err e
      → (files (m s).1.server ≡ files s.server) ⊎ LatePatch (m s).1.world

  patch_keeps :
      (mutate : C → C)
      → ((c : C) → files (res.status (mutate c)) ≡ files (res.status c))
      → (s : State) → files (patch env res kube storage mutate s).1.server ≡ files s.server
  unfolding status_patch
  patch_keeps mutate same s = by_outcome (kube.patch_status s.world).0 (kube.patch_reached s.world)
    where
      sent :
          files (kube.merge_patch (res.status s.cr) (res.status (mutate s.cr)) s.server)
          ≡ files s.server
      sent = merges.unsent (res.status s.cr) (res.status (mutate s.cr)) s.server (same s.cr)

      by_outcome :
          (r : Result (Unit {0})) (reached : Bool)
          → files
              (patched kube.merge_patch (res.status s.cr) (res.status (mutate s.cr)) s r reached)
            ≡ files s.server
      by_outcome (ok _) reached = sent
      by_outcome (err e) true = sent
      by_outcome (err e) false = refl

  -- handleError never moves the counter.
  pub handle_error_keeps :
      (e : Error) (s : State)
      → files (handle_error env res kube storage e s).1.server ≡ files s.server
  unfolding handle_error
  handle_error_keeps e s =
      ground
        (arith, patch_keeps (res.update_status [] (some e)) (counts.update_status [] (some e)) s)

  handle_error_patches :
      (e : Error) (s : State)
      → (handle_error env res kube storage e s).1.world ≡ (kube.patch_status s.world).1
  unfolding handle_error status_patch
  handle_error_patches e s = by_patch (kube.patch_status s.world).0 refl
    where
      by_patch :
          (r : Result (Unit {0}))
          → (kube.patch_status s.world).0 ≡ r
          → (handle_error env res kube storage e s).1.world ≡ (kube.patch_status s.world).1
      by_patch (ok t) k = ground (arith, k)
      by_patch (err x) k = ground (arith, k)

  pub handle_error_clean : (e : Error) → FailsClean (handle_error env res kube storage e)
  handle_error_clean e s x h = inl (handle_error_keeps e s)

  pub or_handle_clean :
      {A : Type 0} (r : Result A) (next : A → Io State Next)
      → ((a : A) → FailsClean (next a))
      → FailsClean (or_handle env res kube storage r next)
  or_handle_clean (ok a) next clean = clean a
  or_handle_clean (err e) next clean = handle_error_clean e

  -- A last patch that fails has not moved the counter, or is late.
  pub succeed_clean :
      (m : Text) (n : ℕ) (more : C → C) (next : Next)
      → FailsClean (succeed env res kube storage m n more next)
  unfolding succeed status_patch
  succeed_clean m n more next s e h =
      by_outcome (kube.patch_status s.world).0 refl (kube.patch_reached s.world) refl
    where
      by_outcome :
          (r : Result (Unit {0}))
          → (kube.patch_status s.world).0 ≡ r
          → (reached : Bool) → kube.patch_reached s.world ≡ reached
          → (files (succeed env res kube storage m n more next s).1.server ≡ files s.server)
            ⊎ LatePatch (succeed env res kube storage m n more next s).1.world
      by_outcome (ok t) k reached b = absurd (ground (arith, k))
      by_outcome (err x) k true b = inr (record {
        world = s.world;
        error = x;
        failed = k;
        reached = b;
        last = ground (
          arith,
          k,
          handle_error_patches x
              (patch env res kube storage
                (λ c. res.update_status m none (more (res.add_files_processed n c))) s).1,
        );
      })
      by_outcome (err x) k false b = inl (
          ground (
            arith,
            k,
            b,
            handle_error_keeps x
                (patch env res kube storage
                  (λ c. res.update_status m none (more (res.add_files_processed n c))) s).1,
          ))

  module _ (body : Text → FileStore env → Io State Next)
      (clean : (pipeline : Text) (fs : FileStore env) → FailsClean (body pipeline fs)) where
    with_store_clean :
        (r : Result (FileStore env)) → FailsClean (with_store env res kube storage body r)
    with_store_clean (ok fs) s e h =
        or_handle_clean
          (parent_pipeline_name_from_owner_reference (res.namespace s.cr) (res.name s.cr)
            (res.owner_references s.cr))
          (λ pipeline. body pipeline fs) (λ pipeline. clean pipeline fs) s e h
    with_store_clean (err x) s e h = ground (arith, handle_error_clean (res.store_error x) s e)

    wait_and_run_clean : FailsClean (wait_and_run env res kube storage body)
    unfolding wait_and_run
    wait_and_run_clean s e h = by_patch (patch env res kube storage res.set_waiting s).0 refl
      where
        waiting : State
        waiting = (patch env res kube storage res.set_waiting s).1

        opened : Result (FileStore env) × env.World
        opened = new env storage.file_store_client storage.data_storage_directory waiting.world

        by_patch :
            (r : Result (Unit {0}))
            → (patch env res kube storage res.set_waiting s).0 ≡ r
            → (files (wait_and_run env res kube storage body s).1.server ≡ files s.server)
              ⊎ LatePatch (wait_and_run env res kube storage body s).1.world
        by_patch (err x) k = ground (arith, k, patch_keeps res.set_waiting counts.set_waiting s)
        by_patch (ok t) k = ground (
          arith,
          k,
          patch_keeps res.set_waiting counts.set_waiting s,
          with_store_clean opened.0 (record waiting { world = opened.1 }) e,
        )

    -- A reconcile that returns an error leaves the counter on the server as it was, but for a late
    -- patch, if the work of the stage does.
    pub reconcile_clean : FailsClean (reconcile env res kube storage body)
    unfolding reconcile
    reconcile_clean s e h = by_health (kube.is_config_healthy s.world).0 refl
      where
        asked : State
        asked = record s { world = (kube.is_config_healthy s.world).1 }

        got : Result C × env.World
        got = kube.get s.server asked.world

        by_get :
            (r : Result C)
            → got.0 ≡ r
            → (kube.is_config_healthy s.world).0 ≡ ok true
            → (files (reconcile env res kube storage body s).1.server ≡ files s.server)
              ⊎ LatePatch (reconcile env res kube storage body s).1.world
        by_get (err x) g k = ground (arith, g, k)
        by_get (ok c) g k = ground (
          arith,
          g,
          k,
          wait_and_run_clean (loaded env res kube storage body c (record asked { world = got.1 }))
              e,
        )

        by_health :
            (r : Result Bool)
            → (kube.is_config_healthy s.world).0 ≡ r
            → (files (reconcile env res kube storage body s).1.server ≡ files s.server)
              ⊎ LatePatch (reconcile env res kube storage body s).1.world
        by_health (err x) k = ground (arith, k)
        by_health (ok false) k = ground (arith, k)
        by_health (ok true) k = by_get got.0 refl k
