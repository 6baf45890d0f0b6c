-- ===== src/FileStore/Coherence.antt =====
-- Coherence of the cache of pkg/filestore/filestore.go with the bucket, under Store, Retrieve and
-- Delete.
use unstructured_data_contro.GoPath.{clean}
use unstructured_data_contro.Env.{Env, View, Laws}
use unstructured_data_contro.FileStore.{FileStore, exists, retrieve, store, removed, delete}
use unstructured_data_contro.FileStore.Contents
use unstructured_data_contro.FileStore.Contents.{store_done}
use unstructured_data_contro.FileStore.Reads.{exists_lem, retrieve_done}
use unstructured_data_contro.Prelude.{
  Text, Result, true, Option, none, some, ok, err, ◌≡◌, ◌≢◌, inl, inr, refl, arith,
}

module _ (env : Env) (view : View env) (laws : Laws env view) (fs : FileStore env) where
  abbrev on_disk : env.World → Text → Option Text
  on_disk = Contents.on_disk env view laws fs

  abbrev in_s3 : env.World → Text → Option Text
  in_s3 = Contents.in_s3 env view laws fs

  abbrev local : Text → Text
  local = Contents.local env view laws fs

  abbrev after_remove : Text → env.World → env.World
  after_remove p w = (env.remove (local p) w).1

  abbrev pub Coherent : env.World → Text → Type 0
  Coherent w p = (d : Text) → on_disk w p ≡ some d → in_s3 w p ≡ some d

  -- What Store has stored, a Retrieve right after it returns, if it succeeds.
  pub retrieve-store :
      (p d x : Text) (w : env.World)
      → (store env fs p d w).0 ≡ ok tt
      → (retrieve env fs p (store env fs p d w).1).0 ≡ ok x
      → x ≡ d
  retrieve-store p d x w h k = ground (
    arith,
    store_done env view laws fs p d w h,
    retrieve_done env view laws fs p x (store env fs p d w).1 k,
  )

  -- Of a coherent file a successful Retrieve returns the object in the bucket, cached or not, and
  -- the file stays coherent.
  pub retrieve-Coherent :
      (p d : Text) (w : env.World)
      → Coherent w p
      → (retrieve env fs p w).0 ≡ ok d
      → (in_s3 w p ≡ some d) × Coherent (retrieve env fs p w).1 p
  retrieve-Coherent p d w c h =
      let fact = retrieve_done env view laws fs p d w h in
      let held : in_s3 w p ≡ some d = elim fact.0 [ inl e ↦ c d e | inr e ↦ e.1 ] in
      (held, λ x e. ground (arith, fact.1, fact.2))

  -- Where os.Remove succeeds, or fails because there is no file, the file is gone.
  removed_done :
      (p : Text) (w : env.World)
      → (removed env fs (env.remove (local p) w).0 (after_remove p w)).0 ≡ ok tt
      → view.disk (after_remove p w) (local p) ≡ none
  removed_done p w = by_result (env.remove (local p) w).0 refl
    where
      by_result :
          (r : Result (Unit {0}))
          → (env.remove (local p) w).0 ≡ r
          → (removed env fs r (after_remove p w)).0 ≡ ok tt
          → view.disk (after_remove p w) (local p) ≡ none
      by_result (ok t) e h = laws.remove_done (local p) w e
      by_result (err x) e h = ground (arith, laws.remove_absent (local p) x w)

  -- After a successful Delete the file is neither on disk nor in the bucket.
  pub delete_done :
      (p : Text) (w : env.World)
      → (delete env fs p w).0 ≡ ok tt
      → (on_disk (delete env fs p w).1 p ≡ none) × (in_s3 (delete env fs p w).1 p ≡ none)
  unfolding delete
  delete_done p w h = ground (
    arith,
    removed_done p w,
    laws.delete_object_done fs.s3 p (after_remove p w),
    (laws.delete_object-OnlyObject fs.s3 p (after_remove p w)).disk (local p),
  )

  -- After a successful Delete, Exists does not find the file.
  pub exists-delete :
      (p : Text) (w : env.World)
      → (delete env fs p w).0 ≡ ok tt
      → (exists env fs p (delete env fs p w).1).0 ≢ ok true
  exists-delete p w h k =
      ground (arith, delete_done p w h, exists_lem env view laws fs p (delete env fs p w).1)

  -- Delete keeps a file coherent, whether it succeeds or fails and at whichever call.
  pub delete-Coherent : (p : Text) (w : env.World) → Coherent w p → Coherent (delete env fs p w).1 p
  unfolding delete
  delete-Coherent p w c d = ground (
    arith,
    c d,
    removed_done p w,
    laws.remove_or_kept (local p) w,
    (laws.remove-OnlyFile (local p) w).object fs.s3 p,
    (laws.delete_object-OnlyObject fs.s3 p (after_remove p w)).disk (local p),
  )

  -- Store keeps a coherent file coherent, also when the upload fails, provided that the local write
  -- and the removal of the local file work.
  pub store-Coherent :
      (p d : Text) (w : env.World)
      → Coherent w p
      → (env.write_file (local p) d (Contents.after_parent env view laws fs p w)).0 ≡ ok tt
      → (env.remove (local p) (Contents.after_put env view laws fs p d w)).0 ≡ ok tt
      → Coherent (store env fs p d w).1 p
  unfolding store
  store-Coherent p d w c written removes x = ground (
    arith,
    c x,
    (Contents.make_parent-Same env view laws fs (local p) w).disk (local p),
    (Contents.make_parent-Same env view laws fs (local p) w).object fs.s3 p,
    store_done env view laws fs p d w,
    laws.remove_done (local p) (Contents.after_put env view laws fs p d w),
  )

  -- Store of one file keeps a file at another path and another local path coherent.
  pub store-Coherent_other :
      (p d q : Text) (w : env.World)
      → clean (local q) ≢ clean (local p)
      → q ≢ p
      → Coherent w q
      → Coherent (store env fs p d w).1 q
  store-Coherent_other p d q w apart ne c x = ground (
    arith,
    Contents.store_frame_disk env view laws fs p d q w apart,
    Contents.store_frame env view laws fs p d q w ne,
    c x,
  )
