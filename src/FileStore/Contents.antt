-- ===== src/FileStore/Contents.antt =====
-- What the operations of the file store leave on disk and in the bucket.
use unstructured_data_contro.GoPath.{clean, dir}
use unstructured_data_contro.Env.{Env, View, Same, Laws}
use unstructured_data_contro.FileStore.{
  FileStore, local_path, make_parent, store, file_exists_in_cache, file_exists_in_s3, cached, found,
}
use unstructured_data_contro.Prelude.{
  Text, Result, Bool, true, false, Option, none, some, [], ok, err, ◌≡◌, ◌≢◌, inl, inr, refl, arith,
  Bool-cases, ◌==◌, nat_eq, list_eq,
}

module _ (env : Env) (view : View env) (laws : Laws env view) (fs : FileStore env) where
  abbrev pub on_disk : env.World → Text → Option Text
  on_disk w p = view.disk w (local_path env fs p)

  abbrev pub in_s3 : env.World → Text → Option Text
  in_s3 w p = view.object w fs.s3 p

  pub make_parent-Same : (p : Text) (w : env.World) → Same view w (make_parent env fs p w).1
  unfolding make_parent
  make_parent-Same p w = elim (Bool-cases (dir p == [])) [
    | inl e ↦ rw e (record { disk = λ q. refl; object = λ h k. refl })
    | inr e ↦ rw e (laws.mkdir_all-Same (dir p) w)
  ]

  -- The worlds that Store goes through.
  abbrev pub after_parent : Text → env.World → env.World
  after_parent p w = (make_parent env fs (local_path env fs p) w).1

  abbrev pub after_write : Text → Text → env.World → env.World
  after_write p d w = (env.write_file (local_path env fs p) d (after_parent p w)).1

  abbrev pub after_put : Text → Text → env.World → env.World
  after_put p d w = (env.put_object fs.s3 p d (after_write p d w)).1

  -- After a successful Store the file is on disk and in the bucket, with the data that was given.
  pub store_done :
      (p d : Text) (w : env.World)
      → (store env fs p d w).0 ≡ ok tt
      → (on_disk (store env fs p d w).1 p ≡ some d) × (in_s3 (store env fs p d w).1 p ≡ some d)
  unfolding store
  store_done p d w h = ground (
    arith,
    laws.write_file_done (local_path env fs p) d (after_parent p w),
    laws.put_object_done fs.s3 p d (after_write p d w),
    (laws.put_object-OnlyObject fs.s3 p d (after_write p d w)).disk (local_path env fs p),
  )

  abbrev pub local : Text → Text
  local p = local_path env fs p

  -- Whatever Store returns, it leaves every file at another local path, cleaned, as it was.
  pub store_frame_disk :
      (p d q : Text) (w : env.World)
      → clean (local q) ≢ clean (local p)
      → on_disk (store env fs p d w).1 q ≡ on_disk w q
  unfolding store
  store_frame_disk p d q w apart = ground (
    arith,
    (make_parent-Same (local p) w).disk (local q),
    (laws.write_file-OnlyFile (local p) d (after_parent p w)).disk (local q) apart,
    (laws.put_object-OnlyObject fs.s3 p d (after_write p d w)).disk (local q),
    (laws.remove-OnlyFile (local p) (after_put p d w)).disk (local q) apart,
  )

  -- Whatever Store returns, it leaves every object of the bucket under another key as it was.
  pub store_frame :
      (p d q : Text) (w : env.World) → q ≢ p → in_s3 (store env fs p d w).1 q ≡ in_s3 w q
  unfolding store
  store_frame p d q w ne = ground (
    arith,
    (make_parent-Same (local p) w).object fs.s3 q,
    (laws.write_file-OnlyFile (local p) d (after_parent p w)).object fs.s3 q,
    (laws.put_object-OnlyObject fs.s3 p d (after_write p d w)).object q ne,
    (laws.remove-OnlyFile (local p) (after_put p d w)).object fs.s3 q,
  )

  pub file_exists_in_cache-Same :
      (p : Text) (w : env.World) → Same view w (file_exists_in_cache env fs p w).1
  unfolding file_exists_in_cache
  file_exists_in_cache-Same p w = record {
    disk = λ q. ground (arith, (laws.stat-Same (local p) w).disk q);
    object = λ h k. ground (arith, (laws.stat-Same (local p) w).object h k);
  }

  pub file_exists_in_cache-true :
      (p : Text) (w : env.World)
      → (file_exists_in_cache env fs p w).0 ≡ ok true
      → on_disk w p ≢ none
  unfolding file_exists_in_cache
  file_exists_in_cache-true p w h = ground (arith, laws.stat_file (local p) w)

  pub file_exists_in_cache-false :
      (p : Text) (w : env.World)
      → (file_exists_in_cache env fs p w).0 ≡ ok false
      → on_disk w p ≡ none
  unfolding file_exists_in_cache
  file_exists_in_cache-false p w h = absent (env.stat (local p) w).0 refl h
    where
      absent :
          (r : Result Bool)
          → (env.stat (local p) w).0 ≡ r
          → (cached env fs (local p) r (env.stat (local p) w).1).0 ≡ ok false
          → on_disk w p ≡ none
      absent (ok true) e k = cc
      absent (ok false) e k = cc
      absent (err x) e k = ground (arith, laws.stat_absent (local p) x w)

  pub file_exists_in_s3-Same :
      (p : Text) (w : env.World) → Same view w (file_exists_in_s3 env fs p w).1
  unfolding file_exists_in_s3
  file_exists_in_s3-Same p w = record {
    disk = λ q. ground (arith, (laws.head_object-Same fs.s3 p w).disk q);
    object = λ h k. ground (arith, (laws.head_object-Same fs.s3 p w).object h k);
  }

  pub file_exists_in_s3_lem :
      (p : Text) (w : env.World)
      → ((file_exists_in_s3 env fs p w).0 ≡ ok true → in_s3 w p ≢ none)
        × ((file_exists_in_s3 env fs p w).0 ≡ ok false → in_s3 w p ≡ none)
  unfolding file_exists_in_s3
  file_exists_in_s3_lem p w = of (env.head_object fs.s3 p w).0 refl
    where
      of :
          (r : Result (Option Text))
          → (env.head_object fs.s3 p w).0 ≡ r
          → ((found env r (env.head_object fs.s3 p w).1).0 ≡ ok true → in_s3 w p ≢ none)
            × ((found env r (env.head_object fs.s3 p w).1).0 ≡ ok false → in_s3 w p ≡ none)
      of (ok c) e = (λ _. laws.head_object_found fs.s3 p c w e, λ k. cc)
      of (err x) e = ground (arith, laws.head_object_absent fs.s3 p x w)
