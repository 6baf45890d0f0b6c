-- ===== src/FileStore/Reads.antt =====
-- Exists, Retrieve and Delete of the file store, against what is on disk and in the bucket.
use unstructured_data_contro.GoPath.{dir}
use unstructured_data_contro.Env.{Env, View, Same, Laws}
use unstructured_data_contro.FileStore.{
  FileStore, file_exists_in_cache, file_exists_in_s3, exists, retrieve,
}
use unstructured_data_contro.FileStore.Contents
use unstructured_data_contro.FileStore.Contents.{
  file_exists_in_cache-Same, file_exists_in_cache-true, file_exists_in_cache-false,
  file_exists_in_s3-Same, file_exists_in_s3_lem,
}
use unstructured_data_contro.Prelude.{
  Text, true, false, Option, none, some, ok, ◌≡◌, ◌≢◌, ◌⊎◌, arith,
}

module _ (env : Env) (view : View env) (laws : Laws env view) (fs : FileStore env) where
  abbrev on_disk : env.World → Text → Option Text
  on_disk = Contents.on_disk env view laws fs

  abbrev in_s3 : env.World → Text → Option Text
  in_s3 = Contents.in_s3 env view laws fs

  abbrev local : Text → Text
  local = Contents.local env view laws fs

  abbrev after_stat : Text → env.World → env.World
  after_stat p w = (file_exists_in_cache env fs p w).1

  abbrev after_head : Text → env.World → env.World
  after_head p w = (file_exists_in_s3 env fs p (after_stat p w)).1

  abbrev after_get : Text → env.World → env.World
  after_get p w = (env.get_object fs.s3 p (after_head p w)).1

  abbrev after_mkdir : Text → env.World → env.World
  after_mkdir p w = (env.mkdir_all (dir (local p)) (after_get p w)).1

  -- Exists says true only of a file that is on disk or in the bucket, and false only of one that
  -- is in neither.
  pub exists_lem :
      (p : Text) (w : env.World)
      → ((exists env fs p w).0 ≡ ok true → (on_disk w p ≢ none) ⊎ (in_s3 w p ≢ none))
        × ((exists env fs p w).0 ≡ ok false → (on_disk w p ≡ none) × (in_s3 w p ≡ none))
  unfolding exists
  exists_lem p w = ground (
    arith,
    file_exists_in_cache-true env view laws fs p w,
    file_exists_in_cache-false env view laws fs p w,
    file_exists_in_s3_lem env view laws fs p (after_stat p w),
    (file_exists_in_cache-Same env view laws fs p w).object fs.s3 p,
  )

  -- Exists changes no file and no object.
  pub exists-Same : (p : Text) (w : env.World) → Same view w (exists env fs p w).1
  unfolding exists
  exists-Same p w = record {
    disk = λ q. ground (
      arith,
      (file_exists_in_cache-Same env view laws fs p w).disk q,
      (file_exists_in_s3-Same env view laws fs p (after_stat p w)).disk q,
    );
    object = λ h k. ground (
      arith,
      (file_exists_in_cache-Same env view laws fs p w).object h k,
      (file_exists_in_s3-Same env view laws fs p (after_stat p w)).object h k,
    );
  }

  -- A successful Retrieve returns the file on disk if there is one, and else the object; the file
  -- is on disk afterwards, and the object is as it was.
  pub retrieve_done :
      (p d : Text) (w : env.World)
      → (retrieve env fs p w).0 ≡ ok d
      → ((on_disk w p ≡ some d) ⊎ ((on_disk w p ≡ none) × (in_s3 w p ≡ some d)))
        × (on_disk (retrieve env fs p w).1 p ≡ some d)
        × (in_s3 (retrieve env fs p w).1 p ≡ in_s3 w p)
  unfolding retrieve
  retrieve_done p d w h = ground (
    arith,
    file_exists_in_cache-false env view laws fs p w,
    (file_exists_in_cache-Same env view laws fs p w).disk p,
    (file_exists_in_cache-Same env view laws fs p w).disk (local p),
    (file_exists_in_cache-Same env view laws fs p w).object fs.s3 p,
    laws.read_file_done (local p) d (after_stat p w),
    (laws.read_file-Same (local p) (after_stat p w)).disk (local p),
    (laws.read_file-Same (local p) (after_stat p w)).object fs.s3 p,
    (file_exists_in_s3-Same env view laws fs p (after_stat p w)).object fs.s3 p,
    laws.get_object_done fs.s3 p d (after_head p w),
    (laws.get_object-Same fs.s3 p (after_head p w)).object fs.s3 p,
    (laws.mkdir_all-Same (dir (local p)) (after_get p w)).object fs.s3 p,
    laws.write_file_done (local p) d (after_mkdir p w),
    (laws.write_file-OnlyFile (local p) d (after_mkdir p w)).object fs.s3 p,
  )

  -- Of a file on disk Retrieve, if it succeeds, returns the content and changes nothing.
  pub retrieve_cached :
      (p d x : Text) (w : env.World)
      → on_disk w p ≡ some d
      → (retrieve env fs p w).0 ≡ ok x
      → (x ≡ d) × ((q : Text) → on_disk (retrieve env fs p w).1 q ≡ on_disk w q)
  unfolding retrieve
  retrieve_cached p d x w e h = (
    ground (
      arith,
      file_exists_in_cache-false env view laws fs p w,
      (file_exists_in_cache-Same env view laws fs p w).disk (local p),
      laws.read_file_done (local p) x (after_stat p w),
    ),
    λ q. ground (
      arith,
      file_exists_in_cache-false env view laws fs p w,
      (file_exists_in_cache-Same env view laws fs p w).disk (local q),
      (laws.read_file-Same (local p) (after_stat p w)).disk (local q),
    ),
  )
