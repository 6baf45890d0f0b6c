-- ===== src/FileStore.antt =====
-- pkg/filestore/filestore.go, with ObjectExists, ListObjectsInPrefix and GetPresignedURL of
-- pkg/awsclienthandler/s3_client.go: files kept in an S3 bucket, with a cache in a local directory.
pub mod Contents
pub mod Reads
pub mod Coherence
mod Tests
use unstructured_data_contro.GoPath.{join, dir}
use unstructured_data_contro.Env.{Env, Object}
use unstructured_data_contro.Prelude.{
  ℕ, Text, codes, Bool, true, false, Option, none, some, List, [], ◌∷◌, ◌++◌, map, leb, ◌==◌,
  if◌then◌else◌, Result, ok, err, is_not_exist, is_not_found, is_missing, new_error, wrap, Io, pure,
  raise, attempt, ◌>>=◌, ◌>>◌, nat_eq, list_eq,
}

pub record FileStore (env : Env) : Type 0 where
  pub root : Text
  pub s3 : env.Handle

-- cmp.Compare of aws.ToInt64(a.Size): a missing size counts as 0
abbrev size_or_zero : Object → ℕ
size_or_zero o = elim o.size [ none ↦ 0 | some n ↦ n ]

insert_by_size : Object → List Object → List Object
insert_by_size o [] = o ∷ []
insert_by_size o (x ∷ xs) =
    if leb (size_or_zero o) (size_or_zero x) then o ∷ x ∷ xs else x ∷ insert_by_size o xs

-- slices.SortStableFunc by size
unfoldable pub sort_by_size : List Object → List Object
unfolding insert_by_size
sort_by_size [] = []
sort_by_size (o ∷ os) = insert_by_size o (sort_by_size os)

-- The loop of ListObjectsInPrefix over the pages.
unfoldable pub append_pages : List Object → List (Result (List Object)) → Result (List Object)
append_pages objects [] = ok objects
append_pages objects (ok page ∷ pages) = append_pages (objects ++ page) pages
append_pages objects (err e ∷ pages) = err e

module _ (env : Env) where
  open env use {World, Handle}

  unfoldable pub list_objects_in_prefix : Handle → Text → Io World (List Object)
  unfolding append_pages
  list_objects_in_prefix h prefix w =
      let (pages, w') = env.list_pages h prefix w in (append_pages [] pages, w')

  -- err == nil, or the two errors that mean absence
  abbrev found : Result (Option Text) → Io World Bool
  found (ok _) = pure true
  found (err e) = if is_missing e then pure false else raise e

  unfoldable pub object_exists : Handle → Text → Io World Bool
  object_exists h key = do r ← attempt (env.head_object h key); found r

  unfoldable pub presigned_url : Handle → Text → Io World Text
  presigned_url h key = env.presign h key 60

  -- The client that the controller has set up, if it has: GetFileStoreS3Client.
  unfoldable pub get_file_store_s3_client : Option Handle → Io World Handle
  get_file_store_s3_client none =
      raise (new_error (codes "file store S3 client not initialized yet"))
  get_file_store_s3_client (some h) = pure h

  unfoldable pub new : Option Handle → Text → Io World (FileStore env)
  unfolding get_file_store_s3_client
  new client root = do
    made ← attempt (env.mkdir_all root)
    elim made [
      | err e ↦ raise (wrap (codes "failed to create cache directory " ++ root ++ codes ": ") e)
      | ok _ ↦ do h ← get_file_store_s3_client client; pure (record { root = root; s3 = h })
    ]

module _ (env : Env) (fs : FileStore env) where
  open env use {World, Handle}

  unfoldable pub local_path : Text → Text
  local_path path = join (fs.root ∷ path ∷ [])

  -- What becomes of a file whose upload ended with `uploaded`.
  abbrev keep_or_remove : Text → Result (Unit {0}) → Io World (Unit {0})
  keep_or_remove local (ok _) = pure tt
  keep_or_remove local (err e) = do env.remove local; raise e

  -- The directory is made unless it is the empty path.
  unfoldable pub make_parent : Text → Io World (Unit {0})
  make_parent local = if dir local == [] then pure tt else env.mkdir_all (dir local)

  unfoldable pub store : Text → Text → Io World (Unit {0})
  store path bytes = do
    make_parent (local_path path)
    env.write_file (local_path path) bytes
    uploaded ← attempt (env.put_object fs.s3 path bytes)
    keep_or_remove (local_path path) uploaded

  abbrev cached : Text → Result Bool → Io World Bool
  cached local (ok false) = pure true
  cached local (ok true) = raise (new_error (codes "path is a directory: " ++ local))
  cached local (err e) = if is_not_exist e then pure false else raise e

  unfoldable pub file_exists_in_cache : Text → Io World Bool
  file_exists_in_cache path = do
    info ← attempt (env.stat (local_path path))
    cached (local_path path) info

  unfoldable pub file_exists_in_s3 : Text → Io World Bool
  unfolding object_exists
  file_exists_in_s3 path = object_exists env fs.s3 path

  unfoldable pub exists : Text → Io World Bool
  unfolding file_exists_in_cache file_exists_in_s3
  exists path = do
    here ← file_exists_in_cache path
    elim here [ true ↦ pure true | false ↦ file_exists_in_s3 path ]

  abbrev fetch : Text → Bool → Io World Text
  fetch path false = raise (new_error (codes "file does not exist: " ++ local_path path))
  fetch path true = do
    bytes ← env.get_object fs.s3 path
    env.mkdir_all (dir (local_path path))
    env.write_file (local_path path) bytes
    pure bytes

  unfoldable pub retrieve : Text → Io World Text
  unfolding file_exists_in_cache file_exists_in_s3
  retrieve path = do
    here ← file_exists_in_cache path
    elim here [
      | true ↦ env.read_file (local_path path)
      | false ↦ do there ← file_exists_in_s3 path; fetch path there
    ]

  unfoldable pub get_file_url : Text → Io World Text
  unfolding presigned_url
  get_file_url path = presigned_url env fs.s3 path

  -- os.Remove: that the file is not there is no error.
  abbrev removed : Result (Unit {0}) → Io World (Unit {0})
  removed (ok _) = pure tt
  removed (err e) = if is_not_exist e then pure tt else raise e

  abbrev deleted : Text → Result (Unit {0}) → Io World (Unit {0})
  deleted local (ok _) = pure tt
  deleted local (err e) =
      if is_not_found e then raise (new_error (codes "file does not exist: " ++ local)) else raise e

  unfoldable pub delete : Text → Io World (Unit {0})
  delete path = do
    gone ← attempt (env.remove (local_path path))
    removed gone
    result ← attempt (env.delete_object fs.s3 path)
    deleted (local_path path) result

  unfoldable pub list_files_in_path : Text → Io World (List Text)
  unfolding list_objects_in_prefix sort_by_size
  list_files_in_path path = do
    objects ← list_objects_in_prefix env fs.s3 path
    pure (map (λ (o : Object). o.key) (sort_by_size objects))
