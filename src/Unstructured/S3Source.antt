-- ===== src/Unstructured/S3Source.antt =====
-- `S3BucketSource` of pkg/unstructured/source.go: the objects under a prefix of a source bucket are
-- copied into the file store, and what is no longer in the source is deleted from the store.
pub mod Sweep
pub mod Sync
pub mod Repeat
use unstructured_data_contro.GoPath.{join}
use unstructured_data_contro.Env.{Env, Object}
use unstructured_data_contro.FileStore.{
  FileStore, exists, retrieve, store, delete, list_files_in_path, list_objects_in_prefix,
}
use unstructured_data_contro.Unstructured.Codec.{Codec}
use unstructured_data_contro.Unstructured.Layout.{RawFileMetadata, metadata_path}
use unstructured_data_contro.Prelude.{
  ℕ, ◌*◌, ◌^◌, Text, codes, Bool, true, false, Option, none, some, List, [], ◌∷◌, ◌++◌, ltb, ◌==◌,
  ◌&&◌, nat_eq, list_eq, option_eq, if◌then◌else◌, contains, has_suffix, trim_prefix, cut_suffix,
  Result, ok, err, Error, new_error, Io, pure, raise, attempt, ◌>>=◌, ◌>>◌,
}

-- 128 << 20
abbrev pub max_file_size : ℕ
max_file_size = 128 * 2 ^ 20

pub record S3BucketSource (env : Env) : Type 0 where
  -- the client with the bucket
  pub s3 : env.Handle
  pub prefix : Text
  pub output_dir : Text

module _ (env : Env) (s : S3BucketSource env) where
  unfoldable pub output_prefix : Text
  output_prefix = if s.output_dir == [] then s.prefix else s.output_dir

  unfoldable pub filestore_path : Text → Text
  filestore_path key =
      if s.output_dir == [] then key else join (s.output_dir ∷ trim_prefix key s.prefix ∷ [])

  unfoldable pub s3_key : Text → Text
  s3_key path =
      if s.output_dir == [] then path else join (s.prefix ∷ trim_prefix path s.output_dir ∷ [])

-- errorList[path] = err
pub set_error : Text → Error → List (Text × Error) → List (Text × Error)
set_error p e [] = (p, e) ∷ []
set_error p e ((q, x) ∷ l) = if q == p then (p, e) ∷ l else (q, x) ∷ set_error p e l

-- The lines of all errors; the order in which Go ranges over the map is not defined.
abbrev error_lines : Text → List (Text × Error) → Text
error_lines label [] = []
error_lines label ((p, e) ∷ l) =
    label ++ p ++ codes ", error: " ++ e.message ++ codes "\n" ++ error_lines label l

-- What the loop over the source's objects has gathered.
pub record Progress : Type 0 where
  pub stored_files : List RawFileMetadata
  pub error_list : List (Text × Error)
  -- the paths that sourceFileMap holds
  pub source_files : List Text

abbrev pub no_progress : Progress
no_progress = record { stored_files = []; error_list = []; source_files = [] }

-- Folder markers and files that are too large are skipped.
unfoldable pub is_skipped : Object → Bool
is_skipped o =
    if has_suffix o.key (codes "/")
    then true
    else elim o.size [ none ↦ false | some n ↦ ltb max_file_size n ]

-- The file in the store whose object the source must hold: its path without ".json".
unfoldable pub raw_file_path : Text → Text
raw_file_path local = elim (cut_suffix local (codes ".json")) [ none ↦ local | some raw ↦ raw ]

module _ (env : Env) (json : Codec RawFileMetadata) (fs : FileStore env) where
  open env use {World}

  abbrev uid_if : Text → Bool → Io World (Option Text)
  uid_if path false = pure none
  uid_if path true = do
    bytes ← retrieve env fs (metadata_path path)
    existing ← (λ w. (json.unmarshal bytes, w))
    pure (some existing.uid)

  -- The UID in the metadata file, if both the file and its metadata file exist.
  unfoldable pub stored_uid : Text → Io World (Option Text)
  stored_uid path = do
    file_exists ← exists env fs path
    metadata_exists ← exists env fs (metadata_path path)
    uid_if path (file_exists && metadata_exists)

  -- The file first, then its metadata.
  unfoldable pub store_with_metadata : RawFileMetadata → Text → Io World (Unit {0})
  store_with_metadata file bytes = do
    store env fs file.file_path bytes
    metadata ← (λ w. (json.marshal file, w))
    store env fs (metadata_path file.file_path) metadata

  abbrev download_unless : S3BucketSource env → RawFileMetadata → Bool → Io World Bool
  download_unless s file true = pure false
  download_unless s file false = do
    bytes ← env.get_object s.s3 (s3_key env s file.file_path)
    store_with_metadata file bytes
    pure true

  unfoldable pub store_file : S3BucketSource env → RawFileMetadata → Io World Bool
  store_file s file = do
    known ← stored_uid file.file_path
    download_unless s file (known == some file.uid)

  abbrev record_stored : RawFileMetadata → Result Bool → Progress → Progress
  record_stored file (ok true) p = record p { stored_files = p.stored_files ++ file ∷ [] }
  record_stored file (ok false) p = p
  record_stored file (err e) p = record p { error_list = set_error file.file_path e p.error_list }

  unfoldable pub sync_objects :
      S3BucketSource env → List Object → Progress → World → Progress × World
  sync_objects s [] p w = (p, w)
  sync_objects s (o ∷ objects) p w =
      let file : RawFileMetadata = record {
        file_path = filestore_path env s o.key;
        uid = o.etag;
      } in
      let seen : Progress = record p { source_files = p.source_files ++ file.file_path ∷ [] } in
      let skipped : Progress × World = (p, w) in
      let (result, w') = store_file s file w in
      let taken : Progress × World = (record_stored file result seen, w') in
      let next = if is_skipped o then skipped else taken in sync_objects s objects next.0 next.1

  abbrev sweep_result : Text → Result (Unit {0}) → List (Text × Error) → List (Text × Error)
  sweep_result local (ok _) errors = errors
  sweep_result local (err e) errors = set_error local e errors

  -- Deletes each local file whose raw file is not among `source_files`.
  unfoldable pub sweep :
      List Text → List Text → List (Text × Error) → World → List (Text × Error) × World
  sweep source_files [] errors w = (errors, w)
  sweep source_files (local ∷ rest) errors w =
      let kept : List (Text × Error) × World = (errors, w) in
      let (result, w') = delete env fs local w in
      let deleted : List (Text × Error) × World = (sweep_result local result errors, w') in
      let next = if contains source_files (raw_file_path local) then kept else deleted in
      sweep source_files rest next.0 next.1

  abbrev conclude : Progress → List (Text × Error) → Io World (List RawFileMetadata)
  conclude p [] = pure p.stored_files
  conclude p (e ∷ errors) = raise (new_error (error_lines (codes "file: ") (e ∷ errors)))

  unfoldable pub sync_files_to_filestore : S3BucketSource env → Io World (List RawFileMetadata)
  sync_files_to_filestore s = do
    objects ← list_objects_in_prefix env s.s3 s.prefix
    λ w.
        let (p, w₁) = sync_objects s objects no_progress w in
        let (listed, w₂) = list_files_in_path env fs (output_prefix env s) w₁ in
        elim listed [
          | err e ↦ (err e, w₂)
          | ok local_files ↦
              let (errors, w₃) = sweep p.source_files local_files p.error_list w₂ in
              conclude p errors w₃
        ]
