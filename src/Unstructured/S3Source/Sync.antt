-- ===== src/Unstructured/S3Source/Sync.antt =====
-- A whole run of `SyncFilesToFilestore` over an S3 source, of pkg/unstructured/source.go.
use unstructured_data_contro.Env.{Env, Object, View, Laws}
use unstructured_data_contro.FileStore.{FileStore, list_files_in_path, list_objects_in_prefix}
use unstructured_data_contro.Unstructured.Codec.{Codec}
use unstructured_data_contro.Unstructured.Layout.{RawFileMetadata, metadata_path}
use unstructured_data_contro.Unstructured.S3Source.{
  S3BucketSource, Progress, no_progress, filestore_path, output_prefix, is_skipped, store_file,
  record_stored, sync_objects, sweep, raw_file_path, conclude, sync_files_to_filestore,
}
use unstructured_data_contro.Unstructured.S3Source.Sweep.{in_s3, sweep_deletes, sweep_keeps}
use unstructured_data_contro.Prelude.{
  Text, codes, none, Bool, true, false, List, [], ◌∷◌, ◌++◌, append_assoc, append-nil, contains,
  nat_eq, list_eq, if◌then◌else◌, Result, ok, err, Error, ◌≡◌, arith, refl, ap, sym, ◌∙◌,
  cut_suffix-append,
}

raw_file_path-metadata_path : (r : Text) → raw_file_path (metadata_path r) ≡ r
unfolding raw_file_path metadata_path
raw_file_path-metadata_path r = ground (arith, cut_suffix-append r (codes ".json"))

module _ (env : Env) (json : Codec RawFileMetadata) (fs : FileStore env)
    (s : S3BucketSource env) where
  -- The paths in the store of the objects that are not skipped.
  unfoldable pub source_paths : List Object → List Text
  source_paths [] = []
  source_paths (o ∷ objects) =
      let rest = source_paths objects in
      if is_skipped o then rest else filestore_path env s o.key ∷ rest

  abbrev recorded : Object → Progress → env.World → Progress
  recorded o p w =
      let file : RawFileMetadata = record {
        file_path = filestore_path env s o.key;
        uid = o.etag;
      } in
      record_stored env json fs file (store_file env json fs s file w).0
        (record p { source_files = p.source_files ++ file.file_path ∷ [] })

  abbrev after_object : Object → env.World → env.World
  after_object o w =
      (store_file env json fs s (record { file_path = filestore_path env s o.key; uid = o.etag })
        w).1

  source_files-record_stored :
      (file : RawFileMetadata) (r : Result Bool) (p : Progress)
      → (record_stored env json fs file r p).source_files ≡ p.source_files
  source_files-record_stored file (ok true) p = refl
  source_files-record_stored file (ok false) p = refl
  source_files-record_stored file (err e) p = refl

  -- The download loop adds to sourceFileMap the paths of the objects that are not skipped, and no
  -- others, whether storing them works or not.
  pub source_files-sync_objects :
      (objects : List Object) (p : Progress) (w : env.World)
      → (sync_objects env json fs s objects p w).0.source_files
        ≡ p.source_files ++ source_paths objects
  unfolding sync_objects source_paths
  source_files-sync_objects [] p w = sym (append-nil p.source_files)
  source_files-sync_objects (o ∷ objects) p w = ground (
    arith,
    source_files-sync_objects objects p w,
    source_files-sync_objects objects (recorded o p w) (after_object o w)
        ∙ ap (λ (l : List Text). l ++ source_paths objects) (source_files-record_stored _ _ _)
        ∙ append_assoc p.source_files (filestore_path env s o.key ∷ []) (source_paths objects),
  )

  abbrev pub after_list : env.World → env.World
  after_list w = (list_objects_in_prefix env s.s3 s.prefix w).1

  abbrev pub after_objects : List Object → env.World → env.World
  after_objects objects w = (sync_objects env json fs s objects no_progress (after_list w)).1

  abbrev pub local_listing : List Object → env.World → Result (List Text)
  local_listing objects w =
      (list_files_in_path env fs (output_prefix env s) (after_objects objects w)).0

  abbrev swept_from : List Object → List Text → env.World → List (Text × Error) × env.World
  swept_from objects files w =
      sweep env json fs
        (sync_objects env json fs s objects no_progress (after_list w)).0.source_files files
        (sync_objects env json fs s objects no_progress (after_list w)).0.error_list
        (list_files_in_path env fs (output_prefix env s) (after_objects objects w)).1

  conclude-eq-ok :
      (p : Progress) (errors : List (Text × Error)) (w : env.World) (stored : List RawFileMetadata)
      → (conclude env json fs p errors w).0 ≡ ok stored
      → errors ≡ []
  conclude-eq-ok p [] w stored h = refl
  conclude-eq-ok p (e ∷ errors) w stored h = cc

  module _ (view : View env) (laws : Laws env view) (w : env.World) (objects : List Object)
      (files : List Text) (listed : (list_objects_in_prefix env s.s3 s.prefix w).0 ≡ ok objects)
      (local : local_listing objects w ≡ ok files) where
    sync_deletes_swept :
        (q : Text)
        → contains files q ≡ true
        → contains (source_paths objects) (raw_file_path q) ≡ false
        → (swept_from objects files w).0 ≡ []
        → in_s3 env view laws fs (swept_from objects files w).1 q ≡ none
    sync_deletes_swept q m absent e =
        sweep_deletes env view laws fs json _ files q _ _ m
          (rw (source_files-sync_objects objects no_progress (after_list w)) absent) e

    -- A run that returns no error has deleted from the bucket every file that it listed there for
    -- the clean-up and whose raw file is not the path of an object of the source that is not
    -- skipped.
    pub sync_deletes :
        (stored : List RawFileMetadata) (q : Text)
        → (sync_files_to_filestore env json fs s w).0 ≡ ok stored
        → contains files q ≡ true
        → contains (source_paths objects) (raw_file_path q) ≡ false
        → in_s3 env view laws fs (sync_files_to_filestore env json fs s w).1 q ≡ none
    unfolding sync_files_to_filestore
    sync_deletes stored q h m absent = ground (
      arith,
      listed,
      local,
      sync_deletes_swept q m absent,
      conclude-eq-ok (sync_objects env json fs s objects no_progress (after_list w)).0
          (swept_from objects files w).0 (swept_from objects files w).1 stored,
    )

    sweep_keeps_source :
        (q : Text)
        → contains (source_paths objects) (raw_file_path q) ≡ true
        → in_s3 env view laws fs (swept_from objects files w).1 q
          ≡ in_s3 env view laws fs
              (list_files_in_path env fs (output_prefix env s) (after_objects objects w)).1
              q
    sweep_keeps_source q present =
        sweep_keeps env view laws fs json _ files q _ _
          (rw (source_files-sync_objects objects no_progress (after_list w)) present)

    in_s3-conclude :
        (q : Text) (p : Progress) (errors : List (Text × Error)) (v : env.World)
        → in_s3 env view laws fs (conclude env json fs p errors v).1 q ≡ in_s3 env view laws fs v q
    in_s3-conclude q p [] v = refl
    in_s3-conclude q p (e ∷ errors) v = refl

    -- A run that gets to its clean-up leaves, whatever it returns, every file in the bucket as the
    -- download loop made it whose raw file is the path of an object of the source that is not
    -- skipped.
    pub sync_keeps :
        (q : Text)
        → contains (source_paths objects) (raw_file_path q) ≡ true
        → in_s3 env view laws fs (sync_files_to_filestore env json fs s w).1 q
          ≡ in_s3 env view laws fs (after_objects objects w) q
    unfolding sync_files_to_filestore list_files_in_path list_objects_in_prefix
    sync_keeps q present = ground (
      arith,
      listed,
      local,
      sweep_keeps_source q present,
      (laws.list_pages-Same fs.s3 (output_prefix env s) (after_objects objects w)).object fs.s3 q,
      in_s3-conclude q (sync_objects env json fs s objects no_progress (after_list w)).0
          (swept_from objects files w).0 (swept_from objects files w).1,
    )

    -- A source object whose own path ends in ".json" is lost: a run that returns no error deletes
    -- it from the bucket if it is listed there for the clean-up and no source object has the path
    -- without ".json".
    pub sync_loses_json :
        (stored : List RawFileMetadata) (r : Text)
        → (sync_files_to_filestore env json fs s w).0 ≡ ok stored
        → contains (source_paths objects) (metadata_path r) ≡ true
        → contains files (metadata_path r) ≡ true
        → contains (source_paths objects) r ≡ false
        → in_s3 env view laws fs (sync_files_to_filestore env json fs s w).1 (metadata_path r)
          ≡ none
    sync_loses_json stored r h inside m absent =
        sync_deletes stored (metadata_path r) h m (rw (raw_file_path-metadata_path r) absent)
