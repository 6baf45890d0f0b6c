-- ===== src/Unstructured/S3Source/Repeat.antt =====
-- The comparison by UID in `storeFile` of pkg/unstructured/source.go, from one run to the next.
use unstructured_data_contro.GoPath.{clean}
use unstructured_data_contro.Env.{Env, View, Laws}
use unstructured_data_contro.FileStore.{FileStore, exists, retrieve, store}
use unstructured_data_contro.FileStore.Contents
use unstructured_data_contro.FileStore.Contents.{store_done, store_frame, store_frame_disk}
use unstructured_data_contro.FileStore.Reads.{exists_lem, exists-Same, retrieve_done}
use unstructured_data_contro.Unstructured.Codec.{Codec}
use unstructured_data_contro.Unstructured.Layout.{RawFileMetadata, metadata_path}
use unstructured_data_contro.Unstructured.S3Source.{
  S3BucketSource, s3_key, stored_uid, store_with_metadata, store_file,
}
use unstructured_data_contro.Prelude.{
  Text, Option, some, true, false, Result, ok, err, ◌≡◌, ◌≢◌, arith, refl, nat_eq, list_eq,
  option_eq, ap, sym, subst,
}

module _ (env : Env) (view : View env) (laws : Laws env view) (fs : FileStore env)
    (json : Codec RawFileMetadata) (file : RawFileMetadata)
    (apart : clean (Contents.local env view laws fs file.file_path)
      ≢ clean (Contents.local env view laws fs (metadata_path file.file_path))) where
  abbrev path : Text
  path = file.file_path

  abbrev on_disk : env.World → Text → Option Text
  on_disk = Contents.on_disk env view laws fs

  -- The file and its metadata are both on disk.
  record IsCurrent (w : env.World) : Type 0 where
    bytes : Text
    encoded : Text
    encodes : json.marshal file ≡ ok encoded
    file_there : on_disk w path ≡ some bytes
    metadata_there : on_disk w (metadata_path path) ≡ some encoded

  differ : path ≢ metadata_path path
  differ e = apart (ap (λ (p : Text). clean (Contents.local env view laws fs p)) e)

  store_with_metadata-IsCurrent :
      (bytes : Text) (w : env.World)
      → (store_with_metadata env json fs file bytes w).0 ≡ ok tt
      → IsCurrent (store_with_metadata env json fs file bytes w).1
  unfolding store_with_metadata
  store_with_metadata-IsCurrent bytes w h = by_encoding (json.marshal file) refl
    where
      after_file : env.World
      after_file = (store env fs path bytes w).1

      by_encoding :
          (r : Result Text)
          → json.marshal file ≡ r
          → IsCurrent (store_with_metadata env json fs file bytes w).1
      by_encoding (ok encoded) e = record {
        bytes = bytes;
        encoded = encoded;
        encodes = e;
        file_there = ground (
          arith,
          e,
          store_done env view laws fs path bytes w,
          store_frame_disk env view laws fs (metadata_path path) encoded path after_file apart,
          store_frame env view laws fs (metadata_path path) encoded path after_file differ,
        );
        metadata_there =
            ground (arith, e, store_done env view laws fs (metadata_path path) encoded after_file);
      }
      by_encoding (err x) e = absurd (ground (arith, e))

  stored_uid_of_current :
      (w : env.World) (u : Option Text)
      → IsCurrent w
      → (stored_uid env json fs path w).0 ≡ ok u
      → u ≡ some file.uid
  unfolding stored_uid
  stored_uid_of_current w u c h = by_content (retrieve env fs (metadata_path path) seen_both).0 refl
    where
      seen_file : env.World
      seen_file = (exists env fs path w).1

      seen_both : env.World
      seen_both = (exists env fs (metadata_path path) seen_file).1

      found_file : (exists env fs path w).0 ≢ ok false
      found_file k = ground (arith, k, exists_lem env view laws fs path w)

      found_metadata : (exists env fs (metadata_path path) seen_file).0 ≢ ok false
      found_metadata k = ground (
        arith,
        k,
        exists_lem env view laws fs (metadata_path path) seen_file,
        (exists-Same env view laws fs path w).disk
            (Contents.local env view laws fs (metadata_path path)),
      )

      by_content :
          (r : Result Text)
          → (retrieve env fs (metadata_path path) seen_both).0 ≡ r
          → u ≡ some file.uid
      by_content (err x) e = ground (arith, e, found_file, found_metadata)
      by_content (ok t) e = ground (
        arith,
        e,
        found_file,
        found_metadata,
        retrieve_done env view laws fs (metadata_path path) t seen_both e,
        (exists-Same env view laws fs path w).disk
            (Contents.local env view laws fs (metadata_path path)),
        (exists-Same env view laws fs (metadata_path path) seen_file).disk
            (Contents.local env view laws fs (metadata_path path)),
        json.unmarshal-marshal file c.encoded c.encodes,
      )

  module _ (s : S3BucketSource env) (w : env.World) where
    abbrev after_uid : env.World
    after_uid = (stored_uid env json fs path w).1

    abbrev after_get : env.World
    after_get = (env.get_object s.s3 (s3_key env s path) after_uid).1

    -- A download ends with the two stores.
    store_file_downloads :
        (known : Result (Option Text)) (got : Result Text)
        → (stored_uid env json fs path w).0 ≡ known
        → (env.get_object s.s3 (s3_key env s path) after_uid).0 ≡ got
        → (store_file env json fs s file w).0 ≡ ok true
        → (bytes : Text) × ((store_with_metadata env json fs file bytes after_get).0 ≡ ok tt)
          × ((store_file env json fs s file w).1
              ≡ (store_with_metadata env json fs file bytes after_get).1)
    unfolding store_file
    store_file_downloads (err x) got e g h = absurd (ground (arith, e))
    store_file_downloads (ok k) (err x) e g h = absurd (ground (arith, e, g))
    store_file_downloads (ok k) (ok bytes) e g h =
        (bytes, ground (arith, e, g), ground (arith, e, g))

    -- After a download has stored a file and its metadata, reading the UID back, if it succeeds,
    -- gives the UID of the file: the next run skips the download of the same object. The file and
    -- its metadata must have different places on disk, which `apart` says.
    pub stored_uid-store_file :
        (u : Option Text)
        → (store_file env json fs s file w).0 ≡ ok true
        → (stored_uid env json fs path (store_file env json fs s file w).1).0 ≡ ok u
        → u ≡ some file.uid
    stored_uid-store_file u h k =
        let (bytes, done, ends) = store_file_downloads _ _ refl refl h in
        stored_uid_of_current (store_file env json fs s file w).1 u
          (subst IsCurrent (sym ends) (store_with_metadata-IsCurrent bytes after_get done)) k
