-- ===== src/Unstructured/Tests.antt =====
-- The S3 source in a world in memory: a run, and the theorems at concrete inputs.
use unstructured_data_contro.GoPath.{join, clean, dir}
use unstructured_data_contro.Env.{Object}
use unstructured_data_contro.Env.Memory.{Memory, memory, memory_view, memory-Laws}
use unstructured_data_contro.FileStore.{
  FileStore, append_pages, list_objects_in_prefix, list_files_in_path, sort_by_size, local_path,
  make_parent, store, exists, retrieve, delete, file_exists_in_cache, file_exists_in_s3,
  object_exists,
}
use unstructured_data_contro.FileStore.Contents
use unstructured_data_contro.Api.DoclingConfig.Sample.{empty_docling}
use unstructured_data_contro.Unstructured.ConvertedFile.{ConvertedFileMetadata}
use unstructured_data_contro.Unstructured.Codec.Lengths.{length_codec}
use unstructured_data_contro.Unstructured.Layout.{
  RawFileMetadata, metadata_path, filter_raw_file_paths,
}
use unstructured_data_contro.Unstructured.Layout.Filter.{contains-filter_raw_file_paths}
use unstructured_data_contro.Unstructured.S3Source.{
  S3BucketSource, output_prefix, filestore_path, s3_key, is_skipped, raw_file_path, stored_uid,
  store_with_metadata, store_file, sync_objects, sweep, sync_files_to_filestore, no_progress,
}
use unstructured_data_contro.Unstructured.S3Source.Sweep.{in_s3}
use unstructured_data_contro.Unstructured.S3Source.Sync.{
  source_paths, after_objects, local_listing, source_files-sync_objects, sync_deletes, sync_keeps,
  sync_loses_json,
}
use unstructured_data_contro.Unstructured.S3Source.Repeat.{stored_uid-store_file}
use unstructured_data_contro.Prelude.{
  Text, codes, true, false, Option, none, some, List, [], ◌∷◌, ◌++◌, ok, ◌≡◌, ◌≢◌, refl, nat_eq,
  list_eq, option_eq, ◌==◌, ◌&&◌, contains, cut_prefix, cut_suffix, has_prefix, has_suffix,
  trim_prefix, ne_of_test, if◌then◌else◌,
}

abbrev fs : FileStore memory
fs = record { root = codes "/data"; s3 = tt }

abbrev source : S3BucketSource memory
source = record { s3 = tt; prefix = codes "in/"; output_dir = codes "out" }

abbrev object_at : List (Text × Text) → Text → Option Text
object_at [] k = none
object_at ((j, d) ∷ l) k = if j == k then some d else object_at l k

-- A source file, and a file in the store whose source is gone.
abbrev start : Memory
start = record {
  files = λ p. none;
  objects = object_at ((codes "in/a", codes "A") ∷ (codes "out/old", codes "O") ∷ []);
  keys = codes "in/a" ∷ codes "out/old" ∷ [];
  reachable = true;
}

abbrev object_a : Object
object_a = record { key = codes "in/a"; size = some 1; etag = codes "A" }

abbrev file_a : RawFileMetadata
file_a = record { file_path = codes "out/a"; uid = codes "A" }

lists : (list_objects_in_prefix memory source.s3 source.prefix start).0 ≡ ok (object_a ∷ [])
unfolding list_objects_in_prefix append_pages has_prefix cut_prefix nat_eq list_eq
lists = refl

runs : (sync_files_to_filestore memory length_codec fs source start).0 ≡ ok (file_a ∷ [])
unfolding sync_files_to_filestore list_objects_in_prefix append_pages has_prefix cut_prefix nat_eq
    list_eq option_eq sync_objects is_skipped has_suffix cut_suffix filestore_path trim_prefix join
    dir store_file stored_uid exists file_exists_in_cache file_exists_in_s3 object_exists local_path
    metadata_path s3_key store_with_metadata store make_parent list_files_in_path sort_by_size
    output_prefix sweep raw_file_path delete
runs = refl

-- What the store lists at the clean-up, smallest first.
listed : List Text
listed = codes "out/a" ∷ codes "out/old" ∷ codes "out/a.json" ∷ []

lists_after : local_listing memory length_codec fs source (object_a ∷ []) start ≡ ok listed
unfolding sync_files_to_filestore list_objects_in_prefix append_pages has_prefix cut_prefix nat_eq
    list_eq option_eq sync_objects is_skipped has_suffix cut_suffix filestore_path trim_prefix join
    dir store_file stored_uid exists file_exists_in_cache file_exists_in_s3 object_exists local_path
    metadata_path s3_key store_with_metadata store make_parent list_files_in_path sort_by_size
    output_prefix sweep raw_file_path delete listed
lists_after = refl

has_old : contains listed (codes "out/old") ≡ true
unfolding listed nat_eq list_eq
has_old = refl

old_gone :
    contains
      (source_paths memory length_codec fs source (object_a ∷ []))
      (raw_file_path (codes "out/old"))
    ≡ false
unfolding source_paths is_skipped has_suffix cut_suffix cut_prefix filestore_path trim_prefix join
    raw_file_path metadata_path nat_eq list_eq
old_gone = refl

sync_deletes_example :
    in_s3 memory memory_view memory-Laws fs
      (sync_files_to_filestore memory length_codec fs source start).1
      (codes "out/old")
    ≡ none
sync_deletes_example =
    sync_deletes memory length_codec fs source memory_view memory-Laws start (object_a ∷ []) listed
      lists lists_after (file_a ∷ []) (codes "out/old") runs has_old old_gone

a_kept :
    contains
      (source_paths memory length_codec fs source (object_a ∷ []))
      (raw_file_path (codes "out/a.json"))
    ≡ true
unfolding source_paths is_skipped has_suffix cut_suffix cut_prefix filestore_path trim_prefix join
    raw_file_path metadata_path nat_eq list_eq
a_kept = refl

sync_keeps_example :
    in_s3 memory memory_view memory-Laws fs
      (sync_files_to_filestore memory length_codec fs source start).1
      (codes "out/a.json")
    ≡ in_s3 memory memory_view memory-Laws fs
        (after_objects memory length_codec fs source (object_a ∷ []) start)
        (codes "out/a.json")
sync_keeps_example =
    sync_keeps memory length_codec fs source memory_view memory-Laws start (object_a ∷ []) listed
      lists lists_after (codes "out/a.json") a_kept

source_files-sync_objects_example :
    (sync_objects memory length_codec fs source (object_a ∷ []) no_progress start).0.source_files
    ≡ [] ++ source_paths memory length_codec fs source (object_a ∷ [])
source_files-sync_objects_example =
    source_files-sync_objects memory length_codec fs source (object_a ∷ []) no_progress start

-- A source with one file, whose name ends in ".json".
with_json : Memory
with_json = record {
  files = λ p. none;
  objects = object_at ((codes "in/x.json", codes "X") ∷ []);
  keys = codes "in/x.json" ∷ [];
  reachable = true;
}

object_x : Object
object_x = record { key = codes "in/x.json"; size = some 1; etag = codes "X" }

file_x : RawFileMetadata
file_x = record { file_path = metadata_path (codes "out/x"); uid = codes "X" }

listed_x : List Text
unfolding metadata_path
listed_x = metadata_path (codes "out/x") ∷ codes "out/x.json.json" ∷ []

lists_x : (list_objects_in_prefix memory source.s3 source.prefix with_json).0 ≡ ok (object_x ∷ [])
unfolding with_json object_x list_objects_in_prefix append_pages has_prefix cut_prefix nat_eq
    list_eq
lists_x = refl

lists_x_after : local_listing memory length_codec fs source (object_x ∷ []) with_json ≡ ok listed_x
unfolding sync_files_to_filestore list_objects_in_prefix append_pages has_prefix cut_prefix nat_eq
    list_eq option_eq sync_objects is_skipped has_suffix cut_suffix filestore_path trim_prefix join
    dir store_file stored_uid exists file_exists_in_cache file_exists_in_s3 object_exists local_path
    metadata_path s3_key store_with_metadata store make_parent list_files_in_path sort_by_size
    output_prefix sweep raw_file_path delete with_json object_x listed_x
lists_x_after = refl

runs_x : (sync_files_to_filestore memory length_codec fs source with_json).0 ≡ ok (file_x ∷ [])
unfolding sync_files_to_filestore list_objects_in_prefix append_pages has_prefix cut_prefix nat_eq
    list_eq option_eq sync_objects is_skipped has_suffix cut_suffix filestore_path trim_prefix join
    dir store_file stored_uid exists file_exists_in_cache file_exists_in_s3 object_exists local_path
    metadata_path s3_key store_with_metadata store make_parent list_files_in_path sort_by_size
    output_prefix sweep raw_file_path delete with_json file_x
runs_x = refl

x_inside :
    contains
      (source_paths memory length_codec fs source (object_x ∷ []))
      (metadata_path (codes "out/x"))
    ≡ true
unfolding source_paths is_skipped has_suffix cut_suffix cut_prefix filestore_path trim_prefix join
    raw_file_path metadata_path nat_eq list_eq object_x
x_inside = refl

x_listed : contains listed_x (metadata_path (codes "out/x")) ≡ true
unfolding source_paths is_skipped has_suffix cut_suffix cut_prefix filestore_path trim_prefix join
    raw_file_path metadata_path nat_eq list_eq listed_x
x_listed = refl

x_absent :
    contains (source_paths memory length_codec fs source (object_x ∷ [])) (codes "out/x") ≡ false
unfolding source_paths is_skipped has_suffix cut_suffix cut_prefix filestore_path trim_prefix join
    raw_file_path metadata_path nat_eq list_eq object_x
x_absent = refl

sync_loses_json_example :
    in_s3 memory memory_view memory-Laws fs
      (sync_files_to_filestore memory length_codec fs source with_json).1
      (metadata_path (codes "out/x"))
    ≡ none
sync_loses_json_example =
    sync_loses_json memory length_codec fs source memory_view memory-Laws with_json (object_x ∷ [])
      listed_x lists_x lists_x_after (file_x ∷ []) (codes "out/x") runs_x x_inside x_listed x_absent

apart :
    clean (Contents.local memory memory_view memory-Laws fs file_a.file_path)
    ≢ clean (Contents.local memory memory_view memory-Laws fs (metadata_path file_a.file_path))
unfolding local_path join metadata_path nat_eq list_eq
apart = ne_of_test _ _ refl

downloads : (store_file memory length_codec fs source file_a start).0 ≡ ok true
unfolding sync_files_to_filestore list_objects_in_prefix append_pages has_prefix cut_prefix nat_eq
    list_eq option_eq sync_objects is_skipped has_suffix cut_suffix filestore_path trim_prefix join
    dir store_file stored_uid exists file_exists_in_cache file_exists_in_s3 object_exists local_path
    metadata_path s3_key store_with_metadata store make_parent list_files_in_path sort_by_size
    output_prefix sweep raw_file_path delete
downloads = refl

reads_back :
    (stored_uid memory length_codec fs file_a.file_path
      (store_file memory length_codec fs source file_a start).1).0
    ≡ ok (some (codes "A"))
unfolding sync_files_to_filestore list_objects_in_prefix append_pages has_prefix cut_prefix nat_eq
    list_eq option_eq sync_objects is_skipped has_suffix cut_suffix filestore_path trim_prefix join
    dir store_file stored_uid exists file_exists_in_cache file_exists_in_s3 object_exists local_path
    metadata_path s3_key store_with_metadata store make_parent list_files_in_path sort_by_size
    output_prefix sweep raw_file_path delete retrieve
reads_back = refl

stored_uid-store_file_example : some (codes "A") ≡ some file_a.uid
stored_uid-store_file_example =
    stored_uid-store_file memory memory_view memory-Laws fs length_codec file_a apart source start
      (some (codes "A")) downloads reads_back

contains-filter_raw_file_paths_example :
    contains (filter_raw_file_paths listed) (codes "out/a")
    ≡ (contains listed (codes "out/a") && contains listed (metadata_path (codes "out/a")))
contains-filter_raw_file_paths_example = contains-filter_raw_file_paths listed (codes "out/a")

abbrev converted_a : ConvertedFileMetadata
converted_a = record {
  raw_file_path = codes "out/a";
  file_identifier = codes "A";
  document_converter = codes "docling";
  docling_config = empty_docling;
}
