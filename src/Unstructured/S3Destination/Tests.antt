-- ===== src/Unstructured/S3Destination/Tests.antt =====
-- A run of the S3 destination in a world in memory.
use unstructured_data_contro.GoPath.{join, dir}
use unstructured_data_contro.Env.Memory.{Memory, memory, memory_view, memory-Laws}
use unstructured_data_contro.FileStore.{
  FileStore, append_pages, local_path, retrieve, file_exists_in_cache, file_exists_in_s3,
  object_exists,
}
use unstructured_data_contro.Unstructured.S3Destination.{
  S3Destination, Sums, drop_key, s3_key, keys_in_destination, upload, upload_if_changed, sync_file,
  sync_each, delete_leftovers, sync_files_to_destination,
}
use unstructured_data_contro.Unstructured.S3Destination.Upload.{
  ChecksumLaws, HasSum, upload_if_changed_done,
}
use unstructured_data_contro.Unstructured.S3Destination.Leftovers.{
  targets, at_key, after_uploads, sync_deletes_leftovers, sync_keeps_targets,
}
use unstructured_data_contro.Prelude.{
  Text, codes, true, false, none, some, [], ◌∷◌, ◌==◌, if◌then◌else◌, nat_eq, list_eq, ok, ◌≡◌,
  refl, arith, contains, after_first, cut_prefix, has_prefix,
}

-- The sum of a text is the text.
abbrev sums : Sums
sums = record {
  sha256 = λ t. t;
  error_code = λ e. codes "NotFound";
  order = λ l. l;
  quote = λ t. t;
}

-- PutObject is the only upload of this world.
abbrev InOnePart : Memory → Unit {0} → Text → Type 0
InOnePart w h k = Unit

sums-ChecksumLaws : ChecksumLaws {env = memory} memory_view sums InOnePart
sums-ChecksumLaws = record { head_checksum = λ h k c x w e o p. ground arith }

abbrev fs : FileStore memory
fs = record { root = codes "/data"; s3 = tt }

abbrev destination : S3Destination memory
destination = record {
  s3 = tt;
  bucket = codes "b";
  prefix = codes "dst";
  stage_name = codes "crawl";
}

abbrev path : Text
path = codes "p/stages/crawl/a"

abbrev old : Text
old = codes "dst/stages/crawl/old"

-- A file of the store, and a key of the destination that no file has.
abbrev start : Memory
start = record {
  files = λ p. none;
  objects =
      λ k. if k == path then some (codes "A") else if k == old then some (codes "O") else none;
  keys = path ∷ old ∷ [];
  reachable = true;
}

lists : (keys_in_destination memory sums fs destination start).0 ≡ ok (old ∷ [])
unfolding keys_in_destination append_pages join has_prefix cut_prefix nat_eq list_eq
lists = refl

runs : (sync_files_to_destination memory sums fs destination (path ∷ []) start).0 ≡ ok tt
unfolding sync_files_to_destination keys_in_destination append_pages sync_each sync_file
    upload_if_changed upload delete_leftovers drop_key s3_key after_first retrieve
    file_exists_in_cache file_exists_in_s3 object_exists local_path join dir has_prefix cut_prefix
    nat_eq list_eq
runs = refl

old_listed : contains (old ∷ []) old ≡ true
unfolding nat_eq list_eq
old_listed = refl

no_target : contains (targets memory sums fs destination (path ∷ [])) old ≡ false
unfolding s3_key after_first cut_prefix join nat_eq list_eq
no_target = refl

is_target :
    contains (targets memory sums fs destination (path ∷ [])) (codes "dst/stages/crawl/a") ≡ true
unfolding s3_key after_first cut_prefix join nat_eq list_eq
is_target = refl

sync_deletes_leftovers_example :
    at_key memory sums fs destination memory_view memory-Laws
      (sync_files_to_destination memory sums fs destination (path ∷ []) start).1
      old
    ≡ none
sync_deletes_leftovers_example =
    sync_deletes_leftovers memory sums fs destination memory_view memory-Laws (λ l q. refl)
      (path ∷ []) (old ∷ []) start lists old old_listed no_target runs

sync_keeps_targets_example :
    at_key memory sums fs destination memory_view memory-Laws
      (sync_files_to_destination memory sums fs destination (path ∷ []) start).1
      (codes "dst/stages/crawl/a")
    ≡ at_key memory sums fs destination memory_view memory-Laws
        (after_uploads memory sums fs destination memory_view memory-Laws
          (λ l q. refl)
          (path ∷ [])
          (old ∷ [])
          start
          lists)
        (codes "dst/stages/crawl/a")
sync_keeps_targets_example =
    sync_keeps_targets memory sums fs destination memory_view memory-Laws (λ l q. refl) (path ∷ [])
      (old ∷ []) start lists (codes "dst/stages/crawl/a") is_target

uploads : (upload_if_changed memory sums fs destination old (codes "N") start).0 ≡ ok tt
unfolding upload_if_changed upload nat_eq list_eq
uploads = refl

upload_if_changed_done_example :
    HasSum memory memory_view memory-Laws sums InOnePart sums-ChecksumLaws fs destination
      (upload_if_changed memory sums fs destination old (codes "N") start).1
      old
      (codes "N")
upload_if_changed_done_example =
    upload_if_changed_done memory memory_view memory-Laws sums InOnePart sums-ChecksumLaws fs
      destination old (codes "N") start tt uploads
