-- ===== src/FileStore/Tests.antt =====
-- The file store in a world in memory: runs, and the theorems at concrete inputs.
use unstructured_data_contro.GoPath.{join, clean, dir}
use unstructured_data_contro.Env.Memory.{Memory, memory, memory_view, memory-Laws}
use unstructured_data_contro.FileStore.{
  FileStore, local_path, make_parent, store, exists, retrieve, delete,
}
use unstructured_data_contro.FileStore.Contents.{
  store_frame, store_frame_disk, after_parent, after_put, after_write,
}
use unstructured_data_contro.FileStore.Contents
use unstructured_data_contro.FileStore.Reads.{exists_lem, retrieve_done}
use unstructured_data_contro.FileStore.Coherence.{
  Coherent, retrieve-store, retrieve-Coherent, delete_done, delete-Coherent, store-Coherent,
  exists-delete,
}
use unstructured_data_contro.Prelude.{
  Text, codes, true, false, none, some, [], ok, ◌≡◌, ◌≢◌, ◌⊎◌, refl, nat_eq, list_eq, ne_of_test,
}

abbrev empty_world : Memory
empty_world = record { files = λ p. none; objects = λ k. none; keys = []; reachable = true }

-- S3 cannot be reached.
abbrev offline : Memory
offline = record empty_world { reachable = false }

abbrev fs : FileStore memory
fs = record { root = codes "/data"; s3 = tt }

abbrev a : Text
a = codes "p/a"

abbrev b : Text
b = codes "p/b"

abbrev one : Text
one = codes "1"

abbrev with_a : Memory
with_a = (store memory fs a one empty_world).1

stores : (store memory fs a one empty_world).0 ≡ ok tt
unfolding store make_parent local_path join dir nat_eq list_eq
stores = refl

retrieves : (retrieve memory fs a with_a).0 ≡ ok one
unfolding store make_parent local_path join dir nat_eq list_eq retrieve
retrieves = refl

retrieve-store_example : one ≡ one
retrieve-store_example =
    retrieve-store memory memory_view memory-Laws fs a one one empty_world stores retrieves

retrieve_done_example :
    ((Contents.on_disk memory memory_view memory-Laws fs with_a a ≡ some one)
      ⊎ ((Contents.on_disk memory memory_view memory-Laws fs with_a a ≡ none)
          × (Contents.in_s3 memory memory_view memory-Laws fs with_a a ≡ some one)))
    × (Contents.on_disk memory memory_view memory-Laws fs (retrieve memory fs a with_a).1 a
        ≡ some one)
    × (Contents.in_s3 memory memory_view memory-Laws fs (retrieve memory fs a with_a).1 a
        ≡ Contents.in_s3 memory memory_view memory-Laws fs with_a a)
retrieve_done_example = retrieve_done memory memory_view memory-Laws fs a one with_a retrieves

exists_lem_example :
    ((exists memory fs a with_a).0 ≡ ok true
      → (Contents.on_disk memory memory_view memory-Laws fs with_a a ≢ none)
        ⊎ (Contents.in_s3 memory memory_view memory-Laws fs with_a a ≢ none))
    × ((exists memory fs a with_a).0 ≡ ok false
        → (Contents.on_disk memory memory_view memory-Laws fs with_a a ≡ none)
          × (Contents.in_s3 memory memory_view memory-Laws fs with_a a ≡ none))
exists_lem_example = exists_lem memory memory_view memory-Laws fs a with_a

-- Of a world with nothing on disk every file is coherent.
only_in_s3 : Memory
only_in_s3 = record empty_world { objects = λ k. some one }

only_in_s3-Coherent : Coherent memory memory_view memory-Laws fs only_in_s3 a
unfolding only_in_s3
only_in_s3-Coherent d e = cc

retrieves_from_s3 : (retrieve memory fs a only_in_s3).0 ≡ ok one
unfolding retrieve only_in_s3 local_path join dir nat_eq list_eq
retrieves_from_s3 = refl

retrieve-Coherent_example :
    (Contents.in_s3 memory memory_view memory-Laws fs only_in_s3 a ≡ some one)
    × Coherent memory memory_view memory-Laws fs (retrieve memory fs a only_in_s3).1 a
retrieve-Coherent_example =
    retrieve-Coherent memory memory_view memory-Laws fs a one only_in_s3 only_in_s3-Coherent
      retrieves_from_s3

deletes : (delete memory fs a with_a).0 ≡ ok tt
unfolding store make_parent local_path join dir nat_eq list_eq delete
deletes = refl

delete_done_example :
    (Contents.on_disk memory memory_view memory-Laws fs (delete memory fs a with_a).1 a ≡ none)
    × (Contents.in_s3 memory memory_view memory-Laws fs (delete memory fs a with_a).1 a ≡ none)
delete_done_example = delete_done memory memory_view memory-Laws fs a with_a deletes

exists-delete_example : (exists memory fs a (delete memory fs a with_a).1).0 ≢ ok true
exists-delete_example = exists-delete memory memory_view memory-Laws fs a with_a deletes

delete-Coherent_example :
    Coherent memory memory_view memory-Laws fs (delete memory fs a only_in_s3).1 a
delete-Coherent_example =
    delete-Coherent memory memory_view memory-Laws fs a only_in_s3 only_in_s3-Coherent

store-Coherent_example :
    Coherent memory memory_view memory-Laws fs (store memory fs a (codes "2") offline).1 a
unfolding make_parent local_path join dir nat_eq list_eq
store-Coherent_example =
    store-Coherent memory memory_view memory-Laws fs a (codes "2") offline (λ d e. cc) refl refl

apart : clean (local_path memory fs b) ≢ clean (local_path memory fs a)
unfolding local_path join nat_eq list_eq
apart = ne_of_test _ _ refl

a_not_b : b ≢ a
unfolding nat_eq list_eq
a_not_b = ne_of_test b a refl

store_frame_disk_example :
    Contents.on_disk memory memory_view memory-Laws fs (store memory fs a one only_in_s3).1 b
    ≡ Contents.on_disk memory memory_view memory-Laws fs only_in_s3 b
store_frame_disk_example =
    store_frame_disk memory memory_view memory-Laws fs a one b only_in_s3 apart

store_frame_example :
    Contents.in_s3 memory memory_view memory-Laws fs (store memory fs a one only_in_s3).1 b
    ≡ Contents.in_s3 memory memory_view memory-Laws fs only_in_s3 b
store_frame_example = store_frame memory memory_view memory-Laws fs a one b only_in_s3 a_not_b
