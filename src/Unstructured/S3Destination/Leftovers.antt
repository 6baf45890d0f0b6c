-- ===== src/Unstructured/S3Destination/Leftovers.antt =====
-- The keys that `SyncFilesToDestination` of pkg/unstructured/destination.go deletes.
use unstructured_data_contro.Env.{Env, View, Laws}
use unstructured_data_contro.FileStore.{FileStore}
use unstructured_data_contro.Unstructured.S3Destination.{
  S3Destination, Sums, drop_key, s3_key, keys_in_destination, sync_file, sync_each,
  delete_leftovers, sync_files_to_destination,
}
use unstructured_data_contro.Prelude.{
  Text, true, false, Option, none, List, [], ◌∷◌, Result, ok, err, ◌≡◌, refl, arith, ◌==◌, ◌&&◌,
  not, nat_eq, list_eq, contains, Bool-cases, inl, inr, map,
}

contains-drop_key :
    (k q : Text) (keys : List Text)
    → contains (drop_key k keys) q ≡ (contains keys q && not (q == k))
unfolding drop_key
contains-drop_key k q [] = refl
contains-drop_key k q (j ∷ keys) = ground (arith, contains-drop_key k q keys)

module _ (env : Env) (sums : Sums) (fs : FileStore env) (d : S3Destination env) where
  -- The keys of the files.
  abbrev pub targets : List Text → List Text
  targets paths = map (s3_key env sums fs d) paths

  -- What is left of the keys is what no file has.
  contains-sync_each :
      (paths keys left : List Text) (q : Text) (w : env.World)
      → (sync_each env sums fs d paths keys w).0 ≡ ok left
      → contains left q ≡ (contains keys q && not (contains (targets paths) q))
  unfolding sync_each
  contains-sync_each [] keys left q w h = ground arith
  contains-sync_each (p ∷ paths) keys left q w h = ground (
    arith,
    contains-drop_key (s3_key env sums fs d p) q keys,
    contains-sync_each paths (drop_key (s3_key env sums fs d p) keys) left q
        (sync_file env sums fs d p w).1,
  )

  module _ (view : View env) (laws : Laws env view) where
    abbrev pub at_key : env.World → Text → Option Text
    at_key w k = view.object w d.s3 k

    abbrev without : Text → env.World → env.World
    without k w = (env.delete_object d.s3 k w).1

    deleted_gone : (k q : Text) (w : env.World) → at_key w q ≡ none → at_key (without k w) q ≡ none
    deleted_gone k q w h = elim (Bool-cases (q == k)) [
      | inl e ↦ ground (arith, laws.delete_object_or_kept d.s3 k w)
      | inr e ↦ ground (arith, (laws.delete_object-OnlyObject d.s3 k w).object q)
    ]

    leftovers_gone :
        (keys : List Text) (q : Text) (w : env.World)
        → at_key w q ≡ none
        → at_key (delete_leftovers env sums fs d keys w).1 q ≡ none
    unfolding delete_leftovers
    leftovers_gone [] q w h = h
    leftovers_gone (k ∷ keys) q w h =
        ground (arith, deleted_gone k q w h, leftovers_gone keys q (without k w))

    delete_leftovers_done :
        (keys : List Text) (q : Text) (w : env.World)
        → contains keys q ≡ true
        → (delete_leftovers env sums fs d keys w).0 ≡ ok tt
        → at_key (delete_leftovers env sums fs d keys w).1 q ≡ none
    unfolding delete_leftovers
    delete_leftovers_done [] q w m h = cc
    delete_leftovers_done (k ∷ keys) q w m h = ground (
      arith,
      laws.delete_object_done d.s3 k w,
      leftovers_gone keys q (without k w),
      delete_leftovers_done keys q (without k w),
    )

    delete_leftovers_frame :
        (keys : List Text) (q : Text) (w : env.World)
        → contains keys q ≡ false
        → at_key (delete_leftovers env sums fs d keys w).1 q ≡ at_key w q
    unfolding delete_leftovers
    delete_leftovers_frame [] q w m = refl
    delete_leftovers_frame (k ∷ keys) q w m = ground (
      arith,
      (laws.delete_object-OnlyObject d.s3 k w).object q,
      delete_leftovers_frame keys q (without k w),
    )

    module _ (ordered : (l : List Text) (q : Text) → contains (sums.order l) q ≡ contains l q)
        (paths keys : List Text) (w : env.World)
        (listed : (keys_in_destination env sums fs d w).0 ≡ ok keys) where
      abbrev after_list : env.World
      after_list = (keys_in_destination env sums fs d w).1

      abbrev pub after_uploads : env.World
      after_uploads = (sync_each env sums fs d paths keys after_list).1

      -- A run that returns no error has deleted every key that it listed under the prefix of the
      -- stage and that is not the key of one of the files.
      pub sync_deletes_leftovers :
          (q : Text)
          → contains keys q ≡ true
          → contains (targets paths) q ≡ false
          → (sync_files_to_destination env sums fs d paths w).0 ≡ ok tt
          → at_key (sync_files_to_destination env sums fs d paths w).1 q ≡ none
      unfolding sync_files_to_destination
      sync_deletes_leftovers q m absent h =
          by_uploads (sync_each env sums fs d paths keys after_list).0 refl
        where
          by_uploads :
              (r : Result (List Text))
              → (sync_each env sums fs d paths keys after_list).0 ≡ r
              → at_key (sync_files_to_destination env sums fs d paths w).1 q ≡ none
          by_uploads (err e) k = absurd (ground (arith, listed, k))
          by_uploads (ok left) k = ground (
            arith,
            listed,
            k,
            contains-sync_each paths keys left q after_list k,
            ordered left q,
            delete_leftovers_done (sums.order left) q after_uploads,
          )

      -- Whatever a run returns after the listing, its deletions leave the object at the key of
      -- every file as the uploads made it.
      pub sync_keeps_targets :
          (q : Text)
          → contains (targets paths) q ≡ true
          → at_key (sync_files_to_destination env sums fs d paths w).1 q ≡ at_key after_uploads q
      unfolding sync_files_to_destination
      sync_keeps_targets q present =
          by_uploads (sync_each env sums fs d paths keys after_list).0 refl
        where
          by_uploads :
              (r : Result (List Text))
              → (sync_each env sums fs d paths keys after_list).0 ≡ r
              → at_key (sync_files_to_destination env sums fs d paths w).1 q
                ≡ at_key after_uploads q
          by_uploads (err e) k = ground (arith, listed, k)
          by_uploads (ok left) k = ground (
            arith,
            listed,
            k,
            contains-sync_each paths keys left q after_list k,
            ordered left q,
            delete_leftovers_frame (sums.order left) q after_uploads,
          )
