-- ===== src/Unstructured/S3Destination/Upload.antt =====
-- The upload step of `SyncFilesToDestination` in pkg/unstructured/destination.go.
use unstructured_data_contro.Env.{Env, View, Laws}
use unstructured_data_contro.FileStore.{FileStore}
use unstructured_data_contro.Unstructured.S3Destination.{
  S3Destination, Sums, upload, upload_unless_same, upload_if_changed,
}
use unstructured_data_contro.Prelude.{
  Text, Bool, true, false, Option, none, some, Result, ok, err, ◌≡◌, refl, arith, ◌==◌, nat_eq,
  list_eq, Bool-cases, is_not_found, codes, ◌&&◌, not, inl, inr,
}

-- What HeadObject documents of the checksum that it returns: it is that of the object, if the
-- object was uploaded in one part. Of a multipart upload it need not be.
pub record ChecksumLaws {env : Env} (view : View env) (sums : Sums)
    (InOnePart : env.World → env.Handle → Text → Type 0) : Type 0 where
  pub head_checksum :
      (h : env.Handle) (k c x : Text) (w : env.World)
      → (env.head_object h k w).0 ≡ ok (some c)
      → view.object w h k ≡ some x
      → InOnePart w h k
      → c ≡ sums.sha256 x

module _ (env : Env) (view : View env) (laws : Laws env view) (sums : Sums)
    (InOnePart : env.World → env.Handle → Text → Type 0)
    (checksums : ChecksumLaws view sums InOnePart) (fs : FileStore env)
    (d : S3Destination env) where
  abbrev at_key : env.World → Text → Option Text
  at_key w k = view.object w d.s3 k

  -- The object has the checksum of the data.
  abbrev pub HasSum : env.World → Text → Text → Type 0
  HasSum w k t = (x : Text) × (at_key w k ≡ some x) × (sums.sha256 x ≡ sums.sha256 t)

  upload_done :
      (k t : Text) (w : env.World)
      → (upload env sums fs d k t w).0 ≡ ok tt
      → HasSum (upload env sums fs d k t w).1 k t
  unfolding upload
  upload_done k t w h = (t, ground (arith, laws.put_object_done d.s3 k t w), refl)

  -- If a file's upload step ends without an error, whether it uploaded the data or found it there,
  -- the bucket holds at the key of the file an object with the checksum of the data, provided that
  -- an object that was at the key before had been uploaded in one part.
  pub upload_if_changed_done :
      (k t : Text) (w : env.World)
      → InOnePart w d.s3 k
      → (upload_if_changed env sums fs d k t w).0 ≡ ok tt
      → HasSum (upload_if_changed env sums fs d k t w).1 k t
  unfolding upload_if_changed
  upload_if_changed_done k t w whole = by_head (env.head_object d.s3 k w).0 refl
    where
      asked : env.World
      asked = (env.head_object d.s3 k w).1

      unchanged : at_key asked k ≡ at_key w k
      unchanged = (laws.head_object-Same d.s3 k w).object d.s3 k

      by_head :
          (r : Result (Option Text))
          → (env.head_object d.s3 k w).0 ≡ r
          → (upload_unless_same env sums fs d k t r asked).0 ≡ ok tt
          → HasSum (upload_unless_same env sums fs d k t r asked).1 k t
      by_head (err e) q h =
          by_code (is_not_found e && not (sums.error_code e == codes "NotFound")) refl
        where
          by_code :
              (b : Bool)
              → (is_not_found e && not (sums.error_code e == codes "NotFound")) ≡ b
              → HasSum (upload_unless_same env sums fs d k t (err e) asked).1 k t
          by_code true c = absurd (ground (arith, c))
          by_code false c = rw c (upload_done k t asked (ground (arith, c)))
      by_head (ok none) q h = upload_done k t asked h
      by_head (ok (some c)) q h = by_object (at_key w k) refl
        where
          by_object :
              (o : Option Text)
              → at_key w k ≡ o
              → HasSum (upload_unless_same env sums fs d k t (ok (some c)) asked).1 k t
          by_object none e = absurd (laws.head_object_found d.s3 k (some c) w q e)
          by_object (some x) e = elim (Bool-cases (c == sums.sha256 t)) [
            | inl same ↦ (
              x,
              ground (arith, same, e, unchanged),
              ground (arith, same, checksums.head_checksum d.s3 k c x w q e whole),
            )
            | inr other ↦ rw other (upload_done k t asked (ground (arith, other)))
          ]
