-- ===== src/Unstructured/S3Source/Sweep.antt =====
-- The garbage collection of `S3BucketSource` in pkg/unstructured/source.go, file by file.
use unstructured_data_contro.Env.{Env, View, Laws}
use unstructured_data_contro.FileStore.{FileStore, delete}
use unstructured_data_contro.FileStore.Coherence.{delete_done}
use unstructured_data_contro.FileStore.Contents
use unstructured_data_contro.Unstructured.Codec.{Codec}
use unstructured_data_contro.Unstructured.Layout.{RawFileMetadata}
use unstructured_data_contro.Unstructured.S3Source.{set_error, raw_file_path, sweep_result, sweep}
use unstructured_data_contro.Prelude.{
  Text, Option, none, true, false, List, [], ◌∷◌, contains, nat_eq, list_eq, ◌==◌, Result, ok, err,
  Error, ◌≡◌, ◌≢◌, arith, refl, Bool-cases, inl, inr,
}

set_error-ne-nil : (p : Text) (e : Error) (l : List (Text × Error)) → set_error p e l ≢ []
unfolding set_error
set_error-ne-nil p e [] h = cc
set_error-ne-nil p e ((q, x) ∷ l) h = ground arith

module _ (env : Env) (view : View env) (laws : Laws env view) (fs : FileStore env) where
  abbrev pub in_s3 : env.World → Text → Option Text
  in_s3 w p = view.object w fs.s3 p

  abbrev after_remove : Text → env.World → env.World
  after_remove q w = (env.remove (Contents.local env view laws fs q) w).1

  -- Delete leaves the other objects as they are.
  pub delete_other :
      (q p : Text) (w : env.World) → p ≢ q → in_s3 (delete env fs q w).1 p ≡ in_s3 w p
  unfolding delete
  delete_other q p w ne = ground (
    arith,
    (laws.remove-OnlyFile (Contents.local env view laws fs q) w).object fs.s3 p,
    (laws.delete_object-OnlyObject fs.s3 q (after_remove q w)).object p ne,
  )

  -- What is gone stays gone.
  delete_gone :
      (q p : Text) (w : env.World) → in_s3 w p ≡ none → in_s3 (delete env fs q w).1 p ≡ none
  unfolding delete
  delete_gone q p w h = elim (Bool-cases (p == q)) [
    | inl e ↦ ground (
      arith,
      (laws.remove-OnlyFile (Contents.local env view laws fs q) w).object fs.s3 p,
      laws.delete_object_or_kept fs.s3 q (after_remove q w),
    )
    | inr e ↦ ground (arith, delete_other q p w)
  ]

  module _ (json : Codec RawFileMetadata) (source : List Text) where
    abbrev swept : List Text → List (Text × Error) → env.World → List (Text × Error) × env.World
    swept = sweep env json fs source

    sweep_result-eq-nil :
        (f : Text) (r : Result (Unit {0})) (errors : List (Text × Error))
        → sweep_result env json fs f r errors ≡ []
        → (r ≡ ok tt) × (errors ≡ [])
    sweep_result-eq-nil f (ok t) errors h = (refl, h)
    sweep_result-eq-nil f (err e) errors h = absurd (set_error-ne-nil f e errors h)

    abbrev errors_after : Text → List (Text × Error) → env.World → List (Text × Error)
    errors_after f errors w = sweep_result env json fs f (delete env fs f w).0 errors

    sweep_gone :
        (files : List Text) (q : Text) (errors : List (Text × Error)) (w : env.World)
        → in_s3 w q ≡ none
        → in_s3 (swept files errors w).1 q ≡ none
    unfolding sweep
    sweep_gone [] q errors w h = h
    sweep_gone (f ∷ files) q errors w h = ground (
      arith,
      sweep_gone files q errors w h,
      sweep_gone files q (errors_after f errors w) (delete env fs f w).1 (delete_gone f q w h),
    )

    -- An error is never taken off the list.
    sweep-eq-nil :
        (files : List Text) (errors : List (Text × Error)) (w : env.World)
        → (swept files errors w).0 ≡ []
        → errors ≡ []
    unfolding sweep
    sweep-eq-nil [] errors w h = h
    sweep-eq-nil (f ∷ files) errors w h = ground (
      arith,
      sweep-eq-nil files errors w,
      sweep-eq-nil files (errors_after f errors w) (delete env fs f w).1,
      sweep_result-eq-nil f (delete env fs f w).0 errors,
    )

    -- If the sweep ends without an error, every listed file whose raw file is not in the source is
    -- gone from the bucket.
    pub sweep_deletes :
        (files : List Text) (q : Text) (errors : List (Text × Error)) (w : env.World)
        → contains files q ≡ true
        → contains source (raw_file_path q) ≡ false
        → (swept files errors w).0 ≡ []
        → in_s3 (swept files errors w).1 q ≡ none
    unfolding sweep
    sweep_deletes [] q errors w m h e = cc
    sweep_deletes (f ∷ files) q errors w m h e = ground (
      arith,
      sweep_deletes files q errors w,
      sweep_deletes files q (errors_after f errors w) (delete env fs f w).1,
      sweep-eq-nil files (errors_after f errors w) (delete env fs f w).1,
      sweep_result-eq-nil f (delete env fs f w).0 errors,
      delete_done env view laws fs f w,
      sweep_gone files f (errors_after f errors w) (delete env fs f w).1,
    )

    -- The sweep leaves every object whose raw file is in the source as it is.
    pub sweep_keeps :
        (files : List Text) (q : Text) (errors : List (Text × Error)) (w : env.World)
        → contains source (raw_file_path q) ≡ true
        → in_s3 (swept files errors w).1 q ≡ in_s3 w q
    unfolding sweep
    sweep_keeps [] q errors w h = refl
    sweep_keeps (f ∷ files) q errors w h = ground (
      arith,
      sweep_keeps files q errors w h,
      sweep_keeps files q (errors_after f errors w) (delete env fs f w).1 h,
      delete_other f q w,
    )
