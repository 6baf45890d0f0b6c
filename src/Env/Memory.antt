-- ===== src/Env/Memory.antt =====
-- A world in memory that has the laws: one bucket, which can be out of reach, and a disk whose
-- files are found by their cleaned paths. Tests and instances run in it.
use unstructured_data_contro.GoPath.{clean}
use unstructured_data_contro.Env.{Env, Object, View, Same, OnlyFile, OnlyObject, Laws}
use unstructured_data_contro.Prelude.{
  Text, codes, Bool, false, Option, none, some, List, [], ◌∷◌, Result, ok, err, Error, not_exist,
  not_found, new_error, Io, refl, arith, ◌==◌, nat_eq, list_eq, contains, if◌then◌else◌, has_prefix,
  length,
}

pub record Memory : Type 0 where
  pub files : Text → Option Text
  pub objects : Text → Option Text
  -- the keys that were ever put, newest first
  pub keys : List Text
  pub reachable : Bool

abbrev pub update : (Text → Option Text) → Text → Option Text → Text → Option Text
update f k v q = if q == k then v else f q

abbrev absent : Error
absent = record { kind = not_exist; message = codes "no such file or directory" }

abbrev missing : Error
missing = record { kind = not_found; message = codes "NotFound" }

abbrev unreachable : Error
unreachable = new_error (codes "connection refused")

abbrev or_error {ℓ} : {A : Type ℓ} → Error → Option A → Result A
or_error e none = err e
or_error e (some a) = ok a

module _ {A : Type 0} where
  -- A call of S3.
  abbrev online : Io Memory A → Io Memory A
  online m w = if w.reachable then m w else (err unreachable, w)

abbrev add_key : Text → List Text → List Text
add_key k keys = if contains keys k then keys else k ∷ keys

abbrev listing : (Text → Option Text) → Text → List Text → List Object
listing objects prefix [] = []
listing objects prefix (k ∷ keys) =
    let rest = listing objects prefix keys in
    if has_prefix k prefix
    then elim (objects k) [
      | none ↦ rest
      | some d ↦ record { key = k; size = some (length d); etag = d } ∷ rest
    ]
    else rest

abbrev pub memory : Env
memory = record {
  World = Memory;
  Handle = Unit {0};
  mkdir_all = λ p w. (ok tt, w);
  write_file = λ p d w. (ok tt, record w { files = update w.files (clean p) (some d) });
  remove = λ p w. elim (w.files (clean p)) [
    | none ↦ (err absent, w)
    | some d ↦ (ok tt, record w { files = update w.files (clean p) none })
  ];
  stat = λ p w. elim (w.files (clean p)) [ none ↦ (err absent, w) | some d ↦ (ok false, w) ];
  read_file = λ p w. (or_error absent (w.files (clean p)), w);
  put_object = λ h k d.
      online
        (λ w. (ok tt, record w { objects = update w.objects k (some d); keys = add_key k w.keys }));
  get_object = λ h k. online (λ w. (or_error missing (w.objects k), w));
  head_object = λ h k.
      online (λ w. elim (w.objects k) [ none ↦ (err missing, w) | some d ↦ (ok (some d), w) ]);
  delete_object = λ h k. online (λ w. (ok tt, record w { objects = update w.objects k none }));
  list_pages = λ h prefix w.
      if w.reachable
      then (ok (listing w.objects prefix w.keys) ∷ [], w)
      else (err unreachable ∷ [], w);
  presign = λ h k minutes. online (λ w. (ok (codes "https://s3/"), w));
}

abbrev pub memory_view : View memory
memory_view = record { disk = λ w p. w.files (clean p); object = λ w h k. w.objects k }

module _ (w : Memory) where
  Same-self : Same memory_view w w
  Same-self = record { disk = λ q. refl; object = λ h k. refl }

  write-OnlyFile :
      (p : Text) (v : Option Text)
      → OnlyFile memory_view p w (record w { files = update w.files (clean p) v })
  write-OnlyFile p v = record { disk = λ q ne. ground arith; object = λ h k. refl }

  remove-OnlyFile : (p : Text) → OnlyFile memory_view p w (memory.remove p w).1
  remove-OnlyFile p = record { disk = λ q ne. ground arith; object = λ h k. ground arith }

  put-OnlyObject : (k d : Text) → OnlyObject memory_view tt k w (memory.put_object tt k d w).1
  put-OnlyObject k d = record { disk = λ q. ground arith; object = λ j ne. ground arith }

  delete-OnlyObject : (k : Text) → OnlyObject memory_view tt k w (memory.delete_object tt k w).1
  delete-OnlyObject k = record { disk = λ q. ground arith; object = λ j ne. ground arith }

pub memory-Laws : Laws memory memory_view
memory-Laws = record {
  mkdir_all-Same = λ p w. Same-self w;
  write_file-OnlyFile = λ p d w. write-OnlyFile w p (some d);
  write_file_done = λ p d w h. ground arith;
  remove-OnlyFile = λ p w. remove-OnlyFile w p;
  remove_or_kept = λ p w. ground arith;
  remove_done = λ p w h. ground arith;
  remove_absent = λ p e w h k. ground arith;
  stat-Same = λ p w. record { disk = λ q. ground arith; object = λ h k. ground arith };
  stat_file = λ p w h. ground arith;
  stat_absent = λ p e w h k. ground arith;
  read_file-Same = λ p w. Same-self w;
  read_file_done = λ p d w h. ground arith;
  put_object-OnlyObject = λ h k d w. put-OnlyObject w k d;
  put_object_done = λ h k d w e. ground arith;
  get_object-Same = λ h k w. record { disk = λ q. ground arith; object = λ g j. ground arith };
  get_object_done = λ h k d w e. ground arith;
  head_object-Same = λ h k w. record { disk = λ q. ground arith; object = λ g j. ground arith };
  head_object_found = λ h k c w e. ground arith;
  head_object_absent = λ h k e w p q. ground arith;
  delete_object-OnlyObject = λ h k w. delete-OnlyObject w k;
  delete_object_or_kept = λ h k w. ground arith;
  delete_object_done = λ h k w e. ground arith;
  list_pages-Same = λ h p w. record { disk = λ q. ground arith; object = λ g j. ground arith };
}
