-- ===== src/Env.antt =====
-- The world outside the program: the calls of the package os on the data directory, and of the S3
-- client that pkg/awsclienthandler wraps. Nothing of it is in the repository, so it is a
-- parameter: `Env` is what the code calls, `Laws` what it relies on.
pub mod Memory
use unstructured_data_contro.GoPath.{clean}
use unstructured_data_contro.Prelude.{
  ℕ, Text, Bool, true, false, Option, none, some, List, Result, ok, err, Error, is_not_exist,
  is_missing, Io, ◌≡◌, ◌≢◌, ◌⊎◌,
}

-- An element of a ListObjectsV2 page: s3types.Object.
pub record Object : Type 0 where
  pub key : Text
  pub size : Option ℕ
  pub etag : Text

pub record Env : Type 1 where
  pub World : Type 0
  -- an S3 client together with a bucket
  pub Handle : Type 0
  -- os.MkdirAll, os.WriteFile, os.Remove, os.ReadFile; os.Stat gives info.IsDir()
  pub mkdir_all : Text → Io World (Unit {0})
  pub write_file : Text → Text → Io World (Unit {0})
  pub remove : Text → Io World (Unit {0})
  pub stat : Text → Io World Bool
  pub read_file : Text → Io World Text
  -- PutObject, GetObject with io.ReadAll of its body, HeadObject with the checksum, DeleteObject
  pub put_object : Handle → Text → Text → Io World (Unit {0})
  pub get_object : Handle → Text → Io World Text
  pub head_object : Handle → Text → Io World (Option Text)
  pub delete_object : Handle → Text → Io World (Unit {0})
  -- the pages of a ListObjectsV2 paginator, in order
  pub list_pages : Handle → Text → World → List (Result (List Object)) × World
  -- PresignGetObject with an expiry in minutes
  pub presign : Handle → Text → ℕ → Io World Text

-- What an observer sees: the content of the regular file at a path, and of the object at a key.
pub record View (env : Env) : Type 0 where
  pub disk : env.World → Text → Option Text
  pub object : env.World → env.Handle → Text → Option Text

-- A call changed nothing that can be seen.
pub record Same {env : Env} (view : View env) (v w : env.World) : Type 0 where
  pub disk : (q : Text) → view.disk w q ≡ view.disk v q
  pub object : (h : env.Handle) (k : Text) → view.object w h k ≡ view.object v h k

-- A call changed at most the file at `p`.
pub record OnlyFile {env : Env} (view : View env) (p : Text) (v w : env.World) : Type 0 where
  pub disk : (q : Text) → clean q ≢ clean p → view.disk w q ≡ view.disk v q
  pub object : (h : env.Handle) (k : Text) → view.object w h k ≡ view.object v h k

-- A call changed at most the object at `k`.
pub record OnlyObject {env : Env} (view : View env) (h : env.Handle) (k : Text) (v w : env.World)
    : Type 0 where
  pub disk : (q : Text) → view.disk w q ≡ view.disk v q
  pub object : (j : Text) → j ≢ k → view.object w h j ≡ view.object v h j

-- The documented effects. A write, an upload or a deletion that fails may have happened or not;
-- a failed os.WriteFile may also leave a part of the data.
pub record Laws (env : Env) (view : View env) : Type 0 where
  pub mkdir_all-Same : (p : Text) (w : env.World) → Same view w (env.mkdir_all p w).1
  pub write_file-OnlyFile :
      (p d : Text) (w : env.World) → OnlyFile view p w (env.write_file p d w).1
  pub write_file_done :
      (p d : Text) (w : env.World)
      → (env.write_file p d w).0 ≡ ok tt
      → view.disk (env.write_file p d w).1 p ≡ some d
  pub remove-OnlyFile : (p : Text) (w : env.World) → OnlyFile view p w (env.remove p w).1
  pub remove_or_kept :
      (p : Text) (w : env.World)
      → (view.disk (env.remove p w).1 p ≡ none) ⊎ (view.disk (env.remove p w).1 p ≡ view.disk w p)
  pub remove_done :
      (p : Text) (w : env.World)
      → (env.remove p w).0 ≡ ok tt
      → view.disk (env.remove p w).1 p ≡ none
  pub remove_absent :
      (p : Text) (e : Error) (w : env.World)
      → (env.remove p w).0 ≡ err e
      → is_not_exist e ≡ true
      → view.disk (env.remove p w).1 p ≡ none
  pub stat-Same : (p : Text) (w : env.World) → Same view w (env.stat p w).1
  pub stat_file : (p : Text) (w : env.World) → (env.stat p w).0 ≡ ok false → view.disk w p ≢ none
  pub stat_absent :
      (p : Text) (e : Error) (w : env.World)
      → (env.stat p w).0 ≡ err e
      → is_not_exist e ≡ true
      → view.disk w p ≡ none
  pub read_file-Same : (p : Text) (w : env.World) → Same view w (env.read_file p w).1
  pub read_file_done :
      (p d : Text) (w : env.World) → (env.read_file p w).0 ≡ ok d → view.disk w p ≡ some d
  pub put_object-OnlyObject :
      (h : env.Handle) (k d : Text) (w : env.World)
      → OnlyObject view h k w (env.put_object h k d w).1
  pub put_object_done :
      (h : env.Handle) (k d : Text) (w : env.World)
      → (env.put_object h k d w).0 ≡ ok tt
      → view.object (env.put_object h k d w).1 h k ≡ some d
  pub get_object-Same :
      (h : env.Handle) (k : Text) (w : env.World) → Same view w (env.get_object h k w).1
  pub get_object_done :
      (h : env.Handle) (k d : Text) (w : env.World)
      → (env.get_object h k w).0 ≡ ok d
      → view.object w h k ≡ some d
  pub head_object-Same :
      (h : env.Handle) (k : Text) (w : env.World) → Same view w (env.head_object h k w).1
  pub head_object_found :
      (h : env.Handle) (k : Text) (c : Option Text) (w : env.World)
      → (env.head_object h k w).0 ≡ ok c
      → view.object w h k ≢ none
  pub head_object_absent :
      (h : env.Handle) (k : Text) (e : Error) (w : env.World)
      → (env.head_object h k w).0 ≡ err e
      → is_missing e ≡ true
      → view.object w h k ≡ none
  pub delete_object-OnlyObject :
      (h : env.Handle) (k : Text) (w : env.World)
      → OnlyObject view h k w (env.delete_object h k w).1
  pub delete_object_or_kept :
      (h : env.Handle) (k : Text) (w : env.World)
      → (view.object (env.delete_object h k w).1 h k ≡ none)
        ⊎ (view.object (env.delete_object h k w).1 h k ≡ view.object w h k)
  pub delete_object_done :
      (h : env.Handle) (k : Text) (w : env.World)
      → (env.delete_object h k w).0 ≡ ok tt
      → view.object (env.delete_object h k w).1 h k ≡ none
  pub list_pages-Same :
      (h : env.Handle) (prefix : Text) (w : env.World) → Same view w (env.list_pages h prefix w).1
