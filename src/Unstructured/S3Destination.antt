-- ===== src/Unstructured/S3Destination.antt =====
-- `S3Destination` of pkg/unstructured/destination.go: files of the store are uploaded under
-- prefix/stages/<stage>/ of a bucket, and what is there and no longer in the store is deleted.
pub mod Upload
pub mod Leftovers
mod Tests
use unstructured_data_contro.GoPath.{join}
use unstructured_data_contro.Env.{Env, Object}
use unstructured_data_contro.FileStore.{FileStore, append_pages, retrieve}
use unstructured_data_contro.Prelude.{
  Text, codes, Bool, true, false, Option, none, some, List, [], ◌∷◌, ◌++◌, ◌==◌, ◌&&◌, not, nat_eq,
  list_eq, if◌then◌else◌, contains, after_first, Result, ok, err, Error, is_not_found, wrap, Io,
  pure, raise, attempt, ◌>>=◌, ◌>>◌,
}

pub record S3Destination (env : Env) : Type 0 where
  -- the client with the bucket, and the bucket's name
  pub s3 : env.Handle
  pub bucket : Text
  pub prefix : Text
  pub stage_name : Text

-- What is computed outside the program: the base64 text of a SHA-256 sum, the code of an AWS
-- error, the order in which Go ranges over the keys of a map, and a text as `%q` prints it.
pub record Sums : Type 0 where
  pub sha256 : Text → Text
  pub error_code : Error → Text
  pub order : List Text → List Text
  pub quote : Text → Text

-- keysInDestination[k] = true
abbrev pub add_key : Text → List Text → List Text
add_key k keys = if contains keys k then keys else keys ++ k ∷ []

abbrev pub add_keys : List Object → List Text → List Text
add_keys [] keys = keys
add_keys (o ∷ objects) keys = add_keys objects (add_key o.key keys)

-- delete(keysInDestination, key)
unfoldable pub drop_key : Text → List Text → List Text
drop_key k [] = []
drop_key k (j ∷ keys) = let rest = drop_key k keys in if j == k then rest else j ∷ rest

module _ (env : Env) (sums : Sums) (fs : FileStore env) (d : S3Destination env) where
  open env use {World}

  abbrev marker : Text
  marker = codes "stages/" ++ d.stage_name ++ codes "/"

  -- The path relative to the directory of the stage.
  abbrev relative : Text → Text
  relative path = elim (after_first path marker) [ none ↦ path | some rel ↦ rel ]

  unfoldable pub s3_key : Text → Text
  s3_key path = join (d.prefix ∷ codes "stages" ∷ d.stage_name ∷ relative path ∷ [])

  abbrev dest_prefix : Text
  dest_prefix = join (d.prefix ∷ codes "stages" ∷ d.stage_name ∷ []) ++ codes "/"

  abbrev keys_of : Result (List Object) → Io World (List Text)
  keys_of (ok objects) = pure (add_keys objects [])
  keys_of (err e) = raise (
      wrap
        (codes "list objects s3://"
          ++ d.bucket
          ++ codes " prefix "
          ++ sums.quote dest_prefix
          ++ codes ": ")
        e)

  unfoldable pub keys_in_destination : Io World (List Text)
  keys_in_destination w =
      let (pages, w') = env.list_pages d.s3 dest_prefix w in keys_of (append_pages [] pages) w'

  abbrev labelled : {A : Type 0} → Text → Result A → Io World A
  labelled label (ok a) = pure a
  labelled label (err e) = raise (wrap label e)

  unfoldable pub upload : Text → Text → Io World (Unit {0})
  upload key bytes = do
    put ← attempt (env.put_object d.s3 key bytes)
    labelled (codes "put object s3://" ++ d.bucket ++ codes "/" ++ key ++ codes ": ") put

  -- An object with the same checksum is not uploaded again. Of the errors of HeadObject only a
  -- NotFound with another code ends the run.
  abbrev pub upload_unless_same : Text → Text → Result (Option Text) → Io World (Unit {0})
  upload_unless_same key bytes (err e) =
      if is_not_found e && not (sums.error_code e == codes "NotFound")
      then raise e
      else upload key bytes
  upload_unless_same key bytes (ok none) = upload key bytes
  upload_unless_same key bytes (ok (some sum)) =
      if sum == sums.sha256 bytes then pure tt else upload key bytes

  unfoldable pub upload_if_changed : Text → Text → Io World (Unit {0})
  upload_if_changed key bytes = do
    head ← attempt (env.head_object d.s3 key)
    upload_unless_same key bytes head

  -- One file: its data goes to its key.
  unfoldable pub sync_file : Text → Io World (Unit {0})
  sync_file path = do
    got ← attempt (retrieve env fs path)
    bytes ← labelled (codes "retrieve " ++ path ++ codes ": ") got
    upload_if_changed (s3_key path) bytes

  -- The loop over the files: what is left of the keys.
  unfoldable pub sync_each : List Text → List Text → Io World (List Text)
  sync_each [] keys = pure keys
  sync_each (path ∷ paths) keys = do sync_file path; sync_each paths (drop_key (s3_key path) keys)

  unfoldable pub delete_leftovers : List Text → Io World (Unit {0})
  delete_leftovers [] = pure tt
  delete_leftovers (key ∷ keys) = do
    gone ← attempt (env.delete_object d.s3 key)
    labelled (codes "delete object s3://" ++ d.bucket ++ codes "/" ++ key ++ codes ": ") gone
    delete_leftovers keys

  unfoldable pub sync_files_to_destination : List Text → Io World (Unit {0})
  sync_files_to_destination paths = do
    keys ← keys_in_destination
    left ← sync_each paths keys
    delete_leftovers (sums.order left)
