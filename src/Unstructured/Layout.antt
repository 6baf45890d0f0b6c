-- ===== src/Unstructured/Layout.antt =====
-- pkg/unstructured/file.go: where the files of a stage stand, and which of them are raw files.
pub mod Filter
use unstructured_data_contro.GoPath.{join}
use unstructured_data_contro.Prelude.{
  Text, codes, none, some, List, [], ◌∷◌, ◌++◌, if◌then◌else◌, contains, nat_eq, list_eq,
  cut_suffix, trim_prefix,
}

pub record RawFileMetadata : Type 0 where
  pub file_path : Text
  pub uid : Text

unfoldable pub stage_path : Text → Text → Text
stage_path pipeline stage =
    join (codes "pipelines" ∷ pipeline ∷ codes "stages" ∷ stage ∷ []) ++ codes "/"

unfoldable pub remap_to_output_dir : Text → Text → Text → Text
remap_to_output_dir file_path input_dir output_dir =
    join (output_dir ∷ trim_prefix file_path input_dir ∷ [])

unfoldable pub metadata_path : Text → Text
metadata_path raw = raw ++ codes ".json"

unfoldable pub permissions_path : Text → Text
permissions_path raw = raw ++ codes ".permissions.json"

-- The loop of FilterRawFilePaths over `rest`, a part of the paths `all`.
raw_among : List Text → List Text → List Text
raw_among all [] = []
raw_among all (p ∷ rest) =
    let raws = raw_among all rest in
    elim (cut_suffix p (codes ".json")) [
      | none ↦ raws
      | some raw ↦ if contains all raw then raw ∷ raws else raws
    ]

unfoldable pub filter_raw_file_paths : List Text → List Text
unfolding raw_among
filter_raw_file_paths paths = raw_among paths paths
