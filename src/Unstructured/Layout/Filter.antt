-- ===== src/Unstructured/Layout/Filter.antt =====
-- `FilterRawFilePaths` of pkg/unstructured/file.go.
use unstructured_data_contro.Unstructured.Layout.{metadata_path, raw_among, filter_raw_file_paths}
use unstructured_data_contro.Prelude.{
  Text, codes, List, [], ◌∷◌, contains, nat_eq, list_eq, cut_suffix, cut_suffix-append,
  cut_suffix-eq-some, ◌≡◌, ◌&&◌, arith, Option-cases, inl, inr,
}

module _ (all : List Text) (q : Text) where
  contains-raw_among :
      (rest : List Text)
      → contains (raw_among all rest) q ≡ (contains all q && contains rest (metadata_path q))
  unfolding raw_among metadata_path
  contains-raw_among [] = ground arith
  contains-raw_among (p ∷ rest) = elim (Option-cases (cut_suffix p (codes ".json"))) [
    | inl e ↦ ground (arith, e, contains-raw_among rest, cut_suffix-append q (codes ".json"))
    | inr (raw, e) ↦ ground (
      arith,
      e,
      contains-raw_among rest,
      cut_suffix-append q (codes ".json"),
      cut_suffix-eq-some p (codes ".json") raw e,
    )
  ]

-- A path is kept exactly if it is listed and its metadata file is listed too.
pub contains-filter_raw_file_paths :
    (paths : List Text) (q : Text)
    → contains (filter_raw_file_paths paths) q
      ≡ (contains paths q && contains paths (metadata_path q))
unfolding filter_raw_file_paths
contains-filter_raw_file_paths paths q = contains-raw_among paths q paths
