-- ===== src/Langchain.antt =====
-- pkg/langchain/client.go, and the splitters of pkg/unstructured/chunking.go that call it. The
-- splitters of langchaingo and its semaphore are a parameter.
use unstructured_data_contro.Prelude.{
  ℕ, Text, length, codes, Bool, true, false, List, [], ◌∷◌, ◌==◌, nat_eq, list_eq, not,
  if◌then◌else◌, Result, err, new_error, Io, Slice, none, elements,
}

abbrev pub semaphore_acquire_error : Text
semaphore_acquire_error = codes "failed to acquire langchain semaphore"

-- pkg/langchain/client.go: textsplitter.Options
pub record Options : Type 0 where
  pub chunk_size : ℕ
  pub chunk_overlap : ℕ
  pub separators : Slice
  pub keep_separator : Bool
  pub model_name : Text
  pub encoding_name : Text
  pub allowed_special : Slice
  pub disallowed_special : Slice
  pub code_blocks : Bool
  pub reference_links : Bool
  pub keep_heading_hierarchy : Bool
  pub join_table_rows : Bool

abbrev pub no_options : Options
no_options = record {
  chunk_size = 0;
  chunk_overlap = 0;
  separators = none;
  keep_separator = false;
  model_name = [];
  encoding_name = [];
  allowed_special = none;
  disallowed_special = none;
  code_blocks = false;
  reference_links = false;
  keep_heading_hierarchy = false;
  join_table_rows = false;
}

pub data Splitter : Type 0 where
  recursive_character_splitter markdown_splitter token_splitter : Splitter

-- textsplitter.Option: what the With... functions of langchaingo make.
pub data SplitOption : Type 0 where
  with_chunk_size with_chunk_overlap : ℕ → SplitOption
  with_separators with_allowed_special with_disallowed_special : List Text → SplitOption
  with_model_name with_encoding_name : Text → SplitOption
  with_keep_separator with_code_blocks : Bool → SplitOption
  with_reference_links with_join_table_rows with_heading_hierarchy : Bool → SplitOption

abbrev pub option_if : Bool → SplitOption → List SplitOption → List SplitOption
option_if test o os = if test then o ∷ os else os

-- The options that are set, in order; LenFunc and SecondSplitter are never set.
unfoldable pub convert_options_to_option_list : Options → List SplitOption
convert_options_to_option_list o =
    option_if (not (o.chunk_size == 0)) (with_chunk_size o.chunk_size) (
      option_if (not (o.chunk_overlap == 0)) (with_chunk_overlap o.chunk_overlap) (
        option_if (not (length (elements o.separators) == 0))
          (with_separators (elements o.separators))
          (option_if o.keep_separator (with_keep_separator o.keep_separator) (
            option_if (not (o.model_name == [])) (with_model_name o.model_name) (
              option_if (not (o.encoding_name == [])) (with_encoding_name o.encoding_name) (
                option_if (not (length (elements o.allowed_special) == 0))
                  (with_allowed_special (elements o.allowed_special))
                  (option_if (not (length (elements o.disallowed_special) == 0))
                    (with_disallowed_special (elements o.disallowed_special))
                    (option_if o.code_blocks (with_code_blocks o.code_blocks) (
                      option_if o.reference_links (with_reference_links o.reference_links) (
                        option_if o.join_table_rows (with_join_table_rows o.join_table_rows) (
                          option_if o.keep_heading_hierarchy
                            (with_heading_hierarchy o.keep_heading_hierarchy) [])))))))))))

-- langchaingo's splitters, TryAcquire(1) and Release(1) of the semaphore of the client.
pub record Splitting (W : Type 0) : Type 0 where
  pub try_acquire : W → Bool × W
  pub release : W → W
  pub split_text : Splitter → List SplitOption → Text → Result (List Text)

module _ {W : Type 0} (splitting : Splitting W) where
  abbrev pub split_if : Splitter × Options → Text → Bool → Io W (List Text)
  split_if chosen text false w = (err (new_error semaphore_acquire_error), w)
  split_if chosen text true w = (
    splitting.split_text chosen.0 (convert_options_to_option_list chosen.1) text,
    splitting.release w,
  )

  -- SplitTextVia...TextSplitter: the permit is given back whatever the splitter returns.
  unfoldable pub chunk : Splitter × Options → Text → Io W (List Text)
  chunk chosen text w =
      let (acquired, w') = splitting.try_acquire w in split_if chosen text acquired w'
