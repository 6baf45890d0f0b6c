-- ===== src/Api/ChunksGenerator.antt =====
-- `ChunksGenerator` of api/v1alpha1/chunksgenerator_types.go.
use native.Mathlib.Decide.{ℕ_discrete}
use unstructured_data_contro.Api.Condition.{
  Condition, put_condition, waiting, outcome_condition, applied_generation,
}
use unstructured_data_contro.Api.DocumentProcessor.{OwnerReference}
use unstructured_data_contro.Prelude.{
  ℕ, ◌+◌, Text, codes, Option, Bool, List, [], ◌==◌, Eq, nat_eq, list_eq, if◌then◌else◌, Error,
  Slice, omit_empty,
}

pub record RecursiveCharacterSplitterConfig : Type 0 where
  pub separators : Slice
  pub chunk_size : ℕ
  pub chunk_overlap : ℕ
  pub keep_separator : Bool

pub record MarkdownSplitterConfig : Type 0 where
  pub chunk_size : ℕ
  pub chunk_overlap : ℕ
  pub code_blocks : Bool
  pub reference_links : Bool
  pub heading_hierarchy : Bool
  pub join_table_rows : Bool

pub record TokenSplitterConfig : Type 0 where
  pub chunk_size : ℕ
  pub chunk_overlap : ℕ
  pub model_name : Text
  pub encoding_name : Text
  pub allowed_special : Slice
  pub disallowed_special : Slice

pub record ChunksGeneratorConfig : Type 0 where
  pub strategy : Text
  pub recursive_character_splitter_config : RecursiveCharacterSplitterConfig
  pub markdown_splitter_config : MarkdownSplitterConfig
  pub token_splitter_config : TokenSplitterConfig

-- What is read back of a configuration that encoding/json has written.
abbrev pub config_as_encoded : ChunksGeneratorConfig → ChunksGeneratorConfig
config_as_encoded c =
    let r = c.recursive_character_splitter_config in
    let t = c.token_splitter_config in
    record c {
      recursive_character_splitter_config = record r { separators = omit_empty r.separators };
      token_splitter_config = record t {
        allowed_special = omit_empty t.allowed_special;
        disallowed_special = omit_empty t.disallowed_special;
      };
    }

abbrev pub recursive_character : Text
recursive_character = codes "recursiveCharacterTextSplitter"

abbrev pub markdown : Text
markdown = codes "markdownTextSplitter"

abbrev pub token : Text
token = codes "tokenTextSplitter"

-- if x == 0 { x = d }
abbrev or_default : ℕ → ℕ → ℕ
or_default d x = if x == 0 then d else x

-- The switch of SetDefaults: the sizes of the chosen splitter alone.
abbrev with_sizes : ChunksGeneratorConfig → ChunksGeneratorConfig
with_sizes c =
    if c.strategy == recursive_character
    then (let r = c.recursive_character_splitter_config in
        record c {
          recursive_character_splitter_config = record r {
            chunk_size = or_default 1000 r.chunk_size;
            chunk_overlap = or_default 200 r.chunk_overlap;
          };
        })
    else if c.strategy == markdown
    then (let m = c.markdown_splitter_config in
        record c {
          markdown_splitter_config = record m {
            chunk_size = or_default 1000 m.chunk_size;
            chunk_overlap = or_default 200 m.chunk_overlap;
          };
        })
    else if c.strategy == token
    then (let t = c.token_splitter_config in
        record c {
          token_splitter_config = record t {
            chunk_size = or_default 1000 t.chunk_size;
            chunk_overlap = or_default 200 t.chunk_overlap;
          };
        })
    else c

unfoldable pub set_defaults : ChunksGeneratorConfig → ChunksGeneratorConfig
set_defaults c =
    with_sizes
      (record c { strategy = if c.strategy == [] then recursive_character else c.strategy })

chunks_generator_config_dec : Discrete ChunksGeneratorConfig
chunks_generator_config_dec = hlevel ℕ_discrete

-- cmp.Equal of two configurations.
instance unfoldable pub chunks_generator_config_eq : Eq ChunksGeneratorConfig
unfolding chunks_generator_config_dec
chunks_generator_config_eq = record { dec = chunks_generator_config_dec }

pub record ChunksGeneratorStatus : Type 0 where
  pub last_applied_generation : ℕ
  pub conditions : List Condition
  pub files_processed : ℕ

pub record ChunksGenerator : Type 0 where
  pub name : Text
  pub namespace : Text
  pub owner_references : List OwnerReference
  pub generation : ℕ
  pub stage_name : Text
  pub depends_on : List Text
  pub config : ChunksGeneratorConfig
  pub status : ChunksGeneratorStatus

abbrev pub chunks_generator_condition : Text
chunks_generator_condition = codes "ChunksGeneratorReady"

unfoldable pub set_waiting : ChunksGenerator → ChunksGenerator
set_waiting c = record c {
  status = record c.status {
    conditions =
        put_condition
          (waiting chunks_generator_condition (codes "ChunksGenerator is getting reconciled"))
          c.status.conditions;
  };
}

unfoldable pub update_status : Text → Option Error → ChunksGenerator → ChunksGenerator
update_status message e c = record c {
  status = record c.status {
    last_applied_generation = applied_generation c.generation c.status.last_applied_generation e;
    conditions =
        put_condition (outcome_condition chunks_generator_condition message e) c.status.conditions;
  };
}

-- Status.FilesProcessed += n
abbrev pub add_files_processed : ℕ → ChunksGenerator → ChunksGenerator
add_files_processed n c = record c {
  status = record c.status { files_processed = c.status.files_processed + n };
}
