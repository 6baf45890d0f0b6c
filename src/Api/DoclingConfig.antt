-- ===== src/Api/DoclingConfig.antt =====
-- `DocumentProcessorConfig` and `DoclingConfig` of api/v1alpha1/documentprocessor_types.go, with
-- their defaults. A slice is a list (a nil slice and an empty one are not told apart), a pointer
-- an option, a map of headers a list of pairs.
pub mod Defaults
pub mod Sample
use native.Mathlib.Decide.{ℕ_discrete}
use unstructured_data_contro.Prelude.{
  ℕ, Text, codes, Bool, true, false, Option, none, some, List, [], ◌∷◌, ◌==◌, Eq, nat_eq, list_eq,
  option_eq, if◌then◌else◌,
}

pub record PictureDescriptionApiParams : Type 0 where
  pub model : Text
  pub max_tokens : ℕ

pub record PictureDescriptionApi : Type 0 where
  pub url : Text
  pub params : PictureDescriptionApiParams
  pub prompt : Text
  pub timeout : Text
  pub concurrency : ℕ
  pub headers : List (Text × Text)

pub record DoclingConfig : Type 0 where
  pub from_formats : List Text
  pub to_formats : List Text
  pub image_export_mode : Text
  pub do_ocr : Bool
  pub force_ocr : Bool
  pub ocr_engine : Text
  pub ocr_lang : List Text
  pub ocr_preset : Text
  pub pdf_backend : Text
  pub pipeline : Text
  pub table_mode : Text
  pub table_cell_matching : Option Bool
  pub do_table_structure : Option Bool
  pub include_images : Option Bool
  pub images_scale : Text
  pub do_code_enrichment : Bool
  pub do_formula_enrichment : Bool
  pub do_picture_classification : Option Bool
  pub do_picture_description : Option Bool
  pub do_chart_extraction : Bool
  pub picture_description_api : Option PictureDescriptionApi
  pub picture_description_area_threshold : Text
  pub document_timeout : Text
  pub page_range : List ℕ
  pub md_page_break_placeholder : Text
  pub abort_on_error : Bool

pub record DocumentProcessorConfig : Type 0 where
  pub type : Text
  pub docling_config : DoclingConfig

abbrev pub default_from_formats : List Text
default_from_formats =
    codes "docx"
    ∷ codes "pptx"
    ∷ codes "html"
    ∷ codes "image"
    ∷ codes "pdf"
    ∷ codes "asciidoc"
    ∷ codes "md"
    ∷ codes "csv"
    ∷ codes "xlsx"
    ∷ []

-- if len(x) == 0 { x = d }
abbrev pub or_list : List Text → List Text → List Text
or_list [] d = d
or_list (x ∷ xs) d = x ∷ xs

-- if x == "" { x = d }
abbrev pub or_text : Text → Text → Text
or_text [] d = d
or_text (c ∷ cs) d = c ∷ cs

-- if x == 0 { x = d }
abbrev pub or_number : ℕ → ℕ → ℕ
or_number x d = if x == 0 then d else x

-- if x == nil { x = boolPtr(true) }
abbrev pub or_true : Option Bool → Option Bool
or_true none = some true
or_true (some b) = some b

abbrev pub empty_api : PictureDescriptionApi
empty_api = record {
  url = [];
  params = record { model = []; max_tokens = 0 };
  prompt = [];
  timeout = [];
  concurrency = 0;
  headers = [];
}

abbrev pub api_defaults : Text → PictureDescriptionApi → PictureDescriptionApi
api_defaults prompt api = record api {
  params = record {
    model = or_text api.params.model (codes "qwen3-8-27b-fp8");
    max_tokens = or_number api.params.max_tokens 4096;
  };
  prompt = or_text api.prompt prompt;
  timeout = or_text api.timeout (codes "60");
  concurrency = or_number api.concurrency 5;
}

-- The block under `if *c.DoPictureDescription`.
abbrev pub described :
    Text → Option Bool → Option PictureDescriptionApi → Option PictureDescriptionApi
described prompt (some true) none = some (api_defaults prompt empty_api)
described prompt (some true) (some api) = some (api_defaults prompt api)
described prompt b api = api

-- `prompt` is DefaultPictureDescPrompt.
unfoldable pub set_docling_defaults : Text → DoclingConfig → DoclingConfig
set_docling_defaults prompt c = record c {
  from_formats = or_list c.from_formats default_from_formats;
  to_formats = or_list c.to_formats (codes "md" ∷ []);
  image_export_mode = or_text c.image_export_mode (codes "embedded");
  ocr_preset = or_text c.ocr_preset (codes "auto");
  pdf_backend = or_text c.pdf_backend (codes "docling_parse");
  pipeline = or_text c.pipeline (codes "standard");
  table_mode = or_text c.table_mode (codes "accurate");
  table_cell_matching = or_true c.table_cell_matching;
  do_table_structure = or_true c.do_table_structure;
  include_images = or_true c.include_images;
  images_scale = or_text c.images_scale (codes "2.0");
  do_picture_description = or_true c.do_picture_description;
  do_picture_classification = or_true c.do_picture_classification;
  picture_description_api =
      described prompt (or_true c.do_picture_description) c.picture_description_api;
}

unfoldable pub set_defaults : Text → DocumentProcessorConfig → DocumentProcessorConfig
set_defaults prompt c = record {
  type = or_text c.type (codes "docling");
  docling_config = set_docling_defaults prompt c.docling_config;
}

docling_config_dec : Discrete DoclingConfig
docling_config_dec = hlevel ℕ_discrete

-- cmp.Equal of two configurations.
instance unfoldable pub docling_config_eq : Eq DoclingConfig
unfolding docling_config_dec
docling_config_eq = record { dec = docling_config_dec }
