-- ===== src/Controller/Wire.antt =====
-- The wire form of a document processor's configuration: the literal of docling.DoclingConfig in
-- internal/controller/documentprocessor_controller.go, copyHeaders, convertPictureDescriptionAPI
-- and parseFloat64Ptr. Floating-point numbers and strconv.ParseFloat are parameters.
use unstructured_data_contro.Api.DoclingConfig
use unstructured_data_contro.Api.DoclingConfig.{DoclingConfig}
use unstructured_data_contro.Prelude.{
  ℕ, Text, codes, Bool, false, Option, none, some, List, [], ◌∷◌, ◌++◌, ◌==◌, nat_eq, list_eq,
  if◌then◌else◌, trim_space,
}

pub record Floats : Type 1 where
  pub Float : Type 0
  pub zero_float : Float
  pub parse : Text → Option Float

module _ (floats : Floats) where
  open floats use {Float, zero_float, parse}

  pub record WirePictureDescriptionApi : Type 0 where
    pub url : Text
    pub model : Text
    pub max_tokens : ℕ
    pub prompt : Text
    pub timeout : Float
    pub concurrency : ℕ
    pub headers : List (Text × Text)

  pub record WireConfig : Type 0 where
    pub from_formats : List Text
    pub to_formats : List Text
    pub image_export_mode : Text
    pub do_ocr : Bool
    pub force_ocr : Bool
    pub ocr_engine : Text
    pub ocr_lang : List Text
    pub ocr_preset : Text
    pub pdf_backend : Text
    pub pipeline : Text
    pub table_mode : Text
    pub table_cell_matching : Option Bool
    pub do_table_structure : Option Bool
    pub include_images : Option Bool
    pub images_scale : Option Float
    pub do_code_enrichment : Bool
    pub do_formula_enrichment : Bool
    pub do_picture_classification : Bool
    pub do_picture_description : Bool
    pub do_chart_extraction : Bool
    pub picture_description_api : Option WirePictureDescriptionApi
    pub picture_description_area_threshold : Option Float
    pub document_timeout : Option Float
    pub page_range : List ℕ
    pub md_page_break_placeholder : Text
    pub abort_on_error : Bool

  unfoldable pub parse_float64_ptr : Text → Option Float
  parse_float64_ptr s = if s == [] then none else parse s

  abbrev timeout_of : Text → Float
  timeout_of s = elim (parse_float64_ptr s) [ none ↦ zero_float | some v ↦ v ]

  unfoldable pub convert_picture_description_api :
      Option DoclingConfig.PictureDescriptionApi → Option WirePictureDescriptionApi
  unfolding parse_float64_ptr
  convert_picture_description_api none = none
  convert_picture_description_api (some api) = some (record {
    url = api.url;
    model = api.params.model;
    max_tokens = api.params.max_tokens;
    prompt = api.prompt;
    timeout = timeout_of api.timeout;
    concurrency = api.concurrency;
    headers = api.headers;
  })

  -- A header of the same name is overwritten.
  unfoldable pub set_header : Text → Text → List (Text × Text) → List (Text × Text)
  set_header k v [] = (k, v) ∷ []
  set_header k v ((j, u) ∷ l) = if j == k then (k, v) ∷ l else (j, u) ∷ set_header k v l

  -- The key goes into the wire form only.
  abbrev with_key : Text → Option WirePictureDescriptionApi → Option WirePictureDescriptionApi
  with_key key none = none
  with_key key (some api) =
      if key == []
      then some api
      else some (record api {
        headers =
            set_header (codes "Authorization") (codes "Bearer " ++ trim_space key) api.headers;
      })

  -- `none` where a pointer is dereferenced that is nil.
  unfoldable pub wire_config : Text → DoclingConfig → Option WireConfig
  unfolding convert_picture_description_api parse_float64_ptr
  wire_config vlm_api_key cfg = elim cfg.do_picture_classification [
    | none ↦ none
    | some classification ↦ elim cfg.do_picture_description [
      | none ↦ none
      | some description ↦ some (record {
        from_formats = cfg.from_formats;
        to_formats = cfg.to_formats;
        image_export_mode = cfg.image_export_mode;
        do_ocr = cfg.do_ocr;
        force_ocr = cfg.force_ocr;
        ocr_engine = cfg.ocr_engine;
        ocr_lang = cfg.ocr_lang;
        ocr_preset = cfg.ocr_preset;
        pdf_backend = cfg.pdf_backend;
        pipeline = cfg.pipeline;
        table_mode = cfg.table_mode;
        table_cell_matching = cfg.table_cell_matching;
        do_table_structure = cfg.do_table_structure;
        include_images = cfg.include_images;
        images_scale = parse_float64_ptr cfg.images_scale;
        do_code_enrichment = cfg.do_code_enrichment;
        do_formula_enrichment = cfg.do_formula_enrichment;
        do_picture_classification = classification;
        do_picture_description = description;
        do_chart_extraction = cfg.do_chart_extraction;
        picture_description_api =
            with_key vlm_api_key (convert_picture_description_api cfg.picture_description_api);
        picture_description_area_threshold =
            parse_float64_ptr cfg.picture_description_area_threshold;
        document_timeout = parse_float64_ptr cfg.document_timeout;
        page_range = cfg.page_range;
        md_page_break_placeholder = cfg.md_page_break_placeholder;
        abort_on_error = false;
      })
    ]
  ]
