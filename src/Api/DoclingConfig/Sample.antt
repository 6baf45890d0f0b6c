-- ===== src/Api/DoclingConfig/Sample.antt =====
-- A configuration to run tests on: what a resource holds whose section is empty.
use unstructured_data_contro.Api.DoclingConfig.{DoclingConfig}
use unstructured_data_contro.Prelude.{false, none, []}

abbrev pub empty_docling : DoclingConfig
empty_docling = record {
  from_formats = [];
  to_formats = [];
  image_export_mode = [];
  do_ocr = false;
  force_ocr = false;
  ocr_engine = [];
  ocr_lang = [];
  ocr_preset = [];
  pdf_backend = [];
  pipeline = [];
  table_mode = [];
  table_cell_matching = none;
  do_table_structure = none;
  include_images = none;
  images_scale = [];
  do_code_enrichment = false;
  do_formula_enrichment = false;
  do_picture_classification = none;
  do_picture_description = none;
  do_chart_extraction = false;
  picture_description_api = none;
  picture_description_area_threshold = [];
  document_timeout = [];
  page_range = [];
  md_page_break_placeholder = [];
  abort_on_error = false;
}
