-- ===== src/Api/DoclingConfig/Defaults.antt =====
-- `SetDefaults` of api/v1alpha1/documentprocessor_types.go.
use unstructured_data_contro.Api.DoclingConfig.{
  DocumentProcessorConfig, set_docling_defaults, set_defaults,
}
use unstructured_data_contro.Prelude.{Text, true, none, some, ◌≡◌, ◌≢◌, arith, nat_eq}

-- After the defaults the two pointers that the controller dereferences are set, and a
-- configuration that asks for picture descriptions has the section that says how.
pub set_defaults_present :
    (prompt : Text) (c : DocumentProcessorConfig)
    → ((set_defaults prompt c).docling_config.do_picture_description ≢ none)
      × ((set_defaults prompt c).docling_config.do_picture_classification ≢ none)
      × ((set_defaults prompt c).docling_config.do_picture_description ≡ some true
          → (set_defaults prompt c).docling_config.picture_description_api ≢ none)
unfolding set_defaults set_docling_defaults
set_defaults_present prompt c = ground arith
