-- ===== src/Unstructured/ConvertedFile.antt =====
-- pkg/unstructured/converted_file.go: a converted document with the metadata of its conversion. The
-- pointers of the source are always set in what the controllers write, and are plain fields here.
use unstructured_data_contro.Api.DoclingConfig.{DoclingConfig, docling_config_eq}
use unstructured_data_contro.Prelude.{
  Text, codes, Bool, true, ◌&&◌, ◌==◌, nat_eq, list_eq, ◌≡◌, ◌↔◌, arith,
}

abbrev pub document_converter_docling : Text
document_converter_docling = codes "docling"

pub record ConvertedFileMetadata : Type 0 where
  pub raw_file_path : Text
  pub file_identifier : Text
  pub document_converter : Text
  pub docling_config : DoclingConfig

pub record ConvertedFile : Type 0 where
  pub metadata : ConvertedFileMetadata
  pub markdown : Text

-- ConvertedFileMetadata.Equal
unfoldable pub equal : ConvertedFileMetadata → ConvertedFileMetadata → Bool
equal c other =
    c.raw_file_path == other.raw_file_path
    && c.file_identifier == other.file_identifier
    && c.document_converter == other.document_converter
    && c.docling_config == other.docling_config

-- Equal holds exactly of metadata that agree in all fields.
pub equal_iff : (c d : ConvertedFileMetadata) → (equal c d ≡ true) ↔ (c ≡ d)
unfolding equal
equal_iff c d = ground arith
