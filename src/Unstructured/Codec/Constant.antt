-- ===== src/Unstructured/Codec/Constant.antt =====
-- A codec that has the law and knows one value.
use unstructured_data_contro.Unstructured.Codec.{Codec}
use unstructured_data_contro.Prelude.{
  Text, codes, Result, ok, err, new_error, ◌==◌, Eq, nat_eq, list_eq, if◌then◌else◌, ◌≡◌, arith,
}

module _ {A : Type 0} ⦃eq : Eq A⦄ (known : A) (text : Text) where
  abbrev encode : A → Result Text
  encode a = if a == known then ok text else err (new_error (codes "unsupported value"))

  abbrev decode : Text → Result A
  decode t = if t == text then ok known else err (new_error (codes "invalid character"))

  pub decode-encode : (a : A) (t : Text) → encode a ≡ ok t → decode t ≡ ok a
  decode-encode a t h = ground arith

  abbrev pub constant_codec : Codec A
  constant_codec = record {
    marshal = encode;
    unmarshal = decode;
    unmarshal-marshal = decode-encode;
  }
