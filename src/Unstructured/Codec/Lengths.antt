-- ===== src/Unstructured/Codec/Lengths.antt =====
-- A codec of raw file metadata that has the law: the length of the path, the path, the UID.
use unstructured_data_contro.Unstructured.Codec.{Codec}
use unstructured_data_contro.Unstructured.Layout.{RawFileMetadata}
use unstructured_data_contro.Prelude.{
  ℕ, zero, suc, Text, codes, [], ◌∷◌, ◌++◌, length, Result, ok, err, new_error, ◌≡◌, refl, arith,
}

-- A text and what is behind it, by the length in front.
abbrev split_at : ℕ → Text → Text × Text
split_at zero s = ([], s)
split_at (suc n) [] = ([], [])
split_at (suc n) (c ∷ s) = let (a, b) = split_at n s in (c ∷ a, b)

split_at-append : (p u : Text) → split_at (length p) (p ++ u) ≡ (p, u)
split_at-append [] u = refl
split_at-append (c ∷ p) u = ground (arith, split_at-append p u)

abbrev decode : Text → Result RawFileMetadata
decode [] = err (new_error (codes "unexpected end of input"))
decode (n ∷ s) = let (p, u) = split_at n s in ok (record { file_path = p; uid = u })

pub encode-decode :
    (file : RawFileMetadata) (t : Text)
    → ok (length file.file_path ∷ file.file_path ++ file.uid) ≡ ok t
    → decode t ≡ ok file
encode-decode file t h = ground (arith, split_at-append file.file_path file.uid)

-- A codec that has the law.
abbrev pub length_codec : Codec RawFileMetadata
length_codec = record {
  marshal = λ file. ok (length file.file_path ∷ file.file_path ++ file.uid);
  unmarshal = decode;
  unmarshal-marshal = encode-decode;
}
