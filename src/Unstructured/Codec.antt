-- ===== src/Unstructured/Codec.antt =====
-- json.Marshal and json.Unmarshal of a type of the program, which go through encoding/json and are
-- a parameter. The law is what the program relies on: what was marshalled is read back.
pub mod Lengths
pub mod Constant
use unstructured_data_contro.Prelude.{Text, Result, ok, ◌≡◌}

pub record Codec (A : Type 0) : Type 0 where
  pub marshal : A → Result Text
  pub unmarshal : Text → Result A
  pub unmarshal-marshal : (a : A) (t : Text) → marshal a ≡ ok t → unmarshal t ≡ ok a
