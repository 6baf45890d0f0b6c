-- ===== src/Prelude/Slices.antt =====
-- Go's slices of strings where nil and empty are told apart.
use mathlib.Core.List.{List, [], ◌∷◌}
use mathlib.Core.Option.{Option, none, some}
use unstructured_data_contro.Prelude.Texts.{Text}

-- `none` is nil.
abbrev pub Slice : Type 0
Slice = Option (List Text)

abbrev pub elements : Slice → List Text
elements none = []
elements (some texts) = texts

-- What is read back of a field with `omitempty`: an empty slice is left out, and is nil then.
abbrev pub omit_empty : Slice → Slice
omit_empty none = none
omit_empty (some []) = none
omit_empty (some (t ∷ texts)) = some (t ∷ texts)
