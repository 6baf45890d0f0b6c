-- ===== src/Prelude/Results.antt =====
-- Go's pair of a value and an error.
use mathlib.Core.Bool.{Bool, true, false}
use mathlib.Core.List.{◌++◌}
use unstructured_data_contro.Prelude.Texts.{Text}

-- An error, by the kind that the program tells apart: that for which os.IsNotExist holds,
-- types.NotFound and types.NoSuchKey of S3, and any other. A panic that a caller may not handle as
-- an error is one of its own. `%w` keeps the kind.
pub data Kind : Type 0 where
  other not_exist not_found no_such_key panic : Kind

pub record Error : Type 0 where
  pub kind : Kind
  pub message : Text

-- A panic, which unwinds every caller.
abbrev pub is_panic : Error → Bool
is_panic e = elim e.kind [ Kind.panic ↦ true | _ ↦ false ]

-- os.IsNotExist
abbrev pub is_not_exist : Error → Bool
is_not_exist e = elim e.kind [ Kind.not_exist ↦ true | _ ↦ false ]

-- errors.As with *types.NotFound
abbrev pub is_not_found : Error → Bool
is_not_found e = elim e.kind [ Kind.not_found ↦ true | _ ↦ false ]

-- errors.As with *types.NotFound or *types.NoSuchKey
abbrev pub is_missing : Error → Bool
is_missing e = elim e.kind [ Kind.not_found ↦ true | Kind.no_such_key ↦ true | _ ↦ false ]

pub data Result {ℓ} (A : Type ℓ) : Type ℓ where
  ok : A → Result A
  err : Error → Result A

-- errors.New and fmt.Errorf
abbrev pub new_error : Text → Error
new_error m = record { kind = other; message = m }

-- fmt.Errorf with %w
abbrev pub wrap : Text → Error → Error
wrap m e = record { kind = e.kind; message = m ++ e.message }

-- What talks to the disk, to S3 or to the API server: a step of the outside world `W`.
abbrev pub Io : Type 0 → Type 0 → Type 0
Io W A = W → Result A × W

module _ {W A : Type 0} where
  abbrev pub pure : A → Io W A
  pure a w = (ok a, w)

  abbrev pub raise : Error → Io W A
  raise e w = (err e, w)

  -- The result as a value, for code that goes on after an error.
  abbrev pub attempt : Io W A → Io W (Result A)
  attempt m w = let (r, w') = m w in (ok r, w')

module _ {W A B : Type 0} where
  abbrev pub continue : Result A → (A → Io W B) → Io W B
  continue (ok a) f w = f a w
  continue (err e) f w = (err e, w)

  -- `if err != nil { return err }` after each call.
  infixl 5 ◌>>=◌ ◌>>◌
  abbrev pub ◌>>=◌ : Io W A → (A → Io W B) → Io W B
  ◌>>=◌ m f w = let (r, w') = m w in continue r f w'

  abbrev pub ◌>>◌ : Io W A → Io W B → Io W B
  m >> n = m >>= λ _. n
