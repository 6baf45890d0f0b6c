-- ===== src/Prelude/Texts.antt =====
-- Go's strings as lists of bytes, with what the program uses of the package `strings`.
use Prim.Native.Nat.{ℕ, zero, suc, ◌+◌, ◌/◌, ◌%◌}
use Prim.Native.Char.{code}
use Prim.Native.String.{String}
use mathlib.Core.Path.{◌≡◌, refl, ap, ◌∙◌, sym}
use mathlib.Core.Bool.{Bool, true, false, ◌&&◌, ◌||◌}
use mathlib.Core.Option.{Option, none, some}
use mathlib.Core.List.{List, [], ◌∷◌, ◌++◌, reverse, reverse-append, reverse-reverse}
use native.Mathlib.Omega.{arith}
use unstructured_data_contro.Prelude.Tests.{if◌then◌else◌, ltb, ◌==◌, nat_eq, list_eq}

abbrev pub Text : Type 0
Text = List ℕ

-- The bytes of a literal (every literal of the program that is used here is ASCII).
abbrev pub codes : String → Text
codes String.[] = []
codes (String.◌∷◌ c s) = code c ∷ codes s

module _ {ℓ} {A : Type ℓ} where
  -- len
  abbrev pub length : List A → ℕ
  length [] = 0
  length (x ∷ xs) = suc (length xs)

-- The decimal digits of a number, with fuel for one step a digit.
decimal_fuel : ℕ → ℕ → Text
decimal_fuel zero n = []
decimal_fuel (suc f) n =
    let rest = decimal_fuel f (n / 10) in
    if ltb n 10 then (48 + n) ∷ [] else rest ++ (48 + n % 10) ∷ []

-- strconv.Itoa of a number that is not negative, and %d
unfoldable pub decimal : ℕ → Text
unfolding decimal_fuel
decimal n = decimal_fuel (suc n) n

-- The white space of ASCII.
abbrev is_space : ℕ → Bool
is_space c = c == 32 || (ltb 8 c && ltb c 14)

drop_spaces : Text → Text
drop_spaces [] = []
drop_spaces (c ∷ s) = if is_space c then drop_spaces s else c ∷ s

-- strings.TrimSpace
unfoldable pub trim_space : Text → Text
unfolding drop_spaces
trim_space s = reverse (drop_spaces (reverse (drop_spaces s)))

-- The rest of `s` behind `p`, if `s` starts with `p`: strings.CutPrefix
unfoldable pub cut_prefix : Text → Text → Option Text
cut_prefix s [] = some s
cut_prefix [] (c ∷ p) = none
cut_prefix (b ∷ s) (c ∷ p) = let rest = cut_prefix s p in if b == c then rest else none

-- strings.HasPrefix
unfoldable pub has_prefix : Text → Text → Bool
unfolding cut_prefix
has_prefix s p = elim (cut_prefix s p) [ none ↦ false | some r ↦ true ]

-- strings.TrimPrefix
unfoldable pub trim_prefix : Text → Text → Text
unfolding cut_prefix
trim_prefix s p = elim (cut_prefix s p) [ none ↦ s | some r ↦ r ]

abbrev reversed : Option Text → Option Text
reversed none = none
reversed (some r) = some (reverse r)

-- strings.CutSuffix
unfoldable pub cut_suffix : Text → Text → Option Text
unfolding cut_prefix
cut_suffix s p = reversed (cut_prefix (reverse s) (reverse p))

-- strings.HasSuffix
unfoldable pub has_suffix : Text → Text → Bool
unfolding cut_suffix
has_suffix s p = elim (cut_suffix s p) [ none ↦ false | some r ↦ true ]

-- strings.TrimSuffix
unfoldable pub trim_suffix : Text → Text → Text
unfolding cut_suffix
trim_suffix s p = elim (cut_suffix s p) [ none ↦ s | some r ↦ r ]

-- The text behind the first `sub` in `s`: s[strings.Index(s, sub) + len(sub):], if there is one.
unfoldable pub after_first : Text → Text → Option Text
unfolding cut_prefix
after_first [] sub = cut_prefix [] sub
after_first (b ∷ s) sub =
    let rest = after_first s sub in elim (cut_prefix (b ∷ s) sub) [ none ↦ rest | some r ↦ some r ]

-- strings.Contains
unfoldable pub contains_text : Text → Text → Bool
unfolding after_first
contains_text s sub = elim (after_first s sub) [ none ↦ false | some r ↦ true ]

pub cut_prefix-append : (p r : Text) → cut_prefix (p ++ r) p ≡ some r
unfolding cut_prefix
cut_prefix-append [] r = refl
cut_prefix-append (c ∷ p) r = ground (arith, cut_prefix-append p r)

pub cut_prefix-eq-some : (s p r : Text) → cut_prefix s p ≡ some r → s ≡ p ++ r
unfolding cut_prefix
cut_prefix-eq-some s [] r h = ground arith
cut_prefix-eq-some [] (c ∷ p) r h = cc
cut_prefix-eq-some (b ∷ s) (c ∷ p) r h = ground (arith, cut_prefix-eq-some s p r)

pub cut_suffix-append : (r p : Text) → cut_suffix (r ++ p) p ≡ some r
unfolding cut_suffix
cut_suffix-append r p =
    rw (reverse-append, cut_prefix-append (reverse p) (reverse r), reverse-reverse)

pub cut_suffix-eq-some : (s p r : Text) → cut_suffix s p ≡ some r → s ≡ r ++ p
unfolding cut_suffix
cut_suffix-eq-some s p r h = from (cut_prefix (reverse s) (reverse p)) refl h
  where
    from :
        (o : Option Text)
        → cut_prefix (reverse s) (reverse p) ≡ o
        → reversed o ≡ some r
        → s ≡ r ++ p
    from none e k = cc
    from (some t) e k =
        sym (reverse-reverse s)
        ∙ ap reverse (cut_prefix-eq-some (reverse s) (reverse p) t e)
        ∙ reverse-append (reverse p) t
        ∙ cc (reverse-reverse p, k)
