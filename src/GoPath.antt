-- ===== src/GoPath.antt =====
-- Go's packages path and path/filepath (on Unix), as far as the program uses them.
mod Tests
use unstructured_data_contro.Prelude.{
  ℕ, Text, codes, Bool, true, false, List, [], ◌∷◌, ◌++◌, reverse, if◌then◌else◌, ◌==◌, nat_eq,
  list_eq,
}

abbrev pub slash : ℕ
slash = b'/'

abbrev cons_first : ℕ → List Text → List Text
cons_first c [] = (c ∷ []) ∷ []
cons_first c (e ∷ es) = (c ∷ e) ∷ es

-- strings.Split(s, "/")
unfoldable pub split : Text → List Text
split [] = [] ∷ []
split (c ∷ s) = let rest = split s in if c == slash then [] ∷ rest else cons_first c rest

-- strings.Join(es, "/")
unfoldable pub join_slash : List Text → Text
join_slash [] = []
join_slash (e ∷ []) = e
join_slash (e ∷ f ∷ es) = e ++ slash ∷ join_slash (f ∷ es)

-- One element of a path, the elements kept so far in reverse.
abbrev parent : Bool → List Text → List Text
parent rooted [] = if rooted then [] else codes ".." ∷ []
parent rooted (top ∷ kept) = if top == codes ".." then codes ".." ∷ top ∷ kept else kept

unfoldable pub clean_elements : Bool → List Text → List Text → List Text
clean_elements rooted kept [] = reverse kept
clean_elements rooted kept (e ∷ es) =
    clean_elements rooted
      (if e == []
        then kept
        else if e == codes "."
        then kept
        else if e == codes ".."
        then parent rooted kept
        else e ∷ kept)
      es

abbrev is_rooted : Text → Bool
is_rooted [] = false
is_rooted (c ∷ s) = c == slash

abbrev or_dot : Text → Text
or_dot [] = codes "."
or_dot (c ∷ s) = c ∷ s

-- path.Clean
unfoldable pub clean : Text → Text
unfolding split join_slash clean_elements
clean s =
    let body = join_slash (clean_elements (is_rooted s) [] (split s)) in
    or_dot (if is_rooted s then slash ∷ body else body)

abbrev non_empty : List Text → List Text
non_empty [] = []
non_empty (e ∷ es) = if e == [] then non_empty es else e ∷ non_empty es

-- path.Join: the empty elements are left out, and no element gives the empty path.
unfoldable pub join : List Text → Text
unfolding clean
join es = let s = join_slash (non_empty es) in if s == [] then [] else clean s

abbrev drop_to_slash : Text → Text
drop_to_slash [] = []
drop_to_slash (c ∷ s) = if c == slash then c ∷ s else drop_to_slash s

-- path.Dir: all but the last element, cleaned.
unfoldable pub dir : Text → Text
unfolding clean
dir s = clean (reverse (drop_to_slash (reverse s)))

-- The walk of path.Ext, from the end of the path; `seen` are the bytes behind it.
abbrev ext_from : Text → Text → Text
ext_from [] seen = []
ext_from (c ∷ s) seen =
    if c == slash then [] else if c == b'.' then c ∷ seen else ext_from s (c ∷ seen)

-- path.Ext
unfoldable pub ext : Text → Text
ext s = ext_from (reverse s) []
