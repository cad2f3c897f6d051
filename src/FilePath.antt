-- ===== src/FilePath.antt =====
-- `filepath.Clean` and `filepath.Join` on Unix, through the elements of a path.
pub mod Elements
pub mod Below
use secrets_store_csi_driver.Prelude.{
  ℕ, Text, codes, slash, List, [], ◌∷◌, ◌++◌, Bool, true, false, ◌==◌, ◌||◌, if◌then◌else◌, eq_text,
  is_empty,
}
use mathlib.Core.List.{foldl, reverse}

-- The text before the first slash, put in front of the first element that follows.
abbrev pub push : ℕ → List Text → List Text
push c [] = []
push c (e ∷ es) = (c ∷ e) ∷ es

-- A path cut at its slashes.
unfoldable pub elements : Text → List Text
elements [] = [] ∷ []
elements (c ∷ s) = let rest = elements s in if c == slash then [] ∷ rest else push c rest

-- Elements with a slash between two of them.
unfoldable pub join_elements : List Text → Text
join_elements [] = []
join_elements (e ∷ []) = e
join_elements (e ∷ f ∷ es) = e ++ (slash ∷ join_elements (f ∷ es))

abbrev pub dot_dot : Text
dot_dot = codes ".."

unfoldable pub is_rooted : Text → Bool
is_rooted [] = false
is_rooted (c ∷ s) = c == slash

-- An element that names the directory it stands in.
unfoldable pub is_here : Text → Bool
unfolding eq_text
is_here e = is_empty e || eq_text e (codes ".")

-- `..` goes back to the parent, except from the root and from a `..` that was kept.
unfoldable pub step_back : Bool → List Text → List Text
unfolding eq_text
step_back true [] = []
step_back false [] = dot_dot ∷ []
step_back rooted (e ∷ es) = if eq_text e dot_dot then dot_dot ∷ e ∷ es else es

-- One element read by `Clean`; the elements so far stand in reverse.
unfoldable pub step : Bool → List Text → Text → List Text
unfolding is_here step_back
step rooted out e =
    if is_here e then out else if eq_text e dot_dot then step_back rooted out else e ∷ out

-- The elements of the cleaned path.
unfoldable pub clean_elements : Text → List Text
unfolding step elements is_rooted
clean_elements path = reverse (foldl (step (is_rooted path)) [] (elements path))

-- `filepath.Clean`
unfoldable pub clean : Text → Text
unfolding clean_elements join_elements is_rooted
clean path =
    let inner = join_elements (clean_elements path) in
    if is_rooted path then slash ∷ inner else if is_empty inner then codes "." else inner

-- `filepath.Join` of two elements.
unfoldable pub join : Text → Text → Text
unfolding clean
join dir file =
    if is_empty dir
    then (if is_empty file then [] else clean file)
    else clean (dir ++ (slash ∷ file))
