-- ===== src/Paths.antt =====
-- Slash-separated paths: filepath.Clean and filepath.Join of Go's standard library, and the two
-- checks of internal/service/util.go that keep a workspace path inside its root.
use or3_sandbox.Base.{
  ℕ, Bool, false, Text, List, [], ◌∷◌, ◌++◌, eq_text, has_prefix, is_empty, ◌==◌, if◌then◌else◌,
  ◌||◌,
}
use or3_sandbox.Errors.{Result, ok, err, invalid, path_escapes}
use mathlib.Core.List.{reverse}

abbrev pub slash : Text
slash = b'/' ∷ []

abbrev pub dot : Text
dot = b'.' ∷ []

abbrev pub dot_dot : Text
dot_dot = b'.' ∷ b'.' ∷ []

abbrev pub prepend : ℕ → List Text → List Text
prepend c [] = (c ∷ []) ∷ []
prepend c (w ∷ ws) = (c ∷ w) ∷ ws

-- strings.Split(path, "/")
unfoldable pub split_path : Text → List Text
split_path [] = [] ∷ []
split_path (c ∷ s) = let rest = split_path s in if c == b'/' then [] ∷ rest else prepend c rest

-- strings.Join(parts, "/")
unfoldable pub join_path : List Text → Text
join_path [] = []
join_path (w ∷ []) = w
join_path (w ∷ v ∷ ws) = w ++ (slash ++ join_path (v ∷ ws))

-- One path element against the elements kept so far, the last one first. `..` removes an element
-- that is not itself `..`; at the front it is kept in a relative path and dropped in a rooted one.
unfoldable pub clean_step : Bool → List Text → Text → List Text
unfolding eq_text
clean_step rooted [] w =
    if is_empty w || eq_text w dot
    then []
    else if eq_text w dot_dot
    then (if rooted then [] else dot_dot ∷ [])
    else w ∷ []
clean_step rooted (top ∷ kept) w =
    if is_empty w || eq_text w dot
    then top ∷ kept
    else if eq_text w dot_dot
    then (if eq_text top dot_dot then dot_dot ∷ top ∷ kept else kept)
    else w ∷ top ∷ kept

unfoldable pub clean_parts : Bool → List Text → List Text → List Text
unfolding clean_step
clean_parts rooted kept [] = reverse kept
clean_parts rooted kept (w ∷ ws) = clean_parts rooted (clean_step rooted kept w) ws

abbrev pub is_rooted : Text → Bool
is_rooted [] = false
is_rooted (c ∷ s) = c == b'/'

abbrev pub or_dot : Text → Text
or_dot [] = dot
or_dot (c ∷ s) = c ∷ s

-- filepath.Clean
unfoldable pub clean : Text → Text
unfolding clean_parts split_path join_path
clean path =
    let rooted = is_rooted path in
    let body = join_path (clean_parts rooted [] (split_path path)) in
    if rooted then slash ++ body else or_dot body

-- filepath.Join of two elements: an empty element is ignored.
unfoldable pub join : Text → Text → Text
unfolding clean
join [] [] = []
join [] (c ∷ s) = clean (c ∷ s)
join (c ∷ s) [] = clean (c ∷ s)
join (c ∷ s) (d ∷ t) = clean ((c ∷ s) ++ (slash ++ (d ∷ t)))

-- strings.TrimLeft(requested, "/")
unfoldable pub trim_slashes : Text → Text
trim_slashes [] = []
trim_slashes (c ∷ s) = let rest = trim_slashes s in if c == b'/' then rest else c ∷ s

-- strings.TrimRight(s, "/")
unfoldable pub trim_right_slashes : Text → Text
unfolding trim_slashes
trim_right_slashes s = reverse (trim_slashes (reverse s))

-- func cleanWorkspaceRelativePath
unfoldable pub clean_workspace_relative_path : Text → Result Text
unfolding trim_slashes clean eq_text has_prefix
clean_workspace_relative_path requested =
    let trimmed = trim_slashes requested in
    let cleaned = clean trimmed in
    if is_empty trimmed
    then ok []
    else if eq_text cleaned dot
    then ok []
    else if eq_text cleaned dot_dot || has_prefix cleaned (dot_dot ++ slash)
    then err (invalid path_escapes)
    else ok cleaned
