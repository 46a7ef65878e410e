-- ===== src/Store/Columns.antt =====
-- Lists of strings in one column: joinStringList and splitStringList.
use or3_sandbox.Base.{ℕ, Text, List, [], ◌∷◌, ◌++◌, trim_space, is_empty, if◌then◌else◌, ◌==◌}

-- func joinStringList
unfoldable pub join_string_list : List Text → Text
join_string_list [] = []
join_string_list (w ∷ []) = w
join_string_list (w ∷ v ∷ ws) = w ++ (b',' ∷ join_string_list (v ∷ ws))

abbrev pub prepend : ℕ → List Text → List Text
prepend c [] = (c ∷ []) ∷ []
prepend c (w ∷ ws) = (c ∷ w) ∷ ws

-- strings.Split(value, ",")
unfoldable pub split_commas : Text → List Text
split_commas [] = [] ∷ []
split_commas (c ∷ s) = let rest = split_commas s in if c == b',' then [] ∷ rest else prepend c rest

-- The loop of splitStringList.
unfoldable pub trim_parts : List Text → List Text
unfolding trim_space
trim_parts [] = []
trim_parts (raw ∷ parts) =
    let part = trim_space raw in
    let rest = trim_parts parts in if is_empty part then rest else part ∷ rest

-- func splitStringList
unfoldable pub split_string_list : Text → List Text
unfolding trim_parts split_commas
split_string_list value =
    if is_empty (trim_space value) then [] else trim_parts (split_commas value)
