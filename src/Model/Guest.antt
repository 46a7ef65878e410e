-- ===== src/Model/Guest.antt =====
-- Guest profiles (internal/model/model.go) and feature lists (internal/model/guest.go).
use or3_sandbox.Base.{
  Bool, true, false, ◌||◌, ◌&&◌, Text, eq_text, trim_space, to_lower, is_empty, List, [], ◌∷◌, ltb,
  ◌==◌, if◌then◌else◌, any,
}

-- `unknown s` is any other string, the empty one among them.
pub data GuestProfile : Type 0 where
  core runtime browser container debug : GuestProfile
  unknown : Text → GuestProfile

pub data GuestControlMode : Type 0 where
  agent ssh_compat : GuestControlMode
  unknown : Text → GuestControlMode

-- func (GuestProfile) IsValid
abbrev pub is_valid : GuestProfile → Bool
is_valid (unknown s) = false
is_valid _ = true

-- `p != ""`
abbrev pub is_named : GuestProfile → Bool
is_named (unknown []) = false
is_named _ = true

-- `a == b` on profiles and on control modes
unfoldable pub eq_profile : GuestProfile → GuestProfile → Bool
unfolding eq_text
eq_profile core core = true
eq_profile runtime runtime = true
eq_profile browser browser = true
eq_profile container container = true
eq_profile debug debug = true
eq_profile (unknown s) (unknown t) = eq_text s t
eq_profile _ _ = false

unfoldable pub eq_control_mode : GuestControlMode → GuestControlMode → Bool
unfolding eq_text
eq_control_mode agent agent = true
eq_control_mode ssh_compat ssh_compat = true
eq_control_mode (unknown s) (unknown t) = eq_text s t
eq_control_mode _ _ = false

-- the byte order of Go strings, as `sort.Strings` uses it: a < b
unfoldable pub ltb_text : Text → Text → Bool
ltb_text [] [] = false
ltb_text [] (_ ∷ _) = true
ltb_text (_ ∷ _) [] = false
ltb_text (a ∷ s) (b ∷ t) = ltb a b || ((a == b) && ltb_text s t)

unfoldable pub insert_text : Text → List Text → List Text
unfolding ltb_text
insert_text x [] = x ∷ []
insert_text x (y ∷ ys) =
    let rest = insert_text x ys in if ltb_text y x then y ∷ rest else x ∷ y ∷ ys

-- sort.Strings
unfoldable pub sort_strings : List Text → List Text
unfolding insert_text
sort_strings [] = []
sort_strings (x ∷ xs) = insert_text x (sort_strings xs)

-- The loop of NormalizeFeatures over the values left, with the map `seen`.
unfoldable pub distinct_features : List Text → List Text → List Text
unfolding eq_text trim_space to_lower
distinct_features seen [] = []
distinct_features seen (raw ∷ values) =
    let value = to_lower (trim_space raw) in
    let skip = distinct_features seen values in
    let keep = value ∷ distinct_features (value ∷ seen) values in
    if is_empty value then skip else if any (eq_text value) seen then skip else keep

-- func NormalizeFeatures; nil and the empty slice are one list.
unfoldable pub normalize_features : List Text → List Text
unfolding distinct_features sort_strings
normalize_features values = sort_strings (distinct_features [] values)

-- func NormalizeCapabilities
unfoldable pub normalize_capabilities : List Text → List Text
unfolding normalize_features
normalize_capabilities values = normalize_features values
