-- ===== src/Values/Relative.antt =====
-- cleanWorkspaceRelativePath of internal/service/util.go: what it returns stays below the root.
use mathlib.Core.Path.{subst}
use or3_sandbox.Base.{
  ℕ, Bool, true, false, not, ◌&&◌, ◌||◌, ◌≡◌, refl, sym, ap, ◌∙◌, Text, List, [], ◌∷◌, ◌++◌, any,
  eq_text, eq_text→eq, has_prefix, is_empty, ◌==◌, arith, if◌then◌else◌,
}
use or3_sandbox.Errors.{ok, err, invalid, path_escapes}
use or3_sandbox.Paths.{
  slash, dot, dot_dot, prepend, split_path, join_path, clean_parts, is_rooted, or_dot, clean,
  trim_slashes, clean_workspace_relative_path,
}
use or3_sandbox.Values.Elements.{
  has_slash, is_element, all_elements, no_slashes, goes_up_first, clean_parts-goes_up_first,
}

split_path-no_slashes : (s : Text) → no_slashes (split_path s) ≡ true
unfolding split_path
split_path-no_slashes [] = refl
split_path-no_slashes (c ∷ s) = step (split_path s) (split_path-no_slashes s)
  where
    step :
        (ws : List Text)
        → no_slashes ws ≡ true
        → no_slashes (if c == b'/' then [] ∷ ws else prepend c ws) ≡ true
    step [] h = ground arith
    step (w ∷ ws) h = ground arith

split_path-last : (w : Text) → has_slash w ≡ false → split_path w ≡ w ∷ []
unfolding split_path
split_path-last [] h = refl
split_path-last (c ∷ w) h = rw (split_path-last w (ground arith)) (rw (other c h) refl)
  where
    other : (c : ℕ) → (c == b'/' || has_slash w) ≡ false → (c == b'/') ≡ false
    other c h = ground arith

split_path-first :
    (w s : Text) → has_slash w ≡ false → split_path (w ++ (b'/' ∷ s)) ≡ w ∷ split_path s
unfolding split_path
split_path-first [] s h = refl
split_path-first (c ∷ w) s h = rw (split_path-first w s (ground arith)) (rw (other c h) refl)
  where
    other : (c : ℕ) → (c == b'/' || has_slash w) ≡ false → (c == b'/') ≡ false
    other c h = ground arith

split_path-join_path :
    (w : Text) (ws : List Text)
    → all_elements (w ∷ ws) ≡ true
    → split_path (join_path (w ∷ ws)) ≡ w ∷ ws
unfolding join_path
split_path-join_path w [] h = split_path-last w (ground arith)
split_path-join_path w (v ∷ ws) h =
    split_path-first w (join_path (v ∷ ws)) (ground arith)
    ∙ ap (λ l. w ∷ l) (split_path-join_path v ws (ground arith))

-- A text that starts with an element is neither empty nor rooted.
join_path-not_rooted :
    (w : Text) (ws : List Text)
    → is_element w ≡ true
    → (or_dot (join_path (w ∷ ws)) ≡ join_path (w ∷ ws)) × (is_rooted (join_path (w ∷ ws)) ≡ false)
unfolding join_path
join_path-not_rooted [] ws h = cc
join_path-not_rooted (c ∷ w) [] h = (refl, ground arith)
join_path-not_rooted (c ∷ w) (v ∷ ws) h = (refl, ground arith)

-- A joined path whose first element is `..` is `..` or starts with `../`.
join_path-up :
    (w : Text) (ws : List Text)
    → eq_text w dot_dot ≡ true
    → (eq_text (join_path (w ∷ ws)) dot_dot || has_prefix (join_path (w ∷ ws)) (dot_dot ++ slash))
      ≡ true
join_path-up w ws h =
    subst
      (λ z.
        (eq_text (join_path (z ∷ ws)) dot_dot || has_prefix (join_path (z ∷ ws)) (dot_dot ++ slash))
        ≡ true)
      (sym (eq_text→eq w dot_dot h)) (up ws)
  where
    up :
        (vs : List Text)
        → (eq_text (join_path (dot_dot ∷ vs)) dot_dot
            || has_prefix (join_path (dot_dot ∷ vs)) (dot_dot ++ slash))
          ≡ true
    up [] = unfold join_path eq_text in refl
    up (v ∷ vs) = unfold join_path eq_text has_prefix in refl

trim_slashes-not_rooted : (s : Text) → is_rooted (trim_slashes s) ≡ false
unfolding trim_slashes
trim_slashes-not_rooted [] = refl
trim_slashes-not_rooted (c ∷ s) = ground (arith, trim_slashes-not_rooted s)

-- A path that stays: no element goes up, and it does not start at the file system's root.
abbrev pub stays_below : Text → Bool
stays_below p = not (any (λ w. eq_text w dot_dot) (split_path p)) && not (is_rooted p)

joined-stays_below :
    (ws : List Text)
    → goes_up_first ws ≡ true
    → all_elements ws ≡ true
    → (eq_text (or_dot (join_path ws)) dot_dot
        || has_prefix (or_dot (join_path ws)) (dot_dot ++ slash))
      ≡ false
    → stays_below (or_dot (join_path ws)) ≡ true
joined-stays_below [] g e h = unfold join_path split_path eq_text in refl
joined-stays_below (w ∷ ws) g e h =
    let r = join_path-not_rooted w ws (ground arith) in
    let h' = rw r.0 at h in
    rw r.0 (rw (split_path-join_path w ws e) (ground (arith, r.1, join_path-up w ws)))

clean-relative :
    (s : Text)
    → is_rooted s ≡ false
    → clean s ≡ or_dot (join_path (clean_parts false [] (split_path s)))
unfolding clean
clean-relative s h = rw h refl

root-stays_below : stays_below [] ≡ true
unfolding split_path eq_text
root-stays_below = refl

-- What cleanWorkspaceRelativePath accepts stays below the workspace's root: none of the elements of the
-- path that it returns is `..`, and the path does not start with a slash.
pub clean_workspace_relative_path-stays_below :
    (requested p : Text) → clean_workspace_relative_path requested ≡ ok p → stays_below p ≡ true
unfolding clean_workspace_relative_path
clean_workspace_relative_path-stays_below requested p e =
    judge (is_empty (trim_slashes requested)) (eq_text (clean (trim_slashes requested)) dot)
      (eq_text (clean (trim_slashes requested)) dot_dot
        || has_prefix (clean (trim_slashes requested)) (dot_dot ++ slash))
      refl e
  where
    parts : List Text
    parts = clean_parts false [] (split_path (trim_slashes requested))

    cleaned : clean (trim_slashes requested) ≡ or_dot (join_path parts)
    cleaned = clean-relative (trim_slashes requested) (trim_slashes-not_rooted requested)

    first : (goes_up_first parts ≡ true) × (all_elements parts ≡ true)
    first =
        clean_parts-goes_up_first [] (split_path (trim_slashes requested))
          (split_path-no_slashes (trim_slashes requested)) refl

    judge :
        (empty same up : Bool)
        → (eq_text (clean (trim_slashes requested)) dot_dot
            || has_prefix (clean (trim_slashes requested)) (dot_dot ++ slash))
          ≡ up
        → (if empty
            then ok []
            else if same
            then ok []
            else if up
            then err (invalid path_escapes)
            else ok (clean (trim_slashes requested)))
          ≡ ok p
        → stays_below p ≡ true
    judge true same up h e =
        let same_text : [] ≡ p = cc in subst (λ z. stays_below z ≡ true) same_text root-stays_below
    judge false true up h e =
        let same_text : [] ≡ p = cc in subst (λ z. stays_below z ≡ true) same_text root-stays_below
    judge false false true h e = cc
    judge false false false h e =
        let same_text : clean (trim_slashes requested) ≡ p = cc in
        subst (λ z. stays_below z ≡ true) same_text
          (rw cleaned (joined-stays_below parts first.0 first.1 (rw cleaned at h)))
