-- ===== src/Values/Selections.antt =====
-- Runtime selections: names, backends and what a stored selection is read back as.
use or3_sandbox.Base.{true, ◌≡◌, refl, Text, [], eq_text, trim_space, to_lower}
use or3_sandbox.Model.Selection.{
  RuntimeSelection, docker_dev, containerd_kata_professional, qemu_professional, backend,
  backend_name, is_valid, selection_name, parse_runtime_selection, resolve_runtime_selection,
  runtime_selection_from_backend,
}

-- A valid selection survives the columns `runtime_selection` and `runtime_backend`: it is read back by
-- its name whatever the backend says, and by its backend's name where the selection's column is empty.
pub resolve_runtime_selection-parse_runtime_selection :
    (r : RuntimeSelection) (b : Text)
    → is_valid r ≡ true
    → (resolve_runtime_selection (parse_runtime_selection (selection_name r)) b ≡ r)
      × (resolve_runtime_selection (RuntimeSelection.unknown []) (backend_name (backend r)) ≡ r)
unfolding resolve_runtime_selection parse_runtime_selection runtime_selection_from_backend
    trim_space to_lower eq_text
resolve_runtime_selection-parse_runtime_selection docker_dev b v = (refl, refl)
resolve_runtime_selection-parse_runtime_selection containerd_kata_professional b v = (refl, refl)
resolve_runtime_selection-parse_runtime_selection qemu_professional b v = (refl, refl)
resolve_runtime_selection-parse_runtime_selection (RuntimeSelection.unknown s) b v = cc
