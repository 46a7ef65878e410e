-- ===== src/Examples/Stored.antt =====
-- Stored values and admission at concrete rows.
use or3_sandbox.Base.{has_prefix, true, ◌≡◌, refl, [], ◌∷◌, codes, arith, any, eq_text}
use or3_sandbox.Model.Status.{SandboxStatus}
use or3_sandbox.Model.Selection.{
  qemu_professional, resolve_runtime_selection, parse_runtime_selection, selection_name,
  RuntimeSelection, backend, backend_name,
}
use or3_sandbox.Service.Admission.{
  count_sandboxes, count_sandbox, empty_snapshot, evaluate_admission,
}
use or3_sandbox.Service.Transitions.{fill_delta, start_delta}
use or3_sandbox.Values.Selections.{resolve_runtime_selection-parse_runtime_selection}
use or3_sandbox.Admissions.{
  Added, count_sandboxes-Added, first_refusal, evaluate_admission-first_refusal,
}
use or3_sandbox.Paths.{
  clean_workspace_relative_path, trim_slashes, clean, clean_parts, clean_step, split_path,
  join_path,
}
use or3_sandbox.Store.Columns.{join_string_list, split_string_list}
use or3_sandbox.Model.Guest.{normalize_features}
use or3_sandbox.Values.Features.{is_strict, is_value_of, normalize_features-is_strict}
use or3_sandbox.Values.Lists.{split_string_list-join_string_list}
use or3_sandbox.Values.Relative.{stays_below, clean_workspace_relative_path-stays_below}
use or3_sandbox.Examples.Fixtures.{docker_config, alice, bob, box_b, database, sandbox_of}

resolve_runtime_selection_example :
    (resolve_runtime_selection
        (parse_runtime_selection (selection_name qemu_professional))
        (codes "docker")
      ≡ qemu_professional)
    × (resolve_runtime_selection
          (RuntimeSelection.unknown [])
          (backend_name (backend qemu_professional))
        ≡ qemu_professional)
resolve_runtime_selection_example =
    resolve_runtime_selection-parse_runtime_selection qemu_professional (codes "docker") refl

count_sandboxes-Added_example :
    Added alice database.sandboxes empty_snapshot
      (count_sandboxes alice empty_snapshot database.sandboxes)
count_sandboxes-Added_example = count_sandboxes-Added alice database.sandboxes

evaluate_admission-first_refusal_example :
    evaluate_admission
      (record docker_config { admission_max_node_cpu = 1500 })
      (count_sandboxes alice empty_snapshot database.sandboxes)
      (fill_delta start_delta (sandbox_of bob box_b SandboxStatus.stopped))
    ≡ first_refusal
        (record docker_config { admission_max_node_cpu = 1500 })
        (count_sandboxes alice empty_snapshot database.sandboxes)
        (fill_delta start_delta (sandbox_of bob box_b SandboxStatus.stopped))
unfolding count_sandboxes count_sandbox eq_text
evaluate_admission-first_refusal_example =
    evaluate_admission-first_refusal (record docker_config { admission_max_node_cpu = 1500 })
      (count_sandboxes alice empty_snapshot database.sandboxes)
      (fill_delta start_delta (sandbox_of bob box_b SandboxStatus.stopped)) (omega arith)
      (omega arith) (omega arith) (omega arith) (omega arith) (omega arith) (omega arith)

normalize_features_example :
    (any
        (eq_text (codes "gpu"))
        (normalize_features (codes " GPU" ∷ codes "net" ∷ codes "gpu" ∷ []))
      ≡ is_value_of (codes "gpu") (codes " GPU" ∷ codes "net" ∷ codes "gpu" ∷ []))
    × (is_strict (normalize_features (codes " GPU" ∷ codes "net" ∷ codes "gpu" ∷ [])) ≡ true)
normalize_features_example =
    normalize_features-is_strict (codes "gpu") (codes " GPU" ∷ codes "net" ∷ codes "gpu" ∷ []) refl

split_string_list_example :
    split_string_list (join_string_list (codes "gpu" ∷ codes "net" ∷ []))
    ≡ codes "gpu" ∷ codes "net" ∷ []
split_string_list_example =
    split_string_list-join_string_list (codes "gpu" ∷ codes "net" ∷ []) (refl, (refl, tt))

clean_workspace_relative_path_example : stays_below (codes "b") ≡ true
unfolding clean_workspace_relative_path trim_slashes clean clean_parts clean_step split_path
    join_path eq_text has_prefix
clean_workspace_relative_path_example =
    clean_workspace_relative_path-stays_below (codes "/a/../b") (codes "b") refl
