-- ===== src/Model/Selection.antt =====
-- internal/model/runtime_class.go: runtime selections, their backends and isolation classes.
use or3_sandbox.Base.{
  Bool, true, false, Text, codes, eq_text, trim_space, to_lower, if◌then◌else◌, [],
}

-- `unknown s` is any other string, the empty one among them.
pub data RuntimeSelection : Type 0 where
  docker_dev containerd_kata_professional qemu_professional : RuntimeSelection
  unknown : Text → RuntimeSelection

-- What `Backend` returns: a backend's name, or the empty string.
pub data Backend : Type 0 where
  docker kata qemu none : Backend

pub data RuntimeClass : Type 0 where
  trusted_docker vm unset : RuntimeClass

abbrev pub docker_name : Text
docker_name = codes "docker"

abbrev pub kata_name : Text
kata_name = codes "kata"

abbrev pub qemu_name : Text
qemu_name = codes "qemu"

abbrev pub backend_name : Backend → Text
backend_name docker = docker_name
backend_name kata = kata_name
backend_name qemu = qemu_name
backend_name none = []

-- func BackendToRuntimeClass; its argument is always a result of `Backend`.
abbrev pub backend_to_runtime_class : Backend → RuntimeClass
backend_to_runtime_class docker = trusted_docker
backend_to_runtime_class kata = vm
backend_to_runtime_class qemu = vm
backend_to_runtime_class none = unset

-- func (RuntimeSelection) IsValid
abbrev pub is_valid : RuntimeSelection → Bool
is_valid (unknown s) = false
is_valid _ = true

-- func (RuntimeSelection) Backend
abbrev pub backend : RuntimeSelection → Backend
backend docker_dev = docker
backend containerd_kata_professional = kata
backend qemu_professional = qemu
backend (unknown s) = none

-- func (RuntimeSelection) RuntimeClass
abbrev pub runtime_class : RuntimeSelection → RuntimeClass
runtime_class s = backend_to_runtime_class (backend s)

-- func (RuntimeClass) IsVMBacked
abbrev pub is_vm : RuntimeClass → Bool
is_vm vm = true
is_vm _ = false

-- func (RuntimeSelection) IsVMBacked
abbrev pub is_vm_backed : RuntimeSelection → Bool
is_vm_backed s = is_vm (runtime_class s)

-- func RuntimeSelectionFromBackend
unfoldable pub runtime_selection_from_backend : Text → RuntimeSelection
unfolding eq_text trim_space to_lower
runtime_selection_from_backend name =
    let trimmed = to_lower (trim_space name) in
    if eq_text trimmed docker_name
    then docker_dev
    else if eq_text trimmed kata_name
    then containerd_kata_professional
    else if eq_text trimmed qemu_name
    then qemu_professional
    else unknown []

abbrev pub selection_name : RuntimeSelection → Text
selection_name docker_dev = codes "docker-dev"
selection_name containerd_kata_professional = codes "containerd-kata-professional"
selection_name qemu_professional = codes "qemu-professional"
selection_name (unknown s) = s

-- func ParseRuntimeSelection
unfoldable pub parse_runtime_selection : Text → RuntimeSelection
unfolding eq_text trim_space to_lower
parse_runtime_selection value =
    let trimmed = to_lower (trim_space value) in
    if eq_text trimmed (codes "docker-dev")
    then docker_dev
    else if eq_text trimmed (codes "containerd-kata-professional")
    then containerd_kata_professional
    else if eq_text trimmed (codes "qemu-professional")
    then qemu_professional
    else unknown []

-- func ResolveRuntimeSelection
unfoldable pub resolve_runtime_selection : RuntimeSelection → Text → RuntimeSelection
resolve_runtime_selection selection name =
    if is_valid selection then selection else runtime_selection_from_backend name

-- `a == b` on selections
unfoldable pub eq_selection : RuntimeSelection → RuntimeSelection → Bool
unfolding eq_text
eq_selection docker_dev docker_dev = true
eq_selection containerd_kata_professional containerd_kata_professional = true
eq_selection qemu_professional qemu_professional = true
eq_selection (unknown s) (unknown t) = eq_text s t
eq_selection _ _ = false

-- `s != ""`
abbrev pub is_named : RuntimeSelection → Bool
is_named (unknown []) = false
is_named _ = true

abbrev pub is_qemu : Backend → Bool
is_qemu qemu = true
is_qemu _ = false

abbrev pub is_docker : Backend → Bool
is_docker docker = true
is_docker _ = false
