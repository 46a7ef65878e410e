-- ===== src/Auth/Identity.antt =====
-- internal/auth/identity.go: the caller of a request, and the permissions of its roles.
use or3_sandbox.Base.{
  Bool, true, false, not, ◌&&◌, ◌||◌, Text, List, [], ◌∷◌, Option, none, some, codes, eq_text,
  equal_fold, any, trim_space, to_lower, if◌then◌else◌,
}
use or3_sandbox.Model.Records.{TenantQuota}

pub record Identity : Type 0 where
  pub subject : Text
  pub tenant_id : Text
  pub roles : List Text
  pub scopes : List Text
  pub service_account_id : Text
  pub is_service : Bool
  pub auth_method : Text

-- The tenant stands in by its id.
pub record TenantContext : Type 0 where
  pub tenant_id : Text
  pub quota : TenantQuota
  pub identity : Identity

pub data AuthError : Type 0 where
  unauthorized forbidden : AuthError

abbrev pub sandbox_read : Text
sandbox_read = codes "sandbox.read"

abbrev pub sandbox_lifecycle : Text
sandbox_lifecycle = codes "sandbox.lifecycle"

abbrev pub exec_run : Text
exec_run = codes "exec.run"

abbrev pub tty_attach : Text
tty_attach = codes "tty.attach"

abbrev pub files_read : Text
files_read = codes "files.read"

abbrev pub files_write : Text
files_write = codes "files.write"

abbrev pub snapshots_read : Text
snapshots_read = codes "snapshots.read"

abbrev pub snapshots_write : Text
snapshots_write = codes "snapshots.write"

abbrev pub tunnels_read : Text
tunnels_read = codes "tunnels.read"

abbrev pub tunnels_write : Text
tunnels_write = codes "tunnels.write"

abbrev pub admin_inspect : Text
admin_inspect = codes "admin.inspect"

-- func AllPermissions
abbrev pub all_permissions : List Text
all_permissions =
    sandbox_read ∷ sandbox_lifecycle ∷ exec_run ∷ tty_attach ∷ files_read ∷ files_write
    ∷ snapshots_read ∷ snapshots_write ∷ tunnels_read ∷ tunnels_write ∷ admin_inspect ∷ []

-- The permissions of a tenant's administrators and developers.
abbrev pub tenant_permissions : List Text
tenant_permissions =
    sandbox_read ∷ sandbox_lifecycle ∷ exec_run ∷ tty_attach ∷ files_read ∷ files_write
    ∷ snapshots_read ∷ snapshots_write ∷ tunnels_read ∷ tunnels_write ∷ []

-- The cases of the switch in rolePermissions.
pub data Role : Type 0 where
  operator admin developer viewer service other : Role

unfoldable pub role_of : Text → Role
unfolding eq_text
role_of role =
    if eq_text role (codes "operator")
    then operator
    else if eq_text role (codes "tenant-admin") || eq_text role (codes "admin")
    then admin
    else if eq_text role (codes "tenant-developer") || eq_text role (codes "developer")
    then developer
    else if eq_text role (codes "tenant-viewer") || eq_text role (codes "viewer")
    then viewer
    else if eq_text role (codes "service-account") || eq_text role (codes "service")
    then service
    else other

abbrev pub permissions_of : Role → List Text
permissions_of operator = all_permissions
permissions_of admin = tenant_permissions
permissions_of developer = tenant_permissions
permissions_of viewer = sandbox_read ∷ files_read ∷ snapshots_read ∷ tunnels_read ∷ []
permissions_of service = all_permissions
permissions_of other = []

-- func rolePermissions
unfoldable pub role_permissions : Text → List Text
unfolding role_of
role_permissions role = permissions_of (role_of role)

-- func containsPermission
unfoldable pub contains_permission : List Text → Text → Bool
unfolding equal_fold trim_space
contains_permission granted permission =
    any (λ value. equal_fold (trim_space value) permission) granted

-- `len(t.Identity.Scopes) > 0`
abbrev pub has_scopes : Identity → Bool
has_scopes who = any (λ scope. true) who.scopes

-- The loop of HasPermission over the roles.
unfoldable pub granted_by : List Text → Text → Bool
unfolding role_permissions to_lower trim_space eq_text
granted_by roles permission =
    any
      (λ role.
        any (λ granted. eq_text granted permission) (role_permissions (to_lower (trim_space role))))
      roles

-- func (TenantContext) HasPermission
unfoldable pub has_permission : TenantContext → Text → Bool
unfolding contains_permission granted_by
has_permission c permission =
    if c.identity.is_service
      && has_scopes c.identity
      && not (contains_permission c.identity.scopes permission)
    then false
    else granted_by c.identity.roles permission

-- func Require, on what FromContext finds; none is success.
unfoldable pub require : Option TenantContext → List Text → Option AuthError
unfolding has_permission
require none permissions = some unauthorized
require (some c) permissions = if any (has_permission c) permissions then none else some forbidden
